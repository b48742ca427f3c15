-- ===== src/Rpc/Faucet/Cooldown.antt =====
-- The cooldown of the faucet of src/rpc.rs, over a series of requests.
use mathlib.Core.Path.{subst}
use aether_sedc.Prelude.{
  ℕ, ◌+◌, ◌-◌, ◌/◌, ◌≤◌, ◌<◌, ◌≡◌, refl, ap, ◌⊎◌, inl, inr, false, List, [], ◌∷◌, Option, none,
  some, arith, ltb, ◌==◌, if◌then◌else◌, Result, ok, err, Bool-cases, Option-cases,
}
use aether_sedc.Dict.{lookup, lookup-insert}
use aether_sedc.Transaction.{Crypto}
use aether_sedc.Rpc.{Node, Call, Refusal}
use aether_sedc.Rpc.Faucet.{
  Cooldowns, check_cooldown, SigningKey, faucet, rate_limited, not_processed,
}

-- The times at which the requests of an address pass, of a series of addresses and times.
abbrev pub passes : Cooldowns → ℕ → List (ℕ × ℕ) → List ℕ
passes cooldowns address [] = []
passes cooldowns address ((asker, now) ∷ requests) =
    let (result, cooldowns') = check_cooldown cooldowns asker now in
    let rest = passes cooldowns' address requests in
    if asker == address then elim result [ ok _ ↦ now ∷ rest | err _ ↦ rest ] else rest

-- Each time is a minute at least after the one before it, and after a start if there is one.
abbrev pub AreApart : Option ℕ → List ℕ → Type 0
AreApart last [] = Unit
AreApart none (t ∷ ts) = AreApart (some t) ts
AreApart (some last) (t ∷ ts) = (last + 60000 ≤ t) × AreApart (some t) ts

check_other :
    (cooldowns : Cooldowns) (address asker now : ℕ)
    → (asker == address) ≡ false
    → lookup address (check_cooldown cooldowns asker now).1 ≡ lookup address cooldowns
unfolding check_cooldown
check_other cooldowns address asker now other =
    ground (arith, lookup-insert address asker now cooldowns)

check_own :
    (cooldowns : Cooldowns) (address now : ℕ)
    → let (result, cooldowns') = check_cooldown cooldowns address now in
      ((result ≡ ok tt)
        × (lookup address cooldowns' ≡ some now)
        × ((last : ℕ) → lookup address cooldowns ≡ some last → last + 60000 ≤ now))
      ⊎ (((wait : ℕ) × (result ≡ err wait)) × (cooldowns' ≡ cooldowns))
unfolding check_cooldown
check_own cooldowns address now = elim (Option-cases (lookup address cooldowns)) [
  | inl e ↦ inl (
    ground arith,
    ground (arith, lookup-insert address address now cooldowns),
    λ last e'. absurd (ground arith),
  )
  | inr (last, e) ↦ elim (Bool-cases (ltb (now - last) 60000)) [
    | inl early ↦ inr ((60 - (now - last) / 1000, ground arith), ground arith)
    | inr late ↦ inl (
      ground arith,
      ground (arith, lookup-insert address address now cooldowns),
      λ last' e'. ground arith,
    )
  ]
]

AreApart-cons :
    (last : Option ℕ) (now : ℕ) (rest : List ℕ)
    → ((t : ℕ) → last ≡ some t → t + 60000 ≤ now)
    → AreApart (some now) rest
    → AreApart last (now ∷ rest)
AreApart-cons none now rest late h = h
AreApart-cons (some t) now rest late h = (late t refl, h)

-- Whatever requests are made, in whatever order, the faucet serves an address a minute apart at
-- least: the times at which its requests pass are each 60000 milliseconds after the last one at
-- least, the one that the cooldowns hold included.
pub passes-AreApart :
    (requests : List (ℕ × ℕ)) (cooldowns : Cooldowns) (address : ℕ)
    → AreApart (lookup address cooldowns) (passes cooldowns address requests)
passes-AreApart [] cooldowns address = tt
passes-AreApart ((asker, now) ∷ requests) cooldowns address =
    let (result, cooldowns') = check_cooldown cooldowns asker now in
    let ih = passes-AreApart requests cooldowns' address in
    elim (Bool-cases (asker == address)) [
      | inr other ↦ rw (other, ← (check_other cooldowns address asker now other)) ih
      | inl same ↦
          let e : asker ≡ address = ground arith in
          elim (check_own cooldowns asker now) [
            | inl (passed, noted, late) ↦
                rw (same, passed)
                  (AreApart-cons (lookup address cooldowns) now (passes cooldowns' address requests)
                    (λ t e'. late t (rw e e'))
                    (subst (λ o. AreApart o (passes cooldowns' address requests)) (rw (← e) noted)
                      ih))
            | inr ((wait, refused), unchanged) ↦
                rw (same, refused)
                  (subst (λ cs. AreApart (lookup address cs) (passes cooldowns' address requests))
                    unchanged ih)
          ]
    ]

check_again :
    (cooldowns : Cooldowns) (address last now : ℕ)
    → lookup address cooldowns ≡ some last
    → now < last + 60000
    → check_cooldown cooldowns address now ≡ (err (60 - (now - last) / 1000), cooldowns)
unfolding check_cooldown
check_again cooldowns address last now e soon = ground arith

locked_out :
    (fuel : ℕ) (c : Crypto) (miner : Option ℕ) (key : SigningKey) (call : Call)
    (address now timestamp : ℕ) (reading mining : Node → Node) (n : Node) (cooldowns : Cooldowns)
    (wait : ℕ)
    → check_cooldown cooldowns address now ≡ (err wait, cooldowns)
    → faucet fuel c miner key call address now timestamp reading mining (n, cooldowns)
      ≡ some (err (rate_limited wait), (n, cooldowns))
unfolding faucet
locked_out fuel c miner key call address now timestamp reading mining n cooldowns wait e = ground (
  arith,
  ap (λ (r : Result ℕ (Unit {0}) × Cooldowns). r.0) e,
  ap (λ (r : Result ℕ (Unit {0}) × Cooldowns). r.1) e,
)

-- The cooldown begins before anything else is tried: after a request that the node did not process,
-- a request of the address within a minute is refused, whatever else it meets, and changes nothing.
pub failed_request_locks_out :
    (fuel fuel' : ℕ) (c : Crypto) (miner : Option ℕ) (key : SigningKey) (call call' : Call)
    (address now now' timestamp timestamp' : ℕ) (reading mining reading' mining' : Node → Node)
    (n n' : Node) (cooldowns cooldowns' : Cooldowns) (e : Refusal)
    → faucet fuel c miner key call address now timestamp reading mining (n, cooldowns)
      ≡ some (err (not_processed e), (n', cooldowns'))
    → now' < now + 60000
    → faucet fuel' c miner key call' address now' timestamp' reading' mining' (n', cooldowns')
      ≡ some (err (rate_limited (60 - (now' - now) / 1000)), (n', cooldowns'))
unfolding faucet
failed_request_locks_out fuel fuel' c miner key call call' address now now' timestamp timestamp'
      reading mining reading' mining' n n' cooldowns cooldowns' e h soon =
    elim (check_own cooldowns address now) [
      | inr ((wait, refused), unchanged) ↦ absurd (ground arith)
      | inl (passed, noted, _) ↦
          let kept : (check_cooldown cooldowns address now).1 ≡ cooldowns' = ground arith in
          let last : lookup address cooldowns' ≡ some now = rw (← kept) noted in
          let wait = check_again cooldowns' address now now' last soon in
          locked_out fuel' c miner key call' address now' timestamp' reading' mining' n' cooldowns'
            (60 - (now' - now) / 1000) wait
    ]
