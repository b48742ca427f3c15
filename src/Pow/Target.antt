-- ===== src/Pow/Target.antt =====
-- The target of `MicroPoW` (src/pow.rs): which hashes a difficulty accepts, and what mining finds.
use native.Mathlib.Decide.{ℕ_discrete}
use aether_sedc.Prelude.{
  ℕ, zero, suc, ◌+◌, ◌*◌, ◌/◌, ◌%◌, ◌^◌, ◌≤◌, ◌<◌, ◌≡◌, refl, ◌↔◌, ◌⊎◌, inl, inr, true, false, none,
  some, arith, Bool-cases, Option,
}
use aether_sedc.Transaction.{Transaction, Crypto, le_bytes, from_be_bytes}
use aether_sedc.Pow.{
  MicroPow, Difficulty, to_target, compute_pow_hash, verify, verify_with_staking_bonus, mine_from,
  mine_nonce,
}

-- The target of a difficulty of two bytes: the low byte counts for more than the high one.
pub to_target_lem : (d : ℕ) → d < 65536 → to_target d ≡ d % 256 * 2 ^ 248 + d / 256 * 2 ^ 240
unfolding to_target le_bytes from_be_bytes
to_target_lem d small = omega arith

-- Below 256 a hash is accepted exactly under the difficulty times 2 ^ 248: a higher difficulty
-- accepts more hashes, and whatever the halved difficulty of a staker accepts, the full one
-- accepts as well.
pub harder_accepts_more :
    (c : Crypto) (p : MicroPow) (tx : Transaction) (harder : Difficulty)
    → p.difficulty ≤ harder
    → harder < 256
    → ((verify c p tx ≡ true) ↔ (compute_pow_hash c tx < p.difficulty * 2 ^ 248))
      × (verify c p tx ≡ true → verify c (record p { difficulty = harder }) tx ≡ true)
      × (verify_with_staking_bonus c p tx true ≡ true → verify c p tx ≡ true)
unfolding verify verify_with_staking_bonus
harder_accepts_more c p tx harder le small =
    let here = to_target_lem p.difficulty (omega arith) in
    let there = to_target_lem harder (omega arith) in
    let half = to_target_lem (p.difficulty / 2) (omega arith) in
    (ground (arith, here), ground (arith, here, there), ground (arith, here, half))

-- What the rounds from a nonce on have found: nothing, or the first nonce that verifies.
abbrev pub Finds : Crypto → MicroPow → Transaction → ℕ → ℕ → Option ℕ → Type 0
Finds c p tx rounds start found =
    ((found ≡ none)
      × ((k : ℕ) → start ≤ k → k < start + rounds → verify c p (record tx { nonce = k }) ≡ false))
    ⊎ ((n : ℕ) × (found ≡ some n)
        × (start ≤ n)
        × (n < start + rounds)
        × (verify c p (record tx { nonce = n }) ≡ true)
        × ((k : ℕ) → start ≤ k → k < n → verify c p (record tx { nonce = k }) ≡ false))

first_fails :
    (c : Crypto) (p : MicroPow) (tx : Transaction) (start : ℕ) (Q : ℕ → Type 0)
    → verify c p (record tx { nonce = start }) ≡ false
    → ((k : ℕ) → start + 1 ≤ k → Q k → verify c p (record tx { nonce = k }) ≡ false)
    → (k : ℕ) → start ≤ k
    → Q k
    → verify c p (record tx { nonce = k }) ≡ false
first_fails c p tx start Q here later k le q = elim (ℕ_discrete start k) [
  | yes e ↦ rw (← e) here
  | no ne ↦ later k (omega arith) q
]

mine_from-Finds :
    (c : Crypto) (p : MicroPow) (tx : Transaction) (rounds start : ℕ)
    → Finds c p tx rounds start (mine_from c p tx rounds start)
unfolding mine_from
mine_from-Finds c p tx zero start = inl (refl, λ k le lt. absurd (omega arith))
mine_from-Finds c p tx (suc rounds) start =
    elim (Bool-cases (verify c p (record tx { nonce = start }))) [
      | inl hit ↦
          inr (start, ground arith, omega arith, omega arith, hit, λ k le lt. absurd (omega arith))
      | inr miss ↦ elim (mine_from-Finds c p tx rounds (start + 1)) [
        | inl (e, fails) ↦ inl (
          ground arith,
          first_fails c p tx start (λ k. k < start + suc rounds) miss
              (λ k le lt. fails k le (omega arith)),
        )
        | inr (n, e, le, lt, hit, fails) ↦ inr (
          n,
          ground arith,
          omega arith,
          omega arith,
          hit,
          first_fails c p tx start (λ k. k < n) miss fails,
        )
      ]
    ]

-- Mining returns the first nonce below the bound that verifies, and `none` exactly when none does.
pub mine_nonce-Finds :
    (c : Crypto) (p : MicroPow) (tx : Transaction) → Finds c p tx p.max_nonce 0 (mine_nonce c p tx)
unfolding mine_nonce
mine_nonce-Finds c p tx = mine_from-Finds c p tx p.max_nonce 0
