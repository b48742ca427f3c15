-- ===== src/Quorum/Members.antt =====
-- Who is registered, who is in a quorum, and what votes count (src/consensus.rs).
use mathlib.Core.Logic.Or
use mathlib.Core.List.Perm
use mathlib.Core.List.{Mem, Nodup, mem-cons, not-mem-nil, Nodup-cons, Nodup-nil}
use aether_sedc.Prelude.{
  ℕ, zero, suc, ◌≤◌, ◌≡◌, ◌≢◌, ◌↔◌, true, List, [], ◌∷◌, some, arith, add64, ok, length, member,
}
use aether_sedc.Dict.{Dict, lookup, contains_key, insert, IsMap, lookup-insert}
use aether_sedc.Transaction.{take}
use aether_sedc.Quorum.{
  Vqv, Validator, Vote, Lottery, register_validator, keys, select_quorum,
  calculate_adaptive_quorum_size, approving_weight, quorum_weight, decide_votes,
}

-- Every registered stake lies between the bounds.
abbrev pub StakesBounded : Vqv → Type 0
StakesBounded q =
    (id : ℕ) (v : Validator)
    → lookup id q.validators ≡ some v
    → (q.min_stake ≤ v.stake) × (v.stake ≤ q.max_stake)

-- A validator is registered exactly if its stake is within the bounds, and then all registered
-- stakes stay within them.
pub register-StakesBounded :
    (q : Vqv) (validator : Validator)
    → StakesBounded q
    → ((q.min_stake ≤ validator.stake) × (validator.stake ≤ q.max_stake)
        ↔ ((q' : Vqv) × (register_validator q validator ≡ ok q')))
      × ((q' : Vqv) → register_validator q validator ≡ ok q' → StakesBounded q')
unfolding register_validator
register-StakesBounded q validator h = (
  (
    (λ b. (record q { validators = insert validator.id validator q.validators }, ground arith)),
    (λ e. ground (arith, e.1)),
  ),
  (λ q' e id v found.
      ground (arith, e, lookup-insert id validator.id validator q.validators, h id v)),
)

-- Higher amounts never get a smaller quorum, for sizes in order.
pub quorum_size_monotone :
    (q : Vqv) (a b : ℕ)
    → q.min_quorum_size ≤ q.base_quorum_size
    → q.base_quorum_size ≤ q.max_quorum_size
    → a ≤ b
    → calculate_adaptive_quorum_size q a ≤ calculate_adaptive_quorum_size q b
unfolding calculate_adaptive_quorum_size
quorum_size_monotone q a b small large le = ground arith

length-take-le : (n : ℕ) (xs : List ℕ) → length (take n xs) ≤ n
length-take-le zero xs = omega arith
length-take-le (suc n) [] = omega arith
length-take-le (suc n) (x ∷ xs) = omega (arith, length-take-le n xs)

mem-take : (a n : ℕ) (xs : List ℕ) → Mem a (take n xs) → Mem a xs
mem-take a zero xs m = absurd (not-mem-nil m)
mem-take a (suc n) [] m = m
mem-take a (suc n) (x ∷ xs) m = mem-cons.1 (Or.imp (λ e. e) (mem-take a n xs) (mem-cons.0 m))

Nodup-take : (n : ℕ) (xs : List ℕ) → Nodup xs → Nodup (take n xs)
Nodup-take zero xs h = Nodup-nil
Nodup-take (suc n) [] h = h
Nodup-take (suc n) (x ∷ xs) h =
    let (out, rest) = Nodup-cons.0 h in
    Nodup-cons.1 ((λ m. out (mem-take x n xs m)), Nodup-take n xs rest)

mem-keys : (a : ℕ) (d : Dict Validator) → Mem a (keys d) → contains_key a d ≡ true
mem-keys a [] m = absurd (not-mem-nil m)
mem-keys a ((k, v) ∷ d) m =
    Or.elim (hlevel) (mem-cons.0 m) (λ e. ground arith) (λ rest. ground (arith, mem-keys a d rest))

Nodup-keys : (d : Dict Validator) → IsMap d → Nodup (keys d)
Nodup-keys [] h = Nodup-nil
Nodup-keys ((k, v) ∷ d) h =
    Nodup-cons.1 ((λ m. ground (arith, mem-keys k d m, h.0)), Nodup-keys d h.1)

-- From a register of distinct validators, a quorum is a list of distinct registered validators, no
-- longer than the size for the amount.
pub quorum_members :
    (r : Lottery) (q : Vqv) (epoch tx_id amount : ℕ)
    → IsMap q.validators
    → let quorum = select_quorum r q epoch tx_id amount in
      (length quorum ≤ calculate_adaptive_quorum_size q amount)
      × Nodup quorum
      × ((id : ℕ) → Mem id quorum → contains_key id q.validators ≡ true)
unfolding select_quorum
quorum_members r q epoch tx_id amount h =
    let size = calculate_adaptive_quorum_size q amount in
    let s = r.seed tx_id epoch in
    let ids = keys q.validators in
    let perm = r.shuffle_perm s ids in
    (
      length-take-le size (r.shuffle s ids),
      Nodup-take size (r.shuffle s ids) (Perm.nodup (Perm.symm perm) (Nodup-keys q.validators h)),
      (λ id m.
          mem-keys id q.validators ((Perm.mem_iff perm).0 (mem-take id size (r.shuffle s ids) m))),
    )

-- The weight of a vote is the one that it claims: where the quorum has weight, an approving vote
-- of any of its members, for whatever transaction, counts for the weight it states, and its copy
-- counts once more.
pub claimed_weight_counts :
    (r : Lottery) (q : Vqv) (first : ℕ) (rest : List ℕ) (v : Vote) (votes : List Vote)
    → member v.validator_id (first ∷ rest) ≡ true
    → v.approve ≡ true
    → quorum_weight r q (first ∷ rest) ≢ 0
    → decide_votes r q (first ∷ rest) (v ∷ v ∷ votes)
      ≡ ok (
          r.meets_threshold
            (add64 v.weight (add64 v.weight (approving_weight (first ∷ rest) votes)))
            (quorum_weight r q (first ∷ rest)))
unfolding decide_votes
claimed_weight_counts r q first rest v votes m a ne = ground arith
