-- ===== src/Mempool/Evict.antt =====
-- `add_internal` of src/rpc.rs: the fee floor, the bound on the size, and what is evicted.
use mathlib.Core.Path.{subst}
use native.Mathlib.Decide.{ℕ_discrete, dec_lt}
use aether_sedc.Prelude.{
  ℕ, ◌≤◌, ◌<◌, ◌≡◌, refl, sym, ap, ◌∙◌, ◌≢◌, ◌↔◌, ◌⊎◌, inl, inr, List, [], ◌∷◌, ◌++◌, min, arith,
  Option-cases, ok, length, length-append, All,
}
use aether_sedc.Transaction.{Transaction}
use aether_sedc.Mempool.{Mempool, least_fee, min_fee_in_pool, remove_first, add_plan, add_internal}

-- `f` is the least fee of the queue, and one entry has it.
abbrev pub IsLeast : ℕ → List Transaction → Type 0
IsLeast f ts = All (λ t. f ≤ t.fee) ts

IsLeast-mono : (f g : ℕ) (ts : List Transaction) → g ≤ f → IsLeast f ts → IsLeast g ts
IsLeast-mono f g [] le h = tt
IsLeast-mono f g (t ∷ ts) le h = (omega (arith, h.0), IsLeast-mono f g ts le h.1)

-- Of a queue that is not empty.
min_fee_in_pool_cons :
    (t u : Transaction) (us : List Transaction)
    → min_fee_in_pool (t ∷ u ∷ us) ≡ min t.fee (min_fee_in_pool (u ∷ us))
min_fee_in_pool_cons t u us = ground (arith, Option-cases (least_fee us))

pub min_fee-IsLeast :
    (t : Transaction) (ts : List Transaction) → IsLeast (min_fee_in_pool (t ∷ ts)) (t ∷ ts)
min_fee-IsLeast t [] = (omega arith, tt)
min_fee-IsLeast t (u ∷ us) =
    let lower : min_fee_in_pool (t ∷ u ∷ us) ≤ min_fee_in_pool (u ∷ us) =
      omega (arith, min_fee_in_pool_cons t u us) in
    (
      omega (arith, min_fee_in_pool_cons t u us),
      IsLeast-mono (min_fee_in_pool (u ∷ us)) (min_fee_in_pool (t ∷ u ∷ us)) (u ∷ us) lower
          (min_fee-IsLeast u us),
    )

-- The queue around the first entry of a fee.
abbrev pub Split : ℕ → List Transaction → Type 0
Split f ts =
    (before : List Transaction) × (victim : Transaction) × (behind : List Transaction) × (ts
      ≡ before ++ (victim ∷ behind))
    × (remove_first f ts ≡ before ++ behind)
    × (victim.fee ≡ f)
    × All (λ t. t.fee ≢ f) before

Split-cons :
    (f : ℕ) (t : Transaction) (ts : List Transaction) → t.fee ≢ f → Split f ts → Split f (t ∷ ts)
Split-cons f t ts ne (before, victim, behind, whole, rest, fee, first) =
    (t ∷ before, victim, behind, ground arith, ground arith, fee, (ne, first))

Split-least : (t : Transaction) (ts : List Transaction) → Split (min_fee_in_pool (t ∷ ts)) (t ∷ ts)
Split-least t [] = ([], t, [], refl, ground arith, refl, tt)
Split-least t (u ∷ us) = elim (ℕ_discrete t.fee (min_fee_in_pool (t ∷ u ∷ us))) [
  | yes e ↦ ([], t, u ∷ us, refl, ground arith, e, tt)
  | no ne ↦
      let same : min_fee_in_pool (t ∷ u ∷ us) ≡ min_fee_in_pool (u ∷ us) =
        ground (arith, min_fee_in_pool_cons t u us) in
      Split-cons (min_fee_in_pool (t ∷ u ∷ us)) t (u ∷ us) ne
        (subst (λ f. Split f (u ∷ us)) (sym same) (Split-least u us))
]

-- A transaction below the fee floor is refused, and in a full queue one that pays no more than the
-- least fee; any other is taken, and where the queue is not full it is put last. A refusal changes
-- nothing.
pub add_internal_iff :
    (m : Mempool) (tx : Transaction)
    → (((add_internal m tx).0 ≡ ok tt) ↔ (
        (m.min_fee ≤ tx.fee)
        × ((length m.queue < m.max_size) ⊎ (min_fee_in_pool m.queue < tx.fee))))
      × ((add_internal m tx).0 ≢ ok tt → (add_internal m tx).1 ≡ m)
      × (length m.queue < m.max_size
          → (add_internal m tx).0 ≡ ok tt
          → (add_internal m tx).1 ≡ record m { queue = m.queue ++ (tx ∷ []) })
unfolding add_internal add_plan
add_internal_iff m tx = (ground arith, ground arith, ground arith)

-- The parts of an eviction, on the queue written out: no entry before the victim has its fee.
abbrev pub Evicts : Mempool → Transaction → List Transaction → Type 0
Evicts m tx after_queue =
    (before : List Transaction) × (victim : Transaction) × (behind : List Transaction) × (m.queue
      ≡ before ++ (victim ∷ behind))
    × (after_queue ≡ (before ++ behind) ++ (tx ∷ []))
    × (victim.fee < tx.fee)
    × IsLeast victim.fee m.queue
    × All (λ t. t.fee ≢ victim.fee) before

add_internal_full :
    (m : Mempool) (tx : Transaction)
    → m.max_size ≤ length m.queue
    → (add_internal m tx).0 ≡ ok tt
    → ((add_internal m tx).1.queue ≡ remove_first (min_fee_in_pool m.queue) m.queue ++ (tx ∷ []))
      × (min_fee_in_pool m.queue < tx.fee)
unfolding add_internal add_plan
add_internal_full m tx full e = ground arith

Evicts-from :
    (m : Mempool) (tx : Transaction) (ts : List Transaction)
    → m.queue ≡ ts
    → 0 < length ts
    → m.max_size ≤ length m.queue
    → (add_internal m tx).0 ≡ ok tt
    → Evicts m tx (add_internal m tx).1.queue
Evicts-from m tx [] q pos full e = absurd (omega arith)
Evicts-from m tx (t ∷ ts) q pos full e =
    let (before, victim, behind, whole, rest, fee, first) = Split-least t ts in
    let (queue, lower) = add_internal_full m tx full e in
    (
      before,
      victim,
      behind,
      q ∙ whole,
      queue ∙ ap (λ (xs : List Transaction). xs ++ (tx ∷ [])) (rw q rest),
      rw fee (rw q at lower),
      rw (fee, q) (min_fee-IsLeast t ts),
      rw fee first,
    )

-- In a full queue that is not empty, a transaction that is taken replaces the first one of the
-- least fee, which paid less than the new one and no more than any other; the rest keeps its
-- order.
pub add_internal-Evicts :
    (m : Mempool) (tx : Transaction)
    → 0 < length m.queue
    → m.max_size ≤ length m.queue
    → (add_internal m tx).0 ≡ ok tt
    → Evicts m tx (add_internal m tx).1.queue
add_internal-Evicts m tx h full e = Evicts-from m tx m.queue refl h full e

length-Evicts :
    (m : Mempool) (tx : Transaction) (queue : List Transaction)
    → Evicts m tx queue
    → length queue ≡ length m.queue
length-Evicts m tx queue (before, victim, behind, whole, result, _, _, _) = omega (
  arith,
  ap length whole,
  ap length result,
  length-append before (victim ∷ behind),
  length-append (before ++ behind) (tx ∷ []),
  length-append before behind,
)

add_internal_room :
    (m : Mempool) (tx : Transaction)
    → length m.queue < m.max_size
    → ((add_internal m tx).1.queue ≡ m.queue ++ (tx ∷ [])) ⊎ ((add_internal m tx).1 ≡ m)
unfolding add_internal add_plan
add_internal_room m tx room = ground arith

add_internal_result :
    (m : Mempool) (tx : Transaction) → ((add_internal m tx).0 ≡ ok tt) ⊎ ((add_internal m tx).1 ≡ m)
unfolding add_internal add_plan
add_internal_result m tx = ground arith

-- A queue within its bound, of one at least, stays within it.
pub add_internal-bounded :
    (m : Mempool) (tx : Transaction)
    → 0 < m.max_size
    → length m.queue ≤ m.max_size
    → length (add_internal m tx).1.queue ≤ m.max_size
add_internal-bounded m tx pos h = elim (dec_lt (length m.queue) m.max_size) [
  | yes room ↦ ground (arith, add_internal_room m tx room, length-append m.queue (tx ∷ []))
  | no full ↦ elim (add_internal_result m tx) [
    | inl e ↦ omega (
      arith,
      length-Evicts m tx (add_internal m tx).1.queue
          (add_internal-Evicts m tx (omega arith) (omega arith) e),
    )
    | inr e ↦ rw e h
  ]
]
