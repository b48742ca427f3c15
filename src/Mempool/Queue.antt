-- ===== src/Mempool/Queue.antt =====
-- What the queue of the mempool (`add_internal` of src/rpc.rs) holds after an addition.
use aether_sedc.Prelude.{
  ℕ, ◌≡◌, ◌⊎◌, inl, inr, true, List, [], ◌∷◌, ◌++◌, arith, ◌==◌, ok, member, map, All, Result-cases,
  Bool-cases, ltb,
}
use aether_sedc.Transaction.{Transaction}
use aether_sedc.Mempool.{
  Mempool, min_fee_in_pool, remove_first, make_room, add_plan, add_internal, get_transaction_ids,
}

-- What an addition makes of the queue: nothing, or it goes behind the queue or what is left of it.
queue_cases :
    (m : Mempool) (tx : Transaction)
    → ((add_internal m tx).0 ≡ ok tt → ⊥) × ((add_internal m tx).1 ≡ m)
      ⊎ ((kept : List Transaction) × ((kept ≡ m.queue)
            ⊎ (kept ≡ remove_first (min_fee_in_pool m.queue) m.queue))
          × ((add_internal m tx).1 ≡ record m { queue = kept ++ (tx ∷ []) }))
unfolding add_internal add_plan make_room
queue_cases m tx = elim (Result-cases (make_room m tx)) [
  | inr (e, p) ↦ inl (λ h. ground arith, ground arith)
  | inl (kept, p) ↦ elim (Bool-cases (ltb tx.fee m.min_fee)) [
    | inl low ↦ inl (λ h. ground arith, ground arith)
    | inr enough ↦ inr (kept, ground arith, ground arith)
  ]
]

member-last :
    (tx : Transaction) (ts : List Transaction)
    → member tx.id (map (λ t. t.id) (ts ++ (tx ∷ []))) ≡ true
member-last tx [] = ground arith
member-last tx (t ∷ ts) = ground (arith, member-last tx ts)

-- A transaction that was taken is in the queue.
pub member-add_internal :
    (m : Mempool) (tx : Transaction)
    → (add_internal m tx).0 ≡ ok tt
    → member tx.id (get_transaction_ids (add_internal m tx).1) ≡ true
unfolding get_transaction_ids
member-add_internal m tx h = elim (queue_cases m tx) [
  | inl (refusal, _) ↦ absurd (refusal h)
  | inr (kept, _, e) ↦ rw e (member-last tx kept)
]

module _ (P : Transaction → Type 0) where
  All-remove_first : (fee : ℕ) (ts : List Transaction) → All P ts → All P (remove_first fee ts)
  All-remove_first fee [] h = tt
  All-remove_first fee (t ∷ ts) h = elim (Bool-cases (t.fee == fee)) [
    | inl e ↦ rw e h.1
    | inr e ↦ rw e (h.0, All-remove_first fee ts h.1)
  ]

  All-last : (ts : List Transaction) (tx : Transaction) → All P ts → P tx → All P (ts ++ (tx ∷ []))
  All-last [] tx h p = (p, tt)
  All-last (t ∷ ts) tx h p = (h.0, All-last ts tx h.1 p)

  -- What holds of the queue and of the new transaction holds of the new queue.
  pub add_internal-All :
      (m : Mempool) (tx : Transaction) → All P m.queue → P tx → All P (add_internal m tx).1.queue
  add_internal-All m tx h p = elim (queue_cases m tx) [
    | inl (_, e) ↦ rw e h
    | inr (kept, inl q, e) ↦ rw (e, q) (All-last m.queue tx h p)
    | inr (kept, inr q, e) ↦
        rw (e, q)
          (All-last (remove_first (min_fee_in_pool m.queue) m.queue) tx
            (All-remove_first (min_fee_in_pool m.queue) m.queue h) p)
  ]
