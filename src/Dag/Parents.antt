-- ===== src/Dag/Parents.antt =====
-- In a graph that `add_transaction_validated` of src/parent_selection.rs has filled, two parents that
-- are not both the genesis have one common child at most.
use aether_sedc.Prelude.{ℕ, ◌≡◌, ◌≢◌, ◌⊎◌, inl, inr, List, [], ◌∷◌, some, arith, ok, Result-cases}
use aether_sedc.Dict.{lookup, lookup-insert, IsMap, insert-IsMap}
use aether_sedc.Transaction.{Transaction}
use aether_sedc.Dag.{
  Dag, same_parents, check_transaction, has_transaction_with_parents, add_transaction_validated,
}
use aether_sedc.Dag.Shape.{any-lookup, added, transactions_added}
use aether_sedc.Dag.Remove.{grow}

abbrev pub SameParents : Transaction → Transaction → Type 0
SameParents t u = (t.parents.0 ≡ u.parents.0) × (t.parents.1 ≡ u.parents.1)

-- The genesis is not both parents.
abbrev pub IsChild : Transaction → Type 0
IsChild t = (t.parents.0 ≢ 0) ⊎ (t.parents.1 ≢ 0)

abbrev pub ParentsDistinct : Dag → Type 0
ParentsDistinct d =
    (j k : ℕ) (t u : Transaction)
    → lookup j d.transactions ≡ some t
    → lookup k d.transactions ≡ some u
    → SameParents t u
    → IsChild t
    → j ≡ k

-- An accepted transaction has parents of its own.
unused_parents :
    (d : Dag) (tx u : Transaction) (k : ℕ)
    → check_transaction d tx ≡ ok tt
    → lookup k d.transactions ≡ some u
    → IsChild tx
    → ¬ SameParents u tx
unfolding check_transaction has_transaction_with_parents
unused_parents d tx u k h e child same =
    ground (arith, any-lookup (same_parents tx.parents) k u d.transactions)

added-ParentsDistinct :
    (d : Dag) (tx : Transaction)
    → check_transaction d tx ≡ ok tt
    → ParentsDistinct d
    → ParentsDistinct (added d tx)
added-ParentsDistinct d tx h distinct j k t u et eu same child = ground (
  arith,
  transactions_added d tx,
  lookup-insert j tx.id tx d.transactions,
  lookup-insert k tx.id tx d.transactions,
  unused_parents d tx u k h,
  unused_parents d tx t j h,
  distinct j k t u,
)

-- The parents are distinct, and every identifier has one entry.
abbrev pub IsSound : Dag → Type 0
IsSound d = ParentsDistinct d × IsMap d.transactions

add-IsSound : (d : Dag) (tx : Transaction) → IsSound d → IsSound (add_transaction_validated d tx).1
unfolding add_transaction_validated
add-IsSound d tx (distinct, keys) = elim (Result-cases (check_transaction d tx)) [
  | inr (_, e) ↦ rw (e, add_transaction_validated) (distinct, keys)
  | inl (_, e) ↦
      rw (e, add_transaction_validated)
        (
          added-ParentsDistinct d tx e distinct,
          rw (transactions_added d tx) (insert-IsMap tx.id tx d.transactions keys),
        )
]

pub grow-IsSound : (d : Dag) (txs : List Transaction) → IsSound d → IsSound (grow d txs)
unfolding grow
grow-IsSound d [] h = h
grow-IsSound d (tx ∷ txs) h =
    grow-IsSound (add_transaction_validated d tx).1 txs (add-IsSound d tx h)
