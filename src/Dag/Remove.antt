-- ===== src/Dag/Remove.antt =====
-- `remove_transaction` and `rebuild_tips` of src/parent_selection.rs.
use aether_sedc.Prelude.{
  ℕ, ◌≡◌, refl, ◌≢◌, ◌↔◌, inl, inr, true, false, not, List, [], ◌∷◌, ◌++◌, none, some, arith, ◌==◌,
  if◌then◌else◌, retain, member, All, Option-cases,
}
use aether_sedc.Dict.{
  Dict, lookup, contains_key, insert, remove, lookup-insert, lookup-remove, contains_key-insert,
  lookup-contains_key, lookup-none-contains_key,
}
use aether_sedc.Transaction.{Transaction}
use aether_sedc.Dag.{
  Dag, new, children_of, push_child, link_child, insert_transaction, add_transaction_validated,
  unlink_child, remove_transaction, childless, rebuild_tips,
}
use aether_sedc.Dag.Shape.{IsWellFormed}
use aether_sedc.Dag.Add.{add-IsWellFormed, new-IsWellFormed}

member-retain :
    (c k : ℕ) (ids : List ℕ)
    → member c (retain (λ x. not (x == k)) ids) ≡ (if c == k then false else member c ids)
member-retain c k [] = ground arith
member-retain c k (x ∷ ids) = ground (arith, member-retain c k ids)

children_of-unlink :
    (d : Dag) (p k c j : ℕ)
    → c ≢ k
    → member c (children_of (unlink_child p k d) j) ≡ member c (children_of d j)
children_of-unlink d p k c j ne = elim (Option-cases (lookup p d.children)) [
  | inl e ↦ ground arith
  | inr (ids, e) ↦
      ground (
        arith,
        member-retain c k ids,
        lookup-insert j p (retain (λ x. not (x == k)) ids) d.children,
      )
]

module _ (d : Dag) (k : ℕ) (tx : Transaction) (found : lookup k d.transactions ≡ some tx) where
  abbrev removed : Dag
  removed = remove_transaction d k

  -- Removing a transaction takes out exactly it, and keeps every other child of every transaction.
  pub remove_exact :
      (j c : ℕ)
      → c ≢ k
      → (lookup j removed.transactions ≡ (if k == j then none else lookup j d.transactions))
        × (member c (children_of removed j) ≡ member c (children_of d j))
  unfolding remove_transaction
  remove_exact j c ne =
      let d1 = record d { transactions = remove k d.transactions } in
      let d2 = unlink_child tx.parents.0 k d1 in
      (
        ground (arith, found, lookup-remove j k d.transactions),
        ground (
          arith,
          found,
          children_of-unlink d1 tx.parents.0 k c j ne,
          children_of-unlink d2 tx.parents.1 k c j ne,
        ),
      )

  removed_parent_is_tip : tx.parents.0 ≢ 0 → contains_key tx.parents.0 removed.tips ≡ true
  unfolding remove_transaction
  removed_parent_is_tip nz =
      let tips = remove k d.tips in
      let p = tx.parents.0 in
      ground (
        arith,
        found,
        contains_key-insert p p tt tips,
        contains_key-insert p tx.parents.1 tt (insert p tt tips),
      )

  -- Removing a transaction whose first parent, not the genesis, has another child leaves a tip
  -- with a child, so the graph is not well formed any more.
  pub remove_breaks_tips :
      (c : ℕ)
      → tx.parents.0 ≢ 0
      → c ≢ k
      → member c (children_of d tx.parents.0) ≡ true
      → ¬ IsWellFormed removed
  remove_breaks_tips c nz ne child wf =
      let no_child = ((wf.tips_exact tx.parents.0).0 (removed_parent_is_tip nz)).1 in
      ground (arith, (remove_exact tx.parents.0 c ne).1, no_child)

-- The children lists of a graph that has only grown are not empty.
abbrev pub NoEmptyEntry : Dag → Type 0
NoEmptyEntry d = (k : ℕ) → lookup k d.children ≢ some []

contains_key-childless :
    (children : Dict (List ℕ)) (k : ℕ) (m : Dict Transaction)
    → contains_key k (childless children m)
      ≡ (if contains_key k m then not (contains_key k children) else false)
contains_key-childless children k [] = refl
contains_key-childless children k ((j, tx) ∷ m) =
    ground (
      arith,
      contains_key-childless children k m,
      contains_key-insert k j tt (childless children m),
    )

entry_cases :
    (k : ℕ) (d : Dag)
    → NoEmptyEntry d
    → (contains_key k d.children ≡ false) ↔ (children_of d k ≡ [])
entry_cases k d full = elim (Option-cases (lookup k d.children)) [
  | inl e ↦ ground (arith, lookup-none-contains_key k d.children e)
  | inr (ids, e) ↦ ground (arith, full k, lookup-contains_key k ids d.children e)
]

rebuild_tips_exact :
    (d : Dag)
    → IsWellFormed d
    → NoEmptyEntry d
    → (k : ℕ) → contains_key k (rebuild_tips d).tips ≡ contains_key k d.tips
unfolding rebuild_tips
rebuild_tips_exact d wf full k = ground (
  arith,
  contains_key-childless d.children k d.transactions,
  entry_cases k d full,
  wf.tips_exact k,
)

append_not_empty : (xs : List ℕ) (x : ℕ) → (xs ++ x ∷ []) ≢ []
append_not_empty [] x e = ground arith
append_not_empty (y ∷ xs) x e = ground arith

push-NoEmptyEntry : (p id : ℕ) (d : Dag) → NoEmptyEntry d → NoEmptyEntry (push_child p id d)
push-NoEmptyEntry p id d full k e = ground (
  arith,
  lookup-insert k p (children_of d p ++ id ∷ []) d.children,
  full k,
  append_not_empty (children_of d p) id,
)

link-NoEmptyEntry : (p id : ℕ) (d : Dag) → NoEmptyEntry d → NoEmptyEntry (link_child p id d)
link-NoEmptyEntry p id d full k e = ground (arith, push-NoEmptyEntry p id d full k, full k)

add-NoEmptyEntry :
    (d : Dag) (tx : Transaction) → NoEmptyEntry d → NoEmptyEntry (add_transaction_validated d tx).1
unfolding add_transaction_validated insert_transaction
add-NoEmptyEntry d tx full k e =
    let d1 = record d { transactions = insert tx.id tx d.transactions } in
    let d2 = link_child tx.parents.0 tx.id d1 in
    ground (
      arith,
      full k,
      link-NoEmptyEntry tx.parents.1 tx.id d2 (link-NoEmptyEntry tx.parents.0 tx.id d1 full) k,
    )

-- A graph built from the empty one by additions, accepted or refused.
unfoldable pub grow : Dag → List Transaction → Dag
grow d [] = d
grow d (tx ∷ txs) = grow (add_transaction_validated d tx).1 txs

grow_keeps :
    (d : Dag) (txs : List Transaction)
    → All (λ tx. tx.id ≢ 0) txs
    → IsWellFormed d
    → NoEmptyEntry d
    → IsWellFormed (grow d txs) × NoEmptyEntry (grow d txs)
unfolding grow
grow_keeps d [] nz wf full = (wf, full)
grow_keeps d (tx ∷ txs) nz wf full =
    grow_keeps (add_transaction_validated d tx).1 txs nz.1 (add-IsWellFormed d tx wf nz.0)
      (add-NoEmptyEntry d tx full)

-- Any sequence of additions to the empty graph, of transactions other than the genesis, leaves a
-- well-formed graph, on which rebuilding the tips changes nothing.
pub grown-IsWellFormed :
    (txs : List Transaction)
    → All (λ tx. tx.id ≢ 0) txs
    → IsWellFormed (grow new txs)
      × ((k : ℕ)
          → contains_key k (rebuild_tips (grow new txs)).tips ≡ contains_key k (grow new txs).tips)
unfolding new
grown-IsWellFormed txs nz =
    let kept = grow_keeps new txs nz new-IsWellFormed (λ k e. ground arith) in
    (kept.0, rebuild_tips_exact (grow new txs) kept.0 kept.1)
