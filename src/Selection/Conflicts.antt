-- ===== src/Selection/Conflicts.antt =====
-- Which tips src/parent_selection.rs takes to be in conflict.
use mathlib.Core.Path.{subst}
use aether_sedc.Prelude.{
  ℕ, ◌≡◌, refl, sym, ◌⊎◌, inl, inr, Bool, true, [], ◌∷◌, arith, some, ◌==◌, ◌||◌, any, Bool-cases,
}
use aether_sedc.Dict.{lookup, contains_key}
use aether_sedc.Consensus.{IdSet}
use aether_sedc.Transaction.{Transaction}
use aether_sedc.Dag.{Dag, get_transaction}
use aether_sedc.Dag.Ancestors.{get_ancestors, parents_are_ancestors}
use aether_sedc.Selection.{check_double_spend_conflict, spends_with, spent_by}

any-Has :
    (test : ℕ × Unit {0} → Bool) (id : ℕ) (s : IdSet)
    → contains_key id s ≡ true
    → test (id, tt) ≡ true
    → any test s ≡ true
any-Has test id [] h t = absurd (ground arith)
any-Has test id ((j, u) ∷ s) h t = elim (Bool-cases (j == id)) [
  | inl here ↦
      let same : j ≡ id = ground arith in
      subst (λ i. (test (i, tt) || any test s) ≡ true) (sym same) (rw t refl)
  | inr there ↦ ground (arith, any-Has test id s)
]

module _ (d : Dag) where
  spent_by_lem :
      (id : ℕ) (u : Transaction)
      → lookup id d.transactions ≡ some u
      → spent_by d u.sender (id, tt) ≡ true
  unfolding get_transaction
  spent_by_lem id u e = ground arith

  spends_with_lem :
      (ancestors : IdSet) (id : ℕ) (u : Transaction)
      → lookup id d.transactions ≡ some u
      → any (spent_by d u.sender) ancestors ≡ true
      → spends_with d ancestors (id, tt) ≡ true
  unfolding get_transaction
  spends_with_lem ancestors id u e h = ground arith

  conflict_lem :
      (tip1 tip2 : ℕ) (t1 t2 : Transaction)
      → lookup tip1 d.transactions ≡ some t1
      → lookup tip2 d.transactions ≡ some t2
      → any (spends_with d (get_ancestors d tip2 10)) (get_ancestors d tip1 10) ≡ true
      → check_double_spend_conflict tip1 tip2 d ≡ true
  unfolding check_double_spend_conflict get_transaction
  conflict_lem tip1 tip2 t1 t2 e1 e2 h = ground arith

  -- Two stored transactions that a stored transaction is an ancestor of, ten steps up at most, are
  -- in conflict: it counts as a spend in conflict with itself.
  pub shared_ancestor_conflicts :
      (tip1 tip2 id : ℕ) (t1 t2 u : Transaction)
      → lookup tip1 d.transactions ≡ some t1
      → lookup tip2 d.transactions ≡ some t2
      → lookup id d.transactions ≡ some u
      → contains_key id (get_ancestors d tip1 10) ≡ true
      → contains_key id (get_ancestors d tip2 10) ≡ true
      → check_double_spend_conflict tip1 tip2 d ≡ true
  shared_ancestor_conflicts tip1 tip2 id t1 t2 u e1 e2 e m1 m2 =
      let ancestors2 = get_ancestors d tip2 10 in
      let met = any-Has (spent_by d u.sender) id ancestors2 m2 (spent_by_lem id u e) in
      let spends = spends_with_lem ancestors2 id u e met in
      conflict_lem tip1 tip2 t1 t2 e1 e2
        (any-Has (spends_with d ancestors2) id (get_ancestors d tip1 10) m1 spends)

  named_ancestor :
      (tip : ℕ) (t : Transaction) (id : ℕ)
      → lookup tip d.transactions ≡ some t
      → (t.parents.0 ≡ id) ⊎ (t.parents.1 ≡ id)
      → contains_key id (get_ancestors d tip 10) ≡ true
  named_ancestor tip t id e (inl p) =
      subst (λ k. contains_key k (get_ancestors d tip 10) ≡ true) p
        (parents_are_ancestors d tip 9 t e).0
  named_ancestor tip t id e (inr p) =
      subst (λ k. contains_key k (get_ancestors d tip 10) ≡ true) p
        (parents_are_ancestors d tip 9 t e).1

  -- Two stored transactions that name a stored transaction as a parent each are in conflict.
  pub siblings_conflict :
      (tip1 tip2 : ℕ) (t1 t2 u : Transaction) (id : ℕ)
      → lookup tip1 d.transactions ≡ some t1
      → lookup tip2 d.transactions ≡ some t2
      → lookup id d.transactions ≡ some u
      → (t1.parents.0 ≡ id) ⊎ (t1.parents.1 ≡ id)
      → (t2.parents.0 ≡ id) ⊎ (t2.parents.1 ≡ id)
      → check_double_spend_conflict tip1 tip2 d ≡ true
  siblings_conflict tip1 tip2 t1 t2 u id e1 e2 e p1 p2 =
      shared_ancestor_conflicts tip1 tip2 id t1 t2 u e1 e2 e (named_ancestor tip1 t1 id e1 p1)
        (named_ancestor tip2 t2 id e2 p2)
