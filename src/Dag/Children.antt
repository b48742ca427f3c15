-- ===== src/Dag/Children.antt =====
-- The children lists of src/parent_selection.rs name stored transactions.
use mathlib.Core.Path.{subst}
use aether_sedc.Prelude.{
  ℕ, ◌≡◌, ◌⊎◌, inl, inr, Bool, true, List, [], ◌∷◌, ◌++◌, arith, ◌==◌, if◌then◌else◌, Has,
  Bool-cases, Result-cases,
}
use aether_sedc.Dict.{contains_key, contains_key-insert}
use aether_sedc.Transaction.{Transaction}
use aether_sedc.Dag.{
  Dag, new, children_of, insert_transaction, check_transaction, add_transaction_validated,
}
use aether_sedc.Dag.Shape.{IsKnown, transactions_added, children_added}
use aether_sedc.Dag.Add.{check-IsAccepted}
use aether_sedc.Dag.Remove.{grow}

-- The children lists name stored transactions only.
abbrev pub HasChildren : Dag → Type 0
HasChildren d = (k c : ℕ) → Has c (children_of d k) → contains_key c d.transactions ≡ true

Has-appended :
    (xs : List ℕ) (b : Bool) (x c : ℕ)
    → Has c (xs ++ (if b then x ∷ [] else []))
    → Has c xs ⊎ (x ≡ c)
Has-appended [] b x c h = elim (Bool-cases b) [
  | inl e ↦ elim (subst (λ b'. Has c (if b' then x ∷ [] else [])) e h) [
    | inl same ↦ inr same
    | inr more ↦ absurd more
  ]
  | inr e ↦ absurd (subst (λ b'. Has c (if b' then x ∷ [] else [])) e h)
]
Has-appended (y ∷ xs) b x c (inl e) = inl (inl e)
Has-appended (y ∷ xs) b x c (inr h) = elim (Has-appended xs b x c h) [
  | inl there ↦ inl (inr there)
  | inr same ↦ inr same
]

added-HasChildren :
    (d : Dag) (tx : Transaction)
    → IsKnown d tx.parents.0
    → IsKnown d tx.parents.1
    → HasChildren d
    → HasChildren (insert_transaction d tx)
added-HasChildren d tx known0 known1 h k c m =
    let lists = subst (Has c) (children_added d tx k known0 known1) m in
    let first = children_of d k ++ (if tx.parents.0 == k then tx.id ∷ [] else []) in
    let held = contains_key-insert c tx.id tx d.transactions in
    rw (transactions_added d tx) (elim (Has-appended first (tx.parents.1 == k) tx.id c lists) [
      | inr same ↦ ground (arith, held)
      | inl earlier ↦ elim (Has-appended (children_of d k) (tx.parents.0 == k) tx.id c earlier) [
        | inr same ↦ ground (arith, held)
        | inl old ↦ ground (arith, held, h k c old)
      ]
    ])

add-HasChildren :
    (d : Dag) (tx : Transaction) → HasChildren d → HasChildren (add_transaction_validated d tx).1
unfolding add_transaction_validated
add-HasChildren d tx h = elim (Result-cases (check_transaction d tx)) [
  | inl (_, e) ↦
      let accepted = check-IsAccepted d tx e in
      rw (e, add_transaction_validated) (added-HasChildren d tx accepted.parent0 accepted.parent1 h)
  | inr (f, e) ↦ rw (e, add_transaction_validated) h
]

grow-HasChildren : (d : Dag) (txs : List Transaction) → HasChildren d → HasChildren (grow d txs)
unfolding grow
grow-HasChildren d [] h = h
grow-HasChildren d (tx ∷ txs) h =
    grow-HasChildren (add_transaction_validated d tx).1 txs (add-HasChildren d tx h)

-- They do in any graph that additions have filled from empty.
pub grown-HasChildren : (txs : List Transaction) → HasChildren (grow new txs)
unfolding new
grown-HasChildren txs = grow-HasChildren new txs (λ k c m. absurd m)
