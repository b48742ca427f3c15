-- ===== src/Dag/Ancestors.antt =====
-- `DAG::get_ancestors` of src/parent_selection.rs.
use aether_sedc.Prelude.{
  ℕ, zero, suc, ◌≡◌, inl, inr, true, false, [], none, some, arith, Option-cases,
}
use aether_sedc.Dict.{contains_key, insert, lookup, contains_key-insert}
use aether_sedc.Consensus.{IdSet}
use aether_sedc.Transaction.{Transaction}
use aether_sedc.Dag.{Dag}

-- What the stack of the loop visits from one entry, with so much depth left: of the parents that
-- are new, the second is pushed last and explored first.
unfoldable pub visit_ancestors : ℕ → Dag → ℕ → IdSet → IdSet
visit_ancestors zero d tx_id ancestors = ancestors
visit_ancestors (suc left) d tx_id ancestors = elim (lookup tx_id d.transactions) [
  | none ↦ ancestors
  | some tx ↦
      let with_first = insert tx.parents.0 tt ancestors in
      let with_both = insert tx.parents.1 tt with_first in
      let from_second : IdSet = elim (contains_key tx.parents.1 with_first) [
        | true ↦ with_both
        | false ↦ visit_ancestors left d tx.parents.1 with_both
      ] in
      elim (contains_key tx.parents.0 ancestors) [
        | true ↦ from_second
        | false ↦ visit_ancestors left d tx.parents.0 from_second
      ]
]

unfoldable pub get_ancestors : Dag → ℕ → ℕ → IdSet
unfolding visit_ancestors
get_ancestors d id max_depth = visit_ancestors max_depth d id []

visit_ancestors_keeps :
    (depth : ℕ) (d : Dag) (id k : ℕ) (ancestors : IdSet)
    → contains_key k ancestors ≡ true
    → contains_key k (visit_ancestors depth d id ancestors) ≡ true
unfolding visit_ancestors
visit_ancestors_keeps zero d id k ancestors h = h
visit_ancestors_keeps (suc left) d id k ancestors h =
    elim (Option-cases (lookup id d.transactions)) [
      | inl e ↦ ground arith
      | inr (tx, e) ↦
          let first = insert tx.parents.0 tt ancestors in
          let both = insert tx.parents.1 tt first in
          let there : contains_key k both ≡ true = ground (
            arith,
            contains_key-insert k tx.parents.0 tt ancestors,
            contains_key-insert k tx.parents.1 tt first,
          ) in
          let second = visit_ancestors left d tx.parents.1 both in
          let there' = visit_ancestors_keeps left d tx.parents.1 k both there in
          ground (
            arith,
            visit_ancestors_keeps left d tx.parents.0 k both there,
            visit_ancestors_keeps left d tx.parents.0 k second there',
          )
    ]

both_there :
    (p q : ℕ)
    → (contains_key p (insert q (tt {0}) (insert p (tt {0}) [])) ≡ true)
      × (contains_key q (insert q (tt {0}) (insert p (tt {0}) [])) ≡ true)
both_there p q = (ground arith, ground arith)

-- Both parents of a stored transaction are among its ancestors.
pub parents_are_ancestors :
    (d : Dag) (id max_depth : ℕ) (tx : Transaction)
    → lookup id d.transactions ≡ some tx
    → (contains_key tx.parents.0 (get_ancestors d id (suc max_depth)) ≡ true)
      × (contains_key tx.parents.1 (get_ancestors d id (suc max_depth)) ≡ true)
unfolding get_ancestors visit_ancestors
parents_are_ancestors d id max_depth tx e =
    let first = insert tx.parents.0 tt [] in
    let both = insert tx.parents.1 tt first in
    let (one, two) = both_there tx.parents.0 tx.parents.1 in
    let second = visit_ancestors max_depth d tx.parents.1 both in
    (
      ground (
        arith,
        visit_ancestors_keeps max_depth d tx.parents.1 tx.parents.0 both one,
        visit_ancestors_keeps max_depth d tx.parents.0 tx.parents.0 both one,
        visit_ancestors_keeps max_depth d tx.parents.0 tx.parents.0 second,
      ),
      ground (
        arith,
        visit_ancestors_keeps max_depth d tx.parents.1 tx.parents.1 both two,
        visit_ancestors_keeps max_depth d tx.parents.0 tx.parents.1 both two,
        visit_ancestors_keeps max_depth d tx.parents.0 tx.parents.1 second,
      ),
    )
