-- ===== src/Dag/Acyclic.antt =====
-- A graph that only `add_transaction_validated` of src/parent_selection.rs has filled has no cycle.
use aether_sedc.Prelude.{
  ℕ, ◌+◌, ◌*◌, ◌≤◌, ◌<◌, ◌≡◌, ◌≢◌, ◌⊎◌, inl, inr, false, List, [], ◌∷◌, some, max, arith, ◌==◌,
  if◌then◌else◌, length, All, Result-cases,
}
use aether_sedc.Dict.{lookup, contains_key, lookup-insert}
use aether_sedc.Transaction.{Transaction}
use aether_sedc.Dag.{Dag, new, check_transaction, add_transaction_validated}
use aether_sedc.Dag.Shape.{IsKnown, IsWellFormed, added, transactions_added}
use aether_sedc.Dag.Add.{IsAccepted, check-IsAccepted, add-IsWellFormed, new-IsWellFormed}
use aether_sedc.Dag.Remove.{grow}
use aether_sedc.Dag.Walk.{
  Descends, here, parent0, parent1, is_reachable_from, is_reachable_from-Descends,
}

-- Each stored transaction has a higher rank than its parents.
abbrev pub IsRanked : Dag → (ℕ → ℕ) → Type 0
IsRanked d rank =
    (k : ℕ) (tx : Transaction)
    → lookup k d.transactions ≡ some tx
    → (rank tx.parents.0 < rank k) × (rank tx.parents.1 < rank k)

abbrev extend : (ℕ → ℕ) → Transaction → ℕ → ℕ
extend rank tx k = if tx.id == k then 1 + max (rank tx.parents.0) (rank tx.parents.1) else rank k

extend_old : (rank : ℕ → ℕ) (tx : Transaction) (k : ℕ) → tx.id ≢ k → extend rank tx k ≡ rank k
extend_old rank tx k ne = ground arith

-- A known identifier is not the one of a fresh transaction.
known_differs :
    (d : Dag) (tx : Transaction) (p : ℕ)
    → contains_key tx.id d.transactions ≡ false
    → tx.id ≢ 0
    → IsKnown d p
    → tx.id ≢ p
known_differs d tx p fresh nonzero known e = ground arith

added-lookup :
    (d : Dag) (tx u : Transaction) (k : ℕ)
    → lookup k (added d tx).transactions ≡ some u
    → ((tx.id ≡ k) × (u ≡ tx)) ⊎ ((tx.id ≢ k) × (lookup k d.transactions ≡ some u))
added-lookup d tx u k e =
    ground (arith, transactions_added d tx, lookup-insert k tx.id tx d.transactions)

added-IsRanked :
    (d : Dag) (tx : Transaction) (rank : ℕ → ℕ)
    → IsWellFormed d
    → IsAccepted d tx
    → tx.id ≢ 0
    → IsRanked d rank
    → IsRanked (added d tx) (extend rank tx)
added-IsRanked d tx rank wf acc nonzero ranked k u e =
    let differs = known_differs d tx in
    elim (added-lookup d tx u k e) [
      | inl (same, p) ↦ rw p (
        ground (
          arith,
          extend_old rank tx tx.parents.0 (differs tx.parents.0 acc.fresh nonzero acc.parent0),
        ),
        ground (
          arith,
          extend_old rank tx tx.parents.1 (differs tx.parents.1 acc.fresh nonzero acc.parent1),
        ),
      )
      | inr (ne, old) ↦
          let known = wf.closed k u old in
          let less = ranked k u old in
          (
            omega (
              arith,
              less.0,
              extend_old rank tx k ne,
              extend_old rank tx u.parents.0 (differs u.parents.0 acc.fresh nonzero known.0),
            ),
            omega (
              arith,
              less.1,
              extend_old rank tx k ne,
              extend_old rank tx u.parents.1 (differs u.parents.1 acc.fresh nonzero known.1),
            ),
          )
    ]

abbrev pub HasRank : Dag → Type 0
HasRank d = (rank : ℕ → ℕ) × IsRanked d rank

add-HasRank :
    (d : Dag) (tx : Transaction)
    → IsWellFormed d
    → tx.id ≢ 0
    → HasRank d
    → HasRank (add_transaction_validated d tx).1
unfolding add_transaction_validated
add-HasRank d tx wf nonzero (rank, ranked) = elim (Result-cases (check_transaction d tx)) [
  | inl (_, e) ↦
      rw (e, add_transaction_validated)
        (extend rank tx, added-IsRanked d tx rank wf (check-IsAccepted d tx e) nonzero ranked)
  | inr (_, e) ↦ rw (e, add_transaction_validated) (rank, ranked)
]

pub grow-HasRank :
    (d : Dag) (txs : List Transaction)
    → All (λ tx. tx.id ≢ 0) txs
    → IsWellFormed d
    → HasRank d
    → HasRank (grow d txs)
unfolding grow
grow-HasRank d [] nz wf h = h
grow-HasRank d (tx ∷ txs) nz wf h =
    grow-HasRank (add_transaction_validated d tx).1 txs nz.1 (add-IsWellFormed d tx wf nz.0)
      (add-HasRank d tx wf nz.0 h)

-- The rank falls along a descent.
Descends-rank :
    (d : Dag) (rank : ℕ → ℕ) (to x : ℕ) → IsRanked d rank → Descends d to x → rank to ≤ rank x
Descends-rank d rank to x ranked here = omega arith
Descends-rank d rank to x ranked (parent0 tx e below) =
    omega (arith, (ranked x tx e).0, Descends-rank d rank to tx.parents.0 ranked below)
Descends-rank d rank to x ranked (parent1 tx e below) =
    omega (arith, (ranked x tx e).1, Descends-rank d rank to tx.parents.1 ranked below)

unreachable :
    (fuel : ℕ) (d : Dag) (from to : ℕ)
    → 2 * length d.transactions + 1 < fuel
    → ¬ Descends d to from
    → is_reachable_from fuel d from to ≡ some false
unreachable fuel d from to enough apart = elim (is_reachable_from-Descends fuel d from to enough) [
  | inl (_, below) ↦ absurd (apart below)
  | inr (e, _) ↦ e
]

-- A graph that additions have filled from empty, of transactions other than the genesis, has no
-- cycle: the search from either parent of a stored transaction, given two rounds for each stored
-- transaction and two more, answers that it does not reach the transaction.
pub grown_acyclic :
    (txs : List Transaction) (k : ℕ) (tx : Transaction) (fuel : ℕ)
    → All (λ t. t.id ≢ 0) txs
    → lookup k (grow new txs).transactions ≡ some tx
    → 2 * length (grow new txs).transactions + 1 < fuel
    → (is_reachable_from fuel (grow new txs) tx.parents.0 k ≡ some false)
      × (is_reachable_from fuel (grow new txs) tx.parents.1 k ≡ some false)
unfolding new
grown_acyclic txs k tx fuel nz found enough =
    let d = grow new txs in
    let (rank, ranked) =
      grow-HasRank new txs nz new-IsWellFormed ((λ x. 0), λ j t e. absurd (ground arith)) in
    let less = ranked k tx found in
    (
      unreachable fuel d tx.parents.0 k enough
          (λ below. omega (arith, less.0, Descends-rank d rank k tx.parents.0 ranked below)),
      unreachable fuel d tx.parents.1 k enough
          (λ below. omega (arith, less.1, Descends-rank d rank k tx.parents.1 ranked below)),
    )
