-- ===== src/Audit/Misses.antt =====
-- What the search for parasite chains of src/security_audit.rs misses, and that its walks end.
use aether_sedc.Prelude.{
  ◌*◌, ◌≢◌, ◌<◌, inl, inr, length, Bool-cases, Option-cases, ℕ, zero, suc, ◌+◌, ◌≡◌, refl, ◌↔◌, ◌⊎◌,
  true, false, List, [], ◌∷◌, none, some, arith, All,
}
use aether_sedc.Dict.{lookup, contains_key, insert, contains_key-lookup, lookup-none-contains_key}
use aether_sedc.Consensus.{IdSet}
use aether_sedc.Transaction.{Transaction}
use aether_sedc.Dag.{Dag, get_transaction}
use aether_sedc.Dag.Walk.{unvisited, unvisited-insert, unvisited_falls, unvisited_nil}
use aether_sedc.Dag.Shape.{IsWellFormed}
use aether_sedc.Audit.Chains.{
  detect_parasite_chains, is_orphan_transaction, calculate_chain_weight, calculate_chain_depth,
  extract_chain, chain_from, push_at, weight_of, suspect,
}

chain_absent :
    (fuel : ℕ) (d : Dag) (id : ℕ)
    → contains_key id d.transactions ≡ false
    → chain_from (suc (suc fuel)) d [] ((id, 0) ∷ []) ≡ some ((id, 0) ∷ [])
unfolding chain_from get_transaction
chain_absent fuel d id absent = ground (arith, contains_key-lookup id d.transactions)

weight_absent :
    (fuel : ℕ) (as_u64 : ℕ → ℕ) (d : Dag) (tx : Transaction)
    → contains_key tx.id d.transactions ≡ false
    → calculate_chain_weight (suc (suc fuel)) as_u64 d tx
      ≡ some (weight_of as_u64 d ((tx.id, 0) ∷ []))
unfolding calculate_chain_weight
weight_absent fuel as_u64 d tx absent = ground (arith, chain_absent fuel d tx.id absent)

depth_absent :
    (fuel : ℕ) (d : Dag) (tx : Transaction)
    → contains_key tx.id d.transactions ≡ false
    → calculate_chain_depth (suc (suc fuel)) d tx ≡ some 0
unfolding calculate_chain_depth
depth_absent fuel d tx absent = ground (arith, chain_absent fuel d tx.id absent)

extract_absent :
    (fuel : ℕ) (d : Dag) (tx : Transaction)
    → contains_key tx.id d.transactions ≡ false
    → extract_chain (suc (suc fuel)) d tx ≡ some (tx.id ∷ [])
unfolding extract_chain
extract_absent fuel d tx absent = ground (arith, chain_absent fuel d tx.id absent)

suspect_absent :
    (fuel : ℕ) (as_u64 : ℕ → ℕ) (d : Dag) (tx : Transaction)
    → contains_key tx.id d.transactions ≡ false
    → suspect (suc (suc fuel)) as_u64 d tx ≡ some []
suspect_absent fuel as_u64 d tx absent = ground (
  arith,
  weight_absent fuel as_u64 d tx absent,
  depth_absent fuel d tx absent,
  extract_absent fuel d tx absent,
)

unreported :
    (fuel : ℕ) (as_u64 : ℕ → ℕ) (d : Dag) (txs : List Transaction)
    → All (λ tx. contains_key tx.id d.transactions ≡ false) txs
    → detect_parasite_chains (suc (suc fuel)) as_u64 d txs ≡ some []
unfolding detect_parasite_chains
unreported fuel as_u64 d [] h = refl
unreported fuel as_u64 d (tx ∷ txs) h =
    let first = suspect_absent fuel as_u64 d tx h.0 in
    let rest = unreported fuel as_u64 d txs h.1 in ground arith

stored_is_orphan_iff :
    (d : Dag) (tx : Transaction)
    → IsWellFormed d
    → lookup tx.id d.transactions ≡ some tx
    → (is_orphan_transaction d tx ≡ true) ↔ ((tx.parents.0 ≡ 0) ⊎ (tx.parents.1 ≡ 0))
unfolding is_orphan_transaction get_transaction
stored_is_orphan_iff d tx wf e =
    let (known0, known1) = wf.closed tx.id tx e in
    ground (
      arith,
      wf.no_genesis,
      contains_key-lookup 0 d.transactions,
      lookup-none-contains_key tx.parents.0 d.transactions,
      lookup-none-contains_key tx.parents.1 d.transactions,
      contains_key-lookup tx.parents.0 d.transactions,
    )

chain_from-ends :
    (fuel : ℕ) (d : Dag) (visited : IdSet) (queue : List (ℕ × ℕ))
    → length queue + 2 * unvisited visited d.transactions < fuel
    → chain_from fuel d visited queue ≢ none
unfolding chain_from get_transaction
chain_from-ends zero d visited queue enough e = omega arith
chain_from-ends (suc fuel) d visited [] enough e = ground arith
chain_from-ends (suc fuel) d visited ((current, depth) ∷ queue) enough e =
    elim (Bool-cases (contains_key current visited)) [
      | inl old ↦ chain_from-ends fuel d visited queue (omega (arith, enough)) (ground arith)
      | inr new ↦
          chain_from-ends fuel d (insert current tt visited) (push_at d current (depth + 1) queue)
            (elim (Option-cases (lookup current d.transactions)) [
              | inl absent ↦ ground (arith, unvisited-insert current visited d.transactions)
              | inr (tx, there) ↦ ground (arith, unvisited_falls current tx visited d.transactions)
            ])
            (ground arith)
    ]

-- Each of the three walks from a transaction ends, given two rounds for each stored transaction and
-- two more.
pub chains-end :
    (fuel : ℕ) (as_u64 : ℕ → ℕ) (d : Dag) (tx : Transaction)
    → 1 + 2 * length d.transactions < fuel
    → (calculate_chain_weight fuel as_u64 d tx ≢ none)
      × (calculate_chain_depth fuel d tx ≢ none)
      × (extract_chain fuel d tx ≢ none)
unfolding calculate_chain_weight calculate_chain_depth extract_chain
chains-end fuel as_u64 d tx enough =
    let ends =
      chain_from-ends fuel d [] ((tx.id, 0) ∷ [])
        (omega (arith, enough, unvisited_nil d.transactions)) in
    (λ e. ground arith, λ e. ground arith, λ e. ground arith)

-- What the search for parasite chains misses: of transactions that the graph does not hold, in
-- whatever number, it reports none, given two rounds at least for each walk; and of those that a
-- well-formed graph holds, the ones that count as orphans are exactly those with the genesis for a
-- parent.
pub detect_parasite_chains-misses :
    (fuel : ℕ) (as_u64 : ℕ → ℕ) (d : Dag) (txs : List Transaction)
    → All (λ tx. contains_key tx.id d.transactions ≡ false) txs
    → IsWellFormed d
    → (detect_parasite_chains (suc (suc fuel)) as_u64 d txs ≡ some [])
      × ((tx : Transaction)
          → lookup tx.id d.transactions ≡ some tx
          → (is_orphan_transaction d tx ≡ true) ↔ ((tx.parents.0 ≡ 0) ⊎ (tx.parents.1 ≡ 0)))
detect_parasite_chains-misses fuel as_u64 d txs absent wf =
    (unreported fuel as_u64 d txs absent, λ tx e. stored_is_orphan_iff d tx wf e)
