-- ===== src/Tests/Graph.antt =====
-- The graph (src/parent_selection.rs), proof of work (src/transaction.rs) and validation
-- (src/validation.rs), and the search for parasite chains (src/security_audit.rs) at concrete
-- inputs.
use aether_sedc.Prelude.{
  ℕ, zero, suc, ◌^◌, ◌<◌, ◌≡◌, refl, ◌↔◌, ◌⊎◌, List, [], ◌∷◌, true, false, some, arith, ok, All,
}
use aether_sedc.Audit.Chains.{detect_parasite_chains, is_orphan_transaction}
use aether_sedc.Audit.Misses.{detect_parasite_chains-misses}
use aether_sedc.Dict.{contains_key, lookup}
use aether_sedc.Transaction.{
  Transaction, le_bytes, be_bytes, meets_difficulty, calculate_pow_hash, verify_pow,
}
use aether_sedc.Transaction.Work.{verify_pow_iff}
use aether_sedc.Dag
use aether_sedc.Dag.{
  Dag, check_transaction, insert_transaction, add_transaction_validated, remove_transaction,
  rebuild_tips, has_transaction_with_parents, has_sender_conflict,
}
use aether_sedc.Dag.Shape.{IsWellFormed}
use aether_sedc.Dag.Remove.{grow, grown-IsWellFormed}
use aether_sedc.Dag.Walk.{Descends, is_reachable_from, is_reachable_from-Descends}
use aether_sedc.Dag.Acyclic.{grown_acyclic}
use aether_sedc.Validation
use aether_sedc.Validation.{validate_full, validate_dag, validate_ledger}
use aether_sedc.Validation.Accepts.{IsAuthentic, IsFresh, IsFunded, validate_full_iff}
use aether_sedc.Tests.{payment, transaction, ledger, toy}

-- A transaction, and two children of it.
abbrev family : List Transaction
family = transaction 100 (0, 0) 1 ∷ transaction 101 (100, 0) 2 ∷ transaction 102 (0, 100) 3 ∷ []

grown-IsWellFormed_example :
    IsWellFormed (grow Dag.new family)
    × ((k : ℕ)
        → contains_key k (rebuild_tips (grow Dag.new family)).tips
          ≡ contains_key k (grow Dag.new family).tips)
grown-IsWellFormed_example =
    grown-IsWellFormed family (omega arith, (omega arith, (omega arith, tt)))

verify_pow_iff_example :
    (verify_pow toy payment 245 ≡ true) ↔ (calculate_pow_hash toy payment 3 < 2 ^ 11)
verify_pow_iff_example = verify_pow_iff toy payment 245 (omega arith)

validate_full_iff_example :
    (validate_full toy Validation.new payment Dag.new ledger 1 ≡ ok tt)
    ↔ (IsAuthentic toy Validation.new payment × IsFresh payment Dag.new × IsFunded payment ledger 1)
validate_full_iff_example = validate_full_iff toy Validation.new payment Dag.new ledger 1

-- The nonces 0 and 1 miss the difficulty, and 2 meets it.
misses : (k : ℕ) → k < 2 → verify_pow toy (record payment { nonce = k }) 245 ≡ false
unfolding verify_pow meets_difficulty calculate_pow_hash le_bytes be_bytes
misses zero lt = refl
misses (suc zero) lt = refl
misses (suc (suc k)) lt = absurd (omega arith)

is_reachable_from-Descends_example :
    ((is_reachable_from 8 (grow Dag.new family) 101 100 ≡ some true)
      × Descends (grow Dag.new family) 100 101)
    ⊎ ((is_reachable_from 8 (grow Dag.new family) 101 100 ≡ some false)
        × (¬ Descends (grow Dag.new family) 100 101))
unfolding grow Dag.new add_transaction_validated insert_transaction check_transaction
is_reachable_from-Descends_example =
    is_reachable_from-Descends 8 (grow Dag.new family) 101 100 (omega arith)

-- The first of the two outcomes it is.
reachable_run : is_reachable_from 8 (grow Dag.new family) 101 100 ≡ some true
unfolding is_reachable_from grow Dag.new add_transaction_validated insert_transaction
    check_transaction
reachable_run = refl

grown_acyclic_example :
    (is_reachable_from 8 (grow Dag.new family) 100 101 ≡ some false)
    × (is_reachable_from 8 (grow Dag.new family) 0 101 ≡ some false)
unfolding grow Dag.new add_transaction_validated insert_transaction check_transaction
grown_acyclic_example =
    grown_acyclic family 101 (transaction 101 (100, 0) 2) 8
      (omega arith, (omega arith, (omega arith, tt))) refl (omega arith)

-- The graph of one payment, and two transactions that it does not hold.
abbrev one : Dag
one = grow Dag.new (payment ∷ [])

unheld :
    All
      (λ tx. contains_key tx.id one.transactions ≡ false)
      (transaction 201 (200, 7) 4 ∷ transaction 202 (201, 0) 5 ∷ [])
unfolding grow Dag.new add_transaction_validated check_transaction insert_transaction
    has_transaction_with_parents has_sender_conflict
unheld = (refl, (refl, tt))

detect_parasite_chains-misses_example :
    (detect_parasite_chains 2
        (λ weight. weight)
        one
        (transaction 201 (200, 7) 4 ∷ transaction 202 (201, 0) 5 ∷ [])
      ≡ some [])
    × ((tx : Transaction)
        → lookup tx.id one.transactions ≡ some tx
        → (is_orphan_transaction one tx ≡ true) ↔ ((tx.parents.0 ≡ 0) ⊎ (tx.parents.1 ≡ 0)))
detect_parasite_chains-misses_example =
    detect_parasite_chains-misses 0 (λ weight. weight) one
      (transaction 201 (200, 7) 4 ∷ transaction 202 (201, 0) 5 ∷ []) unheld
      (grown-IsWellFormed (payment ∷ []) (omega arith, tt)).0
