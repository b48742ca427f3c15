-- ===== src/Tests/Starts.antt =====
-- A start of the node (src/node.rs) and the calls around the processor (src/rpc.rs) at concrete
-- inputs.
use aether_sedc.Prelude.{
  ℕ, ◌+◌, ◌≡◌, refl, inl, inr, List, [], ◌∷◌, some, false, arith, All, Has, ◌==◌, if◌then◌else◌,
}
use aether_sedc.Dict.{lookup}
use aether_sedc.Transaction.{Transaction}
use aether_sedc.Dag
use aether_sedc.Dag.{Dag, check_transaction, insert_transaction, add_transaction_validated}
use aether_sedc.Dag.Shape.{IsWellFormed}
use aether_sedc.Dag.Remove.{grow}
use aether_sedc.Ledger.{get_balance, get_or_zero}
use aether_sedc.Ledger.Sums.{total, IsValid}
use aether_sedc.Node.{is_ready, rebuild, rebuild_loop, seed_genesis, genesis_ledger, repair_ledger}
use aether_sedc.Node.Rebuild.{rebuild_loop-ends}
use aether_sedc.Node.Restart.{rebuild-grown}
use aether_sedc.Node.Repair.{seed_genesis-mints, repair_ledger-total}
use aether_sedc.Tests.{transaction, ledger}

-- A transaction and a child of it.
abbrev parent : Transaction
parent = transaction 100 (0, 0) 1

abbrev child : Transaction
child = transaction 101 (100, 0) 2

abbrev stored : List Transaction
stored = child ∷ parent ∷ []

stored-lookup :
    (tx : Transaction)
    → Has tx stored
    → lookup tx.id (grow Dag.new (parent ∷ child ∷ [])).transactions ≡ some tx
unfolding grow Dag.new add_transaction_validated insert_transaction check_transaction
    Dag.has_transaction_with_parents Dag.has_sender_conflict Dag.has_transaction_with_nonce
stored-lookup tx (inl e) = rw (← e) refl
stored-lookup tx (inr (inl e)) = rw (← e) refl
stored-lookup tx (inr (inr m)) = elim m [ ]

lookup-stored :
    (k : ℕ) (tx : Transaction)
    → lookup k (grow Dag.new (parent ∷ child ∷ [])).transactions ≡ some tx
    → Has tx stored
unfolding grow Dag.new add_transaction_validated insert_transaction check_transaction
    Dag.has_transaction_with_parents Dag.has_sender_conflict Dag.has_transaction_with_nonce
lookup-stored k tx e = ground arith

rebuild-grown_example :
    ((k : ℕ)
      → lookup k (rebuild stored).0.transactions
        ≡ lookup k (grow Dag.new (parent ∷ child ∷ [])).transactions)
    × ((rebuild stored).1 ≡ [])
rebuild-grown_example =
    rebuild-grown (parent ∷ child ∷ []) stored (omega arith, (omega arith, tt)) stored-lookup
      lookup-stored

rebuild_loop-ends_example :
    IsWellFormed (rebuild_loop 2 Dag.new (child ∷ [])).0
    × All
        (λ tx. is_ready (rebuild_loop 2 Dag.new (child ∷ [])).0 tx ≡ false)
        (rebuild_loop 2 Dag.new (child ∷ [])).1
    × (rebuild_loop 7 Dag.new (child ∷ []) ≡ rebuild_loop 2 Dag.new (child ∷ []))
rebuild_loop-ends_example = rebuild_loop-ends (child ∷ []) 5 (omega arith, tt)

seed_genesis-mints_example :
    ((k : ℕ)
      → get_balance (seed_genesis genesis_ledger ledger) k ≡ (
          if get_balance ledger k == 0 then get_or_zero genesis_ledger k else get_balance ledger k))
    × (total (seed_genesis genesis_ledger ledger).balances ≡ 10_000_000_100_000_000_101)
    × ((seed_genesis genesis_ledger ledger).total_supply ≡ 101)
seed_genesis-mints_example = seed_genesis-mints ledger

repair_ledger-total_example :
    IsValid (repair_ledger (grow Dag.new (parent ∷ child ∷ [])))
    × (total (repair_ledger (grow Dag.new (parent ∷ child ∷ []))).balances
        ≡ 10_000_000_100_000_000_000)
    × ((repair_ledger (grow Dag.new (parent ∷ child ∷ []))).total_supply
          + (repair_ledger (grow Dag.new (parent ∷ child ∷ []))).total_fees_burned
        ≡ 10_000_000_100_000_000_000)
unfolding grow Dag.new add_transaction_validated insert_transaction check_transaction
    Dag.has_transaction_with_parents Dag.has_sender_conflict Dag.has_transaction_with_nonce
repair_ledger-total_example =
    repair_ledger-total (grow Dag.new (parent ∷ child ∷ []))
      ((omega arith, omega arith), ((omega arith, omega arith), tt))
