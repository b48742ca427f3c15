-- ===== src/Tests/Spans.antt =====
-- Runs of a node (src/rpc.rs, src/node.rs) at concrete inputs.
use aether_sedc.Prelude.{ℕ, ◌≡◌, refl, ◌≢◌, inl, [], ◌∷◌, none, some, true, arith, ok, err}
use aether_sedc.Dict.{lookup, contains_key}
use aether_sedc.Transaction.{Transaction, default_difficulty}
use aether_sedc.Dag
use aether_sedc.Dag.{
  Dag, check_transaction, insert_transaction, add_transaction_validated,
  has_transaction_with_parents, has_sender_conflict,
}
use aether_sedc.Dag.Add.{new-IsWellFormed}
use aether_sedc.Dag.Remove.{grow}
use aether_sedc.Ledger.{transfer_internal, validate_and_commit_nonce_internal}
use aether_sedc.Mempool.{add_internal, add_plan, set_min_fee}
use aether_sedc.Storage.{put_transaction, put_consensus_state, put_mempool_tx}
use aether_sedc.Validation
use aether_sedc.Validation.{invalid_pow}
use aether_sedc.Processor.{
  validation_failed, process, lock_and_apply, apply_transaction, confirm, enqueue, persist,
  persist_transaction, reward_step,
}
use aether_sedc.Processor.Conservation.{Mints}
use aether_sedc.Rpc.{Node, refused, missing_of, submit, written, process_transaction}
use aether_sedc.Rpc.Status.{mine_one}
use aether_sedc.Node.{all_transactions, rebuild}
use aether_sedc.Runs.Steps.{Run, IsOrdinary, Any, done, then_run, mined, submitted}
use aether_sedc.Runs.Sound.{IsSound, Run-IsSound}
use aether_sedc.Runs.Once.{IsAmongRuns, accepted_once, no_double_spend}
use aether_sedc.Runs.Mirrors.{Mirrors}
use aether_sedc.Runs.Restart.{Faultless, run-restart}
use aether_sedc.Runs.Forged.{forged_orphan_enters}
use aether_sedc.Tests.{payment, toy}
use aether_sedc.Tests.Calls.{world, accepted}
use aether_sedc.Tests.Asks.{node, call, asked, harsh, forged, empty}

ordinary : IsOrdinary payment
ordinary = (omega arith, omega arith, omega arith)

-- The node after the payment, and after a round of mining.
abbrev paid : Node
paid = (process_transaction toy none call payment node).1

abbrev later : Node
later = mine_one true paid

pays : Run toy none node paid
pays = submitted call payment ordinary (λ gap m. done) (λ m. done)

among : IsAmongRuns toy none call
among = ((λ gap m. done), (λ m. done))

sound : IsSound node
unfolding Dag.new
sound = record {
  graph = new-IsWellFormed;
  queued = tt;
  rewards = record { keys = (refl, tt); apart = λ id h. refl };
  capped = omega arith;
}

Run-IsSound_example :
    IsSound later
    × (Mints node.world.ledger later.world.ledger)
    × ((id : ℕ)
        → contains_key id node.world.dag.transactions ≡ true
        → contains_key id later.world.dag.transactions ≡ true)
    × ((id : ℕ)
        → contains_key id node.state.rewarded_blocks ≡ true
        → contains_key id later.state.rewarded_blocks ≡ true)
Run-IsSound_example = Run-IsSound toy none (then_run pays (mined true)) sound

accepted_once_example : (process_transaction toy none call payment later).0 ≢ ok tt
accepted_once_example =
    accepted_once toy none call call payment payment node later asked Any (mined true)
      ((λ gap m. done), (λ m. done)) refl

-- Another transaction with the sender and the nonce of the payment.
abbrev rival : Transaction
rival = record payment { id = 300; receiver = 9 }

no_double_spend_example : (process_transaction toy none call rival later).0 ≢ ok tt
no_double_spend_example =
    no_double_spend toy none call call payment rival node later asked (mined true) among among
      ordinary (omega arith, omega arith, omega arith) (sound.graph, sound.queued) refl refl
      (omega arith)

mirrored : Mirrors world.dag empty
unfolding Dag.new grow
mirrored = record { order = []; nonzero = tt; grown = refl; stored = λ k. refl; keys = tt }

faultless :
    Faultless toy none call payment
      (record node { world = record world { mempool = set_min_fee world.mempool 1 } })
unfolding process lock_and_apply apply_transaction confirm enqueue persist reward_step
    transfer_internal validate_and_commit_nonce_internal add_transaction_validated check_transaction
    insert_transaction add_internal add_plan set_min_fee Validation.new
faultless = (ordinary, refl, inl (rw (accepted, process) refl))

no_orphans : paid.storage.orphans ≡ []
unfolding process_transaction submit missing_of process lock_and_apply apply_transaction confirm
    enqueue persist reward_step transfer_internal validate_and_commit_nonce_internal
    add_transaction_validated check_transaction insert_transaction add_internal add_plan set_min_fee
    Validation.new written persist_transaction put_transaction put_consensus_state put_mempool_tx
no_orphans = rw (accepted, process) refl

run-restart_example :
    let (d, orphans) = rebuild (all_transactions paid.storage []) in
    ((k : ℕ) → lookup k d.transactions ≡ lookup k paid.world.dag.transactions) × (orphans ≡ [])
run-restart_example =
    run-restart toy none {n = node} {m = paid}
      (submitted call payment faultless (λ gap m. done) (λ m. done)) (mirrored, tt) no_orphans

acceptable : check_transaction world.dag payment ≡ ok tt
unfolding check_transaction has_transaction_with_parents has_sender_conflict
acceptable = refl

abbrev forging : Node
forging = record node { storage = record empty { orphans = (100, payment) ∷ [] } }

mirrored' : Mirrors world.dag forging.storage
unfolding Dag.new grow
mirrored' = record { order = []; nonzero = tt; grown = refl; stored = λ k. refl; keys = tt }

forged_orphan_enters_example :
    ((process_transaction harsh none call payment forging).0
      ≡ err (refused (validation_failed (invalid_pow default_difficulty))))
    × (lookup 100 (rebuild (all_transactions forging.storage [])).0.transactions ≡ some payment)
forged_orphan_enters_example =
    forged_orphan_enters harsh none call forging payment mirrored' (omega arith) acceptable refl
      refl forged
