-- ===== src/Tests/Calls.antt =====
-- `process` (src/transaction_processor.rs) at concrete inputs.
use aether_sedc.Prelude.{
  ◌≤◌, ◌≡◌, refl, ◌≢◌, ◌⊎◌, inl, inr, [], ◌∷◌, none, some, true, arith, ok, err,
}
use aether_sedc.Reward.{max_supply, calculate_reward}
use aether_sedc.Consensus
use aether_sedc.Consensus.{ConsensusState, already_queued}
use aether_sedc.Ledger.{
  insufficient_funds, transfer_internal, validate_account_nonce, validate_and_commit_nonce_internal,
  apply_block_reward,
}
use aether_sedc.Transaction.{
  verify_pow, verify_transaction, verify_sender_matches_public_key, meets_difficulty,
  calculate_pow_hash, le_bytes, be_bytes, from_be_bytes,
}
use aether_sedc.Dag.{
  check_transaction, insert_transaction, add_transaction_validated, has_transaction_with_parents,
  has_sender_conflict,
}
use aether_sedc.Validation.{
  TransactionValidator, validate_full, validate_pure, validate_dag, validate_ledger,
}
use aether_sedc.Mempool.{add_internal, add_plan, insufficient_fee}
use aether_sedc.Processor.{
  Environment, World, ledger_error, transfer_failed, reward_queue_failed, mempool_error,
  reward_step, reward_miner, settle_rewards, persist, enqueue, confirm, apply_transaction,
  lock_and_apply, process,
}
use aether_sedc.Consensus.Queue.{IsConsistent}
use aether_sedc.Validation.Malleable.{relabelled_is_accepted}
use aether_sedc.Processor.Progress.{HasRoom, process_succeeds}
use aether_sedc.Processor.Once.{refused_by_mempool_is_stranded}
use aether_sedc.Processor.Conservation.{Mints, process-Mints_rewards_only}
use aether_sedc.Tests.{alice, bob, payment, ledger, toy}

abbrev pub quiet : Environment
quiet = record {
  interleaved = λ w. w;
  dag_free = true;
  ledger_free = true;
  mempool_free = true;
  saves = λ l. true;
  transaction_stored = true;
  state_stored = true;
}

abbrev pub world : World
world = record {
  dag = record { transactions = []; children = []; tips = [] };
  ledger = ledger;
  mempool = record { queue = []; max_size = 2; min_fee = 1 };
}

-- The mempool of this one asks for more than the fee.
abbrev strict : World
strict = record world { mempool = record { queue = []; max_size = 2; min_fee = 3 } }

-- Height 11; the reward of block 40, of height 3, is queued.
abbrev pub state : ConsensusState
state = record {
  current_height = 11;
  rewarded_heights = [];
  rewarded_blocks = [];
  pending_rewards =
      (40, record { validator = bob; reward = 100_000_000_000; block_height = 3 }) ∷ [];
  confirmation_threshold = 6;
}

abbrev pub easy : TransactionValidator
easy = record { difficulty = 16 }

authentic : validate_pure toy easy payment ≡ ok tt
unfolding validate_pure verify_pow meets_difficulty calculate_pow_hash le_bytes be_bytes
    verify_transaction verify_sender_matches_public_key from_be_bytes
authentic = refl

pub accepted : validate_full toy easy payment world.dag ledger 1 ≡ ok tt
unfolding validate_full validate_dag validate_ledger validate_account_nonce
    has_transaction_with_parents has_sender_conflict
accepted = rw authentic refl

world-HasRoom : HasRoom payment world
world-HasRoom = record {
  receiver = inr (omega arith);
  burn = inr (omega arith, omega arith);
  floor = omega arith;
  queue = inl (omega arith);
}

process_succeeds_example : (process toy quiet easy payment 1 none none world state).result ≡ ok tt
process_succeeds_example =
    process_succeeds toy quiet easy payment 1 world state
      (record { alone = refl; dag = refl; ledger = refl; mempool = refl; saved = λ l. refl })
      world-HasRoom accepted

-- With a miner, the reward of block 40 is settled too.
pub settled : (process toy quiet easy payment 1 (some bob) (some 41) world state).result ≡ ok tt
unfolding process lock_and_apply apply_transaction confirm enqueue persist reward_step reward_miner
    settle_rewards transfer_internal validate_and_commit_nonce_internal apply_block_reward
    add_transaction_validated check_transaction insert_transaction add_internal add_plan
    Consensus.increment_height Consensus.queue_pending_reward Consensus.finalized_pending_rewards
    Consensus.is_finalized Consensus.is_block_rewarded Consensus.mark_block_rewarded
    Consensus.settle_pending_reward calculate_reward
settled = rw (accepted, process) refl

process-Mints_rewards_only_example :
    let l' = (process toy quiet easy payment 1 (some bob) (some 41) world state).world in
    (l' ≡ world) ⊎ (Mints ledger l'.ledger × (l'.ledger.total_supply ≤ max_supply))
process-Mints_rewards_only_example =
    process-Mints_rewards_only toy quiet easy payment 1 (some bob) (some 41) world state
      (omega arith) (omega arith) (omega arith)

-- Another task spends the money between the validation and the locks.
abbrev spent : World
spent = record world { ledger = record ledger { balances = (alice, 3) ∷ [] } }

abbrev busy : Environment
busy = record quiet { interleaved = λ w. spent }

raced :
    (process toy busy easy payment 1 none none world state).result
    ≡ err (ledger_error (transfer_failed (insufficient_funds 3 12 10 2)))
unfolding process lock_and_apply apply_transaction transfer_internal
raced = rw (accepted, process) refl

refused :
    (process toy quiet easy payment 1 none none strict state).result
    ≡ err (mempool_error (insufficient_fee 2 3))
unfolding process lock_and_apply apply_transaction confirm enqueue persist reward_step
    transfer_internal validate_and_commit_nonce_internal add_transaction_validated check_transaction
    insert_transaction add_internal add_plan
refused = rw (accepted, process) refl

refused_by_mempool_is_stranded_example :
    let first = process toy quiet easy payment 1 none none strict state in
    let second = process toy quiet easy payment 0 none none first.world first.state in
    (first.world.ledger ≡ ledger)
    × (second.result ≢ ok tt)
    × (second.world ≡ first.world)
    × (second.state ≡ first.state)
refused_by_mempool_is_stranded_example =
    refused_by_mempool_is_stranded toy quiet quiet easy easy payment 1 0 none none none none strict
      state (insufficient_fee 2 3) refused

-- Block 40 is queued already.
unqueued :
    (process toy quiet easy payment 1 (some bob) (some 40) world state).result
    ≡ err (ledger_error (reward_queue_failed (already_queued 40)))
unfolding process lock_and_apply apply_transaction confirm enqueue persist reward_step reward_miner
    transfer_internal validate_and_commit_nonce_internal add_transaction_validated check_transaction
    insert_transaction Consensus.increment_height Consensus.queue_pending_reward
unqueued = rw (accepted, process) refl

state-IsConsistent : IsConsistent state
state-IsConsistent = record { keys = (refl, tt); apart = λ id h. refl }

relabelled_is_accepted_example :
    validate_full toy easy (record payment { id = 555 }) world.dag ledger 1 ≡ ok tt
relabelled_is_accepted_example =
    relabelled_is_accepted toy easy payment world.dag ledger 1 555 accepted refl
