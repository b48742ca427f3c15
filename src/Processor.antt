-- ===== src/Processor.antt =====
-- `TransactionProcessor::process` of src/transaction_processor.rs. The graph, the ledger and the
-- mempool are behind locks: the validation reads the first two, lets go of them, and the rest of
-- the call holds all three. What other tasks do in between, whether the locks are free, and
-- whether the database accepts a write are the environment's, and fields of `Environment`.
pub mod Steps
pub mod Safety
pub mod Progress
pub mod Once
pub mod Conservation
pub mod Rewards
use aether_sedc.Prelude.{
  ℕ, Bool, true, false, List, [], ◌∷◌, Option, none, some, not, if◌then◌else◌, Result, ok, err,
}
use aether_sedc.Reward.{calculate_reward}
use aether_sedc.Consensus
use aether_sedc.Consensus.{ConsensusState, ConsensusError, PendingReward}
use aether_sedc.Ledger
use aether_sedc.Ledger.{Ledger, LedgerError}
use aether_sedc.Transaction.{Transaction, Crypto}
use aether_sedc.Dag
use aether_sedc.Dag.{Dag, DagError}
use aether_sedc.Validation
use aether_sedc.Validation.{ValidationError, TransactionValidator}
use aether_sedc.Mempool
use aether_sedc.Mempool.{Mempool, RpcError}
use aether_sedc.Storage.{Storage, put_transaction, put_consensus_state}

pub data Lock : Type 0 where
  dag_lock ledger_lock mempool_lock : Lock

-- What the message of a `LedgerError` begins with.
pub data LedgerFailure : Type 0 where
  transfer_failed nonce_commit_failed : LedgerError → LedgerFailure
  reward_queue_failed : ConsensusError → LedgerFailure

pub data ProcessingError : Type 0 where
  validation_failed : ValidationError → ProcessingError
  lock_error : Lock → ProcessingError
  ledger_error : LedgerFailure → ProcessingError
  dag_error : DagError → ProcessingError
  mempool_error : RpcError → ProcessingError
  persistence_error : ProcessingError

-- What the locks guard.
pub record World : Type 0 where
  pub dag : Dag
  pub ledger : Ledger
  pub mempool : Mempool

pub record Environment : Type 0 where
  -- What other tasks write between the validation and the locks.
  pub interleaved : World → World
  -- `try_write` on each lock.
  pub dag_free : Bool
  pub ledger_free : Bool
  pub mempool_free : Bool
  -- Whether `ledger.save()` succeeds.
  pub saves : Ledger → Bool
  -- Whether the database takes the transaction and the consensus state, in step 9b.
  pub transaction_stored : Bool
  pub state_stored : Bool

-- What a call leaves behind: its result, what the locks guard, and the consensus state.
pub record Outcome : Type 0 where
  pub result : Result ProcessingError (Unit {0})
  pub world : World
  pub state : ConsensusState

-- A reward that was credited is marked, and leaves the queue.
abbrev pub mark_if_paid : Result LedgerError (Unit {0}) → ℕ → ConsensusState → ConsensusState
mark_if_paid (ok _) id s = Consensus.settle_pending_reward (Consensus.mark_block_rewarded s id) id
mark_if_paid (err _) id s = s

-- The rewards that are final are credited one by one; one that fails stays in the queue.
unfoldable pub settle_rewards :
    List (ℕ × PendingReward) → Ledger → ConsensusState → Ledger × ConsensusState
settle_rewards [] ledger s = (ledger, s)
settle_rewards ((id, pending) ∷ rest) ledger s =
    let (paid, ledger') =
      Ledger.apply_block_reward ledger pending.validator id pending.block_height s in
    settle_rewards rest ledger' (mark_if_paid paid id s)

-- Step 7 for a configured miner: the height rises, this block's reward is queued, and the rewards
-- that are now final are settled. The height stays raised if the queue refuses.
unfoldable pub reward_miner :
    Ledger → ConsensusState → ℕ → ℕ → Result ConsensusError (Unit {0}) × Ledger × ConsensusState
reward_miner ledger s block_id validator =
    let raised = Consensus.increment_height s in
    let block_height = raised.current_height in
    elim (Consensus.queue_pending_reward raised block_id validator (calculate_reward block_height)
      block_height) [
        | err e ↦ (err e, ledger, raised)
        | ok queued ↦
            let (ledger', s') =
              settle_rewards (Consensus.finalized_pending_rewards queued) ledger queued in
            (ok tt, ledger', s')
      ]

-- `block_id.unwrap_or(tx.id)`
abbrev pub block_id_or : Option ℕ → ℕ → ℕ
block_id_or none id = id
block_id_or (some block_id) id = block_id

-- Step 7.
unfoldable pub reward_step :
    Transaction
    → Option ℕ
    → Option ℕ
    → Ledger
    → ConsensusState
    → Result ConsensusError (Unit {0}) × Ledger × ConsensusState
reward_step tx none block_id ledger s = (ok tt, ledger, s)
reward_step tx (some validator) block_id ledger s =
    reward_miner ledger s (block_id_or block_id tx.id) validator

-- Step 9, on what the locks guard by then.
unfoldable pub persist : Environment → World → ConsensusState → Outcome
persist env w s = record {
  result = if env.saves w.ledger then ok tt else err persistence_error;
  world = w;
  state = s;
}

-- Step 9b of a call that has succeeded, on the database behind the ledger; a failure is only logged.
unfoldable pub persist_transaction : Environment → Transaction → ConsensusState → Storage → Storage
persist_transaction env tx s storage =
    let stored = if env.transaction_stored then put_transaction storage tx else storage in
    if env.state_stored then put_consensus_state stored s else stored

-- Step 8: a refusal puts the ledger back to the snapshot, and neither the graph nor the state.
unfoldable pub enqueue : Environment → Transaction → Ledger → World → ConsensusState → Outcome
enqueue env tx snapshot w s =
    let (queued, mempool') = Mempool.add_internal w.mempool tx in
    elim queued [
      | ok _ ↦ persist env (record w { mempool = mempool' }) s
      | err e ↦ record {
        result = err (mempool_error e);
        world = record w { ledger = snapshot; mempool = mempool' };
        state = s;
      }
    ]

-- Steps 7 to 9, after the graph holds the transaction.
unfoldable pub confirm :
    Environment → Transaction → Option ℕ → Option ℕ → Ledger → World → ConsensusState → Outcome
confirm env tx miner block_id snapshot w s =
    let (queued, ledger', s') = reward_step tx miner block_id w.ledger s in
    elim queued [
      | ok _ ↦ enqueue env tx snapshot (record w { ledger = ledger' }) s'
      | err e ↦ record {
        result = err (ledger_error (reward_queue_failed e));
        world = record w { ledger = ledger' };
        state = s';
      }
    ]

-- A return that puts the ledger back to the snapshot.
abbrev give_up : ProcessingError → Ledger → World → ConsensusState → Outcome
give_up e snapshot w s = record {
  result = err e;
  world = record w { ledger = snapshot };
  state = s;
}

-- Steps 3 to 9, with all locks held.
unfoldable pub apply_transaction :
    Environment → Transaction → Option ℕ → Option ℕ → World → ConsensusState → Outcome
apply_transaction env tx miner block_id w s =
    let (moved, l1) = Ledger.transfer_internal w.ledger tx.sender tx.receiver tx.amount tx.fee in
    let (committed, l2) = Ledger.validate_and_commit_nonce_internal l1 tx.sender tx.account_nonce in
    let (added, dag') = Dag.add_transaction_validated w.dag tx in
    elim moved [
      | err e ↦ give_up (ledger_error (transfer_failed e)) w.ledger (record w { ledger = l1 }) s
      | ok _ ↦ elim committed [
        | err e ↦
            give_up (ledger_error (nonce_commit_failed e)) w.ledger (record w { ledger = l2 }) s
        | ok _ ↦ elim added [
          | err e ↦ give_up (dag_error e) w.ledger (record w { ledger = l2; dag = dag' }) s
          | ok _ ↦ confirm env tx miner block_id w.ledger (record w { ledger = l2; dag = dag' }) s
        ]
      ]
    ]

-- Step 2: the locks are tried in turn.
unfoldable pub lock_and_apply :
    Environment → Transaction → Option ℕ → Option ℕ → World → ConsensusState → Outcome
lock_and_apply env tx miner block_id w s =
    if not env.dag_free
    then record { result = err (lock_error dag_lock); world = w; state = s }
    else if not env.ledger_free
    then record { result = err (lock_error ledger_lock); world = w; state = s }
    else if not env.mempool_free
    then record { result = err (lock_error mempool_lock); world = w; state = s }
    else apply_transaction env tx miner block_id w s

unfoldable pub process :
    Crypto
    → Environment
    → TransactionValidator
    → Transaction
    → ℕ
    → Option ℕ
    → Option ℕ
    → World
    → ConsensusState
    → Outcome
process c env v tx min_fee miner block_id w s =
    elim (Validation.validate_full c v tx w.dag w.ledger min_fee) [
      | err e ↦ record { result = err (validation_failed e); world = w; state = s }
      | ok _ ↦ lock_and_apply env tx miner block_id (env.interleaved w) s
    ]
