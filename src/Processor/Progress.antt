-- ===== src/Processor/Progress.antt =====
-- When `process` (src/transaction_processor.rs) is certain to succeed.
use aether_sedc.Prelude.{ℕ, ◌+◌, ◌≤◌, ◌<◌, ◌≡◌, ◌⊎◌, true, none, arith, u64_mod, ok, length}
use aether_sedc.Consensus.{ConsensusState}
use aether_sedc.Ledger
use aether_sedc.Ledger.{Ledger, get_balance}
use aether_sedc.Ledger.Transfer.{BurnHasRoom, after}
use aether_sedc.Transaction.{Transaction, Crypto}
use aether_sedc.Dag.{add_transaction_validated}
use aether_sedc.Validation.{TransactionValidator, validate_full, validate_dag, validate_ledger}
use aether_sedc.Validation.Accepts.{validated_applies, validate-check}
use aether_sedc.Mempool.{min_fee_in_pool}
use aether_sedc.Mempool.Evict.{add_internal_iff}
use aether_sedc.Processor.{
  Environment, World, process, lock_and_apply, apply_transaction, confirm, enqueue, persist,
  reward_step,
}

-- The environment lets a call through: no other task writes in between, the locks are free, and the
-- database takes the ledger.
pub record IsQuiet (env : Environment) (w : World) : Type 0 where
  pub alone : env.interleaved w ≡ w
  pub dag : env.dag_free ≡ true
  pub ledger : env.ledger_free ≡ true
  pub mempool : env.mempool_free ≡ true
  pub saved : (l : Ledger) → env.saves l ≡ true

-- The receiver, the burn address and the mempool have room.
pub record HasRoom (tx : Transaction) (w : World) : Type 0 where
  pub receiver :
      (tx.sender ≡ tx.receiver) ⊎ (get_balance w.ledger tx.receiver + tx.amount < u64_mod)
  pub burn : BurnHasRoom w.ledger tx.fee
  pub floor : w.mempool.min_fee ≤ tx.fee
  pub queue :
      (length w.mempool.queue < w.mempool.max_size) ⊎ (min_fee_in_pool w.mempool.queue < tx.fee)

full_parts :
    (c : Crypto) (v : TransactionValidator) (tx : Transaction) (min_fee : ℕ) (w : World)
    → validate_full c v tx w.dag w.ledger min_fee ≡ ok tt
    → (validate_dag tx w.dag ≡ ok tt) × (validate_ledger tx w.ledger min_fee ≡ ok tt)
unfolding validate_full
full_parts c v tx min_fee w h = (ground arith, ground arith)

-- A transaction that the validation accepts is processed, with no miner to reward, whenever no
-- other task writes in between, the locks are free, the database takes the ledger, and the
-- receiver, the burn address and the mempool have room.
pub process_succeeds :
    (c : Crypto) (env : Environment) (v : TransactionValidator) (tx : Transaction) (min_fee : ℕ)
    (w : World) (s : ConsensusState)
    → IsQuiet env w
    → HasRoom tx w
    → validate_full c v tx w.dag w.ledger min_fee ≡ ok tt
    → (process c env v tx min_fee none none w s).result ≡ ok tt
unfolding process lock_and_apply apply_transaction confirm enqueue persist reward_step
    add_transaction_validated
process_succeeds c env v tx min_fee w s quiet room h =
    let parts = full_parts c v tx min_fee w h in
    let applied = validated_applies tx w.ledger min_fee parts.1 in
    ground (
      arith,
      quiet.saved
          (Ledger.validate_and_commit_nonce_internal
            (after w.ledger tx.sender tx.receiver tx.amount tx.fee) tx.sender tx.account_nonce).1,
      (validate-check tx w.dag).0 parts.0,
      (add_internal_iff w.mempool tx).0,
    )
