-- ===== src/Processor/Steps.antt =====
-- What the steps of `process` behind its locks (src/transaction_processor.rs) have done, by how they
-- ended.
use aether_sedc.Prelude.{ℕ, ◌≡◌, ◌⊎◌, inl, inr, Option, arith, ok, err, Result-cases, Bool-cases}
use aether_sedc.Consensus
use aether_sedc.Consensus.{ConsensusState, PendingReward}
use aether_sedc.Ledger
use aether_sedc.Ledger.{Ledger, fee_burn_address}
use aether_sedc.Ledger.Transfer.{after}
use aether_sedc.Ledger.Nonces.{committed}
use aether_sedc.Transaction.{Transaction}
use aether_sedc.Dag
use aether_sedc.Dag.{Dag, insert_transaction, check_transaction, add_transaction_validated}
use aether_sedc.Mempool
use aether_sedc.Processor.{
  Environment, World, Lock, dag_lock, ledger_lock, mempool_lock, ProcessingError, validation_failed,
  lock_error, ledger_error, dag_error, mempool_error, persistence_error, transfer_failed,
  nonce_commit_failed, reward_queue_failed, reward_step, reward_miner, persist, enqueue, confirm,
  apply_transaction, lock_and_apply,
}

-- An error that the call meets before the graph has taken the transaction.
abbrev pub IsEarly : ProcessingError → Type 0
IsEarly (validation_failed _) = Unit
IsEarly (lock_error _) = Unit
IsEarly (ledger_error (transfer_failed _)) = Unit
IsEarly (ledger_error (nonce_commit_failed _)) = Unit
IsEarly (ledger_error (reward_queue_failed _)) = ⊥
IsEarly (dag_error _) = Unit
IsEarly (mempool_error _) = ⊥
IsEarly persistence_error = ⊥

module _ (env : Environment) (tx : Transaction) (miner block_id : Option ℕ) (w : World)
    (s : ConsensusState) where
  -- The ledger after the transfer and the nonce.
  abbrev pub charged_ledger : Ledger
  charged_ledger =
      committed (after w.ledger tx.sender tx.receiver tx.amount tx.fee) tx.sender tx.account_nonce

  abbrev pub taken : World
  taken = record w { ledger = charged_ledger; dag = insert_transaction w.dag tx }

  -- Either nothing was written, or the transfer, the nonce and the graph have all succeeded and
  -- the call went on from there.
  pub apply_cases :
      ((e : ProcessingError) × ((apply_transaction env tx miner block_id w s).result ≡ err e)
        × IsEarly e
        × ((apply_transaction env tx miner block_id w s).world ≡ w)
        × ((apply_transaction env tx miner block_id w s).state ≡ s))
      ⊎ (((Ledger.transfer_internal w.ledger tx.sender tx.receiver tx.amount tx.fee).0 ≡ ok tt)
          × ((Ledger.validate_and_commit_nonce_internal
                (after w.ledger tx.sender tx.receiver tx.amount tx.fee)
                tx.sender
                tx.account_nonce).0
              ≡ ok tt)
          × (check_transaction w.dag tx ≡ ok tt)
          × (apply_transaction env tx miner block_id w s
              ≡ confirm env tx miner block_id w.ledger taken s))
  unfolding apply_transaction Dag.add_transaction_validated
  apply_cases =
      elim (Result-cases
        (Ledger.transfer_internal w.ledger tx.sender tx.receiver tx.amount tx.fee).0) [
          | inr (e, p) ↦
              inl (ledger_error (transfer_failed e), ground arith, tt, ground arith, ground arith)
          | inl (_, p) ↦
              elim (Result-cases
                (Ledger.validate_and_commit_nonce_internal
                  (after w.ledger tx.sender tx.receiver tx.amount tx.fee) tx.sender
                  tx.account_nonce).0) [
                    | inr (e, q) ↦ inl (
                      ledger_error (nonce_commit_failed e),
                      ground arith,
                      tt,
                      ground arith,
                      ground arith,
                    )
                    | inl (_, q) ↦ elim (Result-cases (check_transaction w.dag tx)) [
                      | inr (e, r) ↦ inl (dag_error e, ground arith, tt, ground arith, ground arith)
                      | inl (_, r) ↦ inr (p, q, r, ground arith)
                    ]
                  ]
        ]

  pub lock_cases :
      ((k : Lock) × (lock_and_apply env tx miner block_id w s
          ≡ record { result = err (lock_error k); world = w; state = s }))
      ⊎ (lock_and_apply env tx miner block_id w s ≡ apply_transaction env tx miner block_id w s)
  unfolding lock_and_apply
  lock_cases = elim (Bool-cases env.dag_free) [
    | inr h ↦ inl (dag_lock, ground arith)
    | inl h ↦ elim (Bool-cases env.ledger_free) [
      | inr h' ↦ inl (ledger_lock, ground arith)
      | inl h' ↦ elim (Bool-cases env.mempool_free) [
        | inr h'' ↦ inl (mempool_lock, ground arith)
        | inl h'' ↦ inr (ground arith)
      ]
    ]
  ]

  pub late_errors :
      (snapshot : Ledger) (u : World) (e : ProcessingError)
      → (confirm env tx miner block_id snapshot u s).result ≡ err e
      → ¬ IsEarly e
  unfolding confirm enqueue persist
  late_errors snapshot u e h early = ground arith

  pub confirm_dag :
      (snapshot : Ledger) (u : World)
      → (confirm env tx miner block_id snapshot u s).world.dag ≡ u.dag
  unfolding confirm enqueue persist
  confirm_dag snapshot u = ground arith

  pub confirm_ledger :
      (snapshot : Ledger) (u : World)
      → ((confirm env tx miner block_id snapshot u s).world.ledger ≡ snapshot)
        ⊎ ((confirm env tx miner block_id snapshot u s).world.ledger
            ≡ (reward_step tx miner block_id u.ledger s).1)
  unfolding confirm enqueue persist
  confirm_ledger snapshot u = ground arith

  -- A refusal by the mempool puts the ledger back, and keeps the state of the reward step.
  pub confirm_refused :
      (snapshot : Ledger) (u : World) (e : Mempool.RpcError)
      → (confirm env tx miner block_id snapshot u s).result ≡ err (mempool_error e)
      → ((confirm env tx miner block_id snapshot u s).world.ledger ≡ snapshot)
        × ((confirm env tx miner block_id snapshot u s).state
            ≡ (reward_step tx miner block_id u.ledger s).2)
  unfolding confirm enqueue persist
  confirm_refused snapshot u e h = ground arith

  pub confirm_done :
      (snapshot : Ledger) (u : World)
      → (confirm env tx miner block_id snapshot u s).result ≡ ok tt
      → (confirm env tx miner block_id snapshot u s).world.ledger
        ≡ (reward_step tx miner block_id u.ledger s).1
  unfolding confirm enqueue persist
  confirm_done snapshot u h = ground arith

  pub confirm_mempool :
      (snapshot : Ledger) (u : World)
      → ((confirm env tx miner block_id snapshot u s).world.mempool ≡ u.mempool)
        ⊎ ((confirm env tx miner block_id snapshot u s).world.mempool
            ≡ (Mempool.add_internal u.mempool tx).1)
  unfolding confirm enqueue persist
  confirm_mempool snapshot u = ground arith

  pub confirm_queued :
      (snapshot : Ledger) (u : World)
      → (confirm env tx miner block_id snapshot u s).result ≡ ok tt
      → ((confirm env tx miner block_id snapshot u s).world.mempool
          ≡ (Mempool.add_internal u.mempool tx).1)
        × ((Mempool.add_internal u.mempool tx).0 ≡ ok tt)
  unfolding confirm enqueue persist
  confirm_queued snapshot u h = (ground arith, ground arith)

  -- A refusal by the reward queue undoes nothing.
  pub confirm_unqueued :
      (snapshot : Ledger) (u : World) (e : Consensus.ConsensusError)
      → (confirm env tx miner block_id snapshot u s).result
        ≡ err (ledger_error (reward_queue_failed e))
      → ((confirm env tx miner block_id snapshot u s).world ≡ u)
  unfolding confirm enqueue persist reward_step reward_miner
  confirm_unqueued snapshot u e h = ground arith
