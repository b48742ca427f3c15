-- ===== src/Processor/Safety.antt =====
-- What a call of `process` (src/transaction_processor.rs) has done, by how it ended.
use aether_sedc.Prelude.{ℕ, ◌≡◌, ◌≢◌, ◌⊎◌, inl, inr, true, Option, arith, ok, err, Result-cases}
use aether_sedc.Dict.{contains_key, contains_key-insert}
use aether_sedc.Consensus
use aether_sedc.Consensus.{ConsensusState, PendingReward}
use aether_sedc.Ledger
use aether_sedc.Ledger.{Ledger, fee_burn_address}
use aether_sedc.Ledger.Transfer.{after}
use aether_sedc.Ledger.Nonces.{committed}
use aether_sedc.Transaction.{Transaction, Crypto}
use aether_sedc.Dag.{insert_transaction, check_transaction}
use aether_sedc.Dag.Shape.{transactions_added}
use aether_sedc.Validation.{TransactionValidator, validate_full}
use aether_sedc.Validation.Accepts.{validate_full_iff}
use aether_sedc.Mempool
use aether_sedc.Processor.{
  Environment, World, Outcome, ProcessingError, validation_failed, lock_error, ledger_error,
  mempool_error, reward_queue_failed, reward_step, confirm, process,
}
use aether_sedc.Processor.Steps.{
  IsEarly, charged_ledger, taken, apply_cases, lock_cases, late_errors, confirm_dag,
  confirm_refused, confirm_done, confirm_queued, confirm_mempool, confirm_unqueued,
}

module _ (c : Crypto) (env : Environment) (v : TransactionValidator) (tx : Transaction)
    (min_fee : ℕ) (miner block_id : Option ℕ) (w : World) (s : ConsensusState) where
  abbrev pub outcome : Outcome
  outcome = process c env v tx min_fee miner block_id w s

  -- What the locks guard when they are taken.
  abbrev pub locked : World
  locked = env.interleaved w

  -- A call returned before it wrote, or the graph took the transaction.
  pub process_cases :
      ((e : ProcessingError) × (outcome.result ≡ err e)
        × IsEarly e
        × ((outcome.world ≡ w) ⊎ (outcome.world ≡ locked))
        × (outcome.state ≡ s))
      ⊎ (((Ledger.transfer_internal locked.ledger tx.sender tx.receiver tx.amount tx.fee).0 ≡ ok tt)
          × ((Ledger.validate_and_commit_nonce_internal
                (after locked.ledger tx.sender tx.receiver tx.amount tx.fee)
                tx.sender
                tx.account_nonce).0
              ≡ ok tt)
          × (check_transaction locked.dag tx ≡ ok tt)
          × (outcome
              ≡ confirm env tx miner block_id locked.ledger
                  (taken env tx miner block_id locked s)
                  s))
  unfolding process
  process_cases = elim (Result-cases (validate_full c v tx w.dag w.ledger min_fee)) [
    | inr (e, p) ↦ inl (validation_failed e, ground arith, tt, ground arith, ground arith)
    | inl (_, p) ↦ elim (lock_cases env tx miner block_id locked s) [
      | inl (k, q) ↦ inl (lock_error k, ground arith, tt, ground arith, ground arith)
      | inr q ↦ elim (apply_cases env tx miner block_id locked s) [
        | inl (e, r, early, same_world, same_state) ↦
            inl (e, ground arith, early, ground arith, ground arith)
        | inr (moved, committed, checked, r) ↦ inr (moved, committed, checked, ground arith)
      ]
    ]
  ]

  -- A call that fails in validation, at a lock, or in the transfer, the nonce or the graph leaves
  -- the consensus state as it was, and what the locks guard as other tasks left it.
  pub early_error_keeps :
      (e : ProcessingError)
      → outcome.result ≡ err e
      → IsEarly e
      → ((outcome.world ≡ w) ⊎ (outcome.world ≡ locked)) × (outcome.state ≡ s)
  early_error_keeps e h early = elim process_cases [
    | inl (f, p, _, same_world, same_state) ↦ (same_world, same_state)
    | inr (_, _, _, p) ↦ absurd (
        late_errors env tx miner block_id locked s locked.ledger
          (taken env tx miner block_id locked s) e (ground arith) early)
  ]

  -- Where the call did not stop early, the graph holds the transaction.
  pub stored_unless-IsEarly :
      ((e : ProcessingError) × (outcome.result ≡ err e) × IsEarly e)
      ⊎ (contains_key tx.id outcome.world.dag.transactions ≡ true)
  stored_unless-IsEarly = elim process_cases [
    | inl (e, p, early, _, _) ↦ inl (e, p, early)
    | inr (_, _, _, p) ↦ inr (
        ground (
          arith,
          confirm_dag env tx miner block_id locked s locked.ledger
              (taken env tx miner block_id locked s),
          transactions_added locked.dag tx,
          contains_key-insert tx.id tx.id tx locked.dag.transactions,
        ))
  ]

  -- A transaction that the graph holds is refused in validation, and nothing is written.
  pub refused_if_stored :
      contains_key tx.id w.dag.transactions ≡ true
      → (outcome.result ≢ ok tt) × (outcome.world ≡ w) × (outcome.state ≡ s)
  unfolding process
  refused_if_stored h = elim (Result-cases (validate_full c v tx w.dag w.ledger min_fee)) [
    | inl (_, p) ↦
        let fresh = ((validate_full_iff c v tx w.dag w.ledger min_fee).0 p).1.0 in
        absurd (ground arith)
    | inr (e, p) ↦ (ground arith, ground arith, ground arith)
  ]

  -- What a call has written when it succeeds: the graph holds the transaction, having passed the
  -- graph's checks, and the ledger holds the transfer, the nonce and, with a miner, the rewards.
  pub success_writes :
      outcome.result ≡ ok tt
      → (outcome.world.dag ≡ insert_transaction locked.dag tx)
        × (outcome.world.ledger
            ≡ (reward_step tx miner block_id (charged_ledger env tx miner block_id locked s) s).1)
        × (check_transaction locked.dag tx ≡ ok tt)
  success_writes h = elim process_cases [
    | inl (e, p, _, _, _) ↦ absurd (ground arith)
    | inr (_, _, checked, p) ↦
        let u = taken env tx miner block_id locked s in
        (
          ground (arith, confirm_dag env tx miner block_id locked s locked.ledger u),
          ground (arith, confirm_done env tx miner block_id locked s locked.ledger u),
          checked,
        )
  ]

  -- What a call can leave of the graph and the mempool.
  pub world_cases :
      (outcome.world ≡ w)
      ⊎ ((outcome.world ≡ locked)
          ⊎ ((outcome.world.dag ≡ insert_transaction locked.dag tx)
              × ((outcome.world.mempool ≡ locked.mempool)
                  ⊎ (outcome.world.mempool ≡ (Mempool.add_internal locked.mempool tx).1))))
  world_cases = elim process_cases [
    | inl (e, p, _, inl same, _) ↦ inl same
    | inl (e, p, _, inr same, _) ↦ inr (inl same)
    | inr (_, _, _, p) ↦
        let u = taken env tx miner block_id locked s in
        inr (
          inr (
            ground (arith, confirm_dag env tx miner block_id locked s locked.ledger u),
            ground (arith, confirm_mempool env tx miner block_id locked s locked.ledger u),
          ))
  ]

  -- A successful call has put the transaction into the mempool.
  pub success_queues :
      outcome.result ≡ ok tt
      → (outcome.world.mempool ≡ (Mempool.add_internal locked.mempool tx).1)
        × ((Mempool.add_internal locked.mempool tx).0 ≡ ok tt)
  success_queues h = elim process_cases [
    | inl (e, p, _, _, _) ↦ absurd (ground arith)
    | inr (_, _, _, p) ↦
        let u = taken env tx miner block_id locked s in
        let queued = confirm_queued env tx miner block_id locked s locked.ledger u (ground arith) in
        (ground (arith, queued.0), queued.1)
  ]

  -- A call that the mempool refuses has put the ledger back, and leaves the graph with the
  -- transaction and the consensus state with the rewards it settled.
  pub mempool_refusal :
      (e : Mempool.RpcError)
      → outcome.result ≡ err (mempool_error e)
      → (outcome.world.ledger ≡ locked.ledger)
        × (contains_key tx.id outcome.world.dag.transactions ≡ true)
        × (outcome.state
            ≡ (reward_step tx miner block_id (charged_ledger env tx miner block_id locked s) s).2)
  mempool_refusal e h = elim process_cases [
    | inl (f, p, early, _, _) ↦ absurd (ground arith)
    | inr (_, _, _, p) ↦
        let u = taken env tx miner block_id locked s in
        (
          ground (arith, confirm_refused env tx miner block_id locked s locked.ledger u e),
          ground (
            arith,
            confirm_dag env tx miner block_id locked s locked.ledger u,
            transactions_added locked.dag tx,
            contains_key-insert tx.id tx.id tx locked.dag.transactions,
          ),
          ground (arith, confirm_refused env tx miner block_id locked s locked.ledger u e),
        )
  ]

  -- A call that the reward queue refuses reports an error, and has carried out the transfer and the
  -- nonce and put the transaction into the graph all the same.
  pub queue_refusal :
      (e : Consensus.ConsensusError)
      → outcome.result ≡ err (ledger_error (reward_queue_failed e))
      → outcome.world ≡ taken env tx miner block_id locked s
  queue_refusal e h = elim process_cases [
    | inl (f, p, early, _, _) ↦ absurd (ground arith)
    | inr (_, _, _, p) ↦
        let u = taken env tx miner block_id locked s in
        ground (arith, confirm_unqueued env tx miner block_id locked s locked.ledger u e)
  ]
