-- ===== src/Rpc/Accepted.antt =====
-- What a node says of a transaction that it has accepted, and what mining does with it (src/rpc.rs,
-- src/node.rs).
use aether_sedc.Prelude.{
  ℕ, ◌≡◌, ◌⊎◌, inl, inr, Bool, true, false, [], ◌∷◌, arith, if◌then◌else◌, member, Option, some,
  Result, ok, err, Bool-cases, List-cases,
}
use aether_sedc.Dict.{contains_key, contains_key-insert}
use aether_sedc.Transaction.{Transaction, Crypto}
use aether_sedc.Dag.Shape.{transactions_added}
use aether_sedc.Mempool.{set_min_fee, get_transaction_ids}
use aether_sedc.Mempool.Queue.{member-add_internal}
use aether_sedc.Validation
use aether_sedc.Validation.{TransactionValidator}
use aether_sedc.Processor.{Outcome, process}
use aether_sedc.Processor.Safety.{success_writes, success_queues}
use aether_sedc.Rpc.{
  Node, Call, Refusal, dag_locked, missing_parents, missing_of, store_orphan, submit, reply, settle,
  process_transaction,
}
use aether_sedc.Rpc.Status.{
  LocalStatus, ConsensusStatus, GlobalStatus, determine_transaction_status,
}

-- The node as the processor meets it.
abbrev pub ahead : Call → Node → Node
ahead call n =
    let n1 = call.others 0 n in
    call.others 1
      (record n1 { world = record n1.world { mempool = set_min_fee n1.world.mempool call.fee } })

module _ (c : Crypto) (miner : Option ℕ) (call : Call) (tx : Transaction) (n : Node) where
  abbrev processed : Result Refusal (Unit {0}) × Node
  processed = process_transaction c miner call tx n

  -- The processor's part of the call.
  abbrev out : Outcome
  out =
      process c call.env Validation.new tx call.fee miner (some tx.id) (ahead call n).world
        (ahead call n).state

  -- A call finds the graph locked, misses a parent, or goes on to the processor.
  pub processed_cases :
      ((missing_of n.world.dag tx ≡ [])
        × (call.dag_readable ≡ true)
        × (processed ≡ (reply out, settle call tx (ahead call n) out)))
      ⊎ (((e : Refusal) × (processed.0 ≡ err e))
          × ((processed.1 ≡ n) ⊎ (processed.1 ≡ store_orphan call tx n)))
  unfolding process_transaction submit
  processed_cases = elim (Bool-cases call.dag_readable) [
    | inr locked ↦ inr ((dag_locked, ground arith), inl (ground arith))
    | inl free ↦ elim (List-cases (missing_of n.world.dag tx)) [
      | inl none_missing ↦ inl (none_missing, free, ground arith)
      | inr (p, rest, e) ↦ inr ((missing_parents (p ∷ rest), ground arith), inr (ground arith))
    ]
  ]

  stored_and_queued :
      processed.0 ≡ ok tt
      → (contains_key tx.id processed.1.world.dag.transactions ≡ true)
        × (member tx.id (get_transaction_ids processed.1.world.mempool) ≡ true)
  stored_and_queued h = elim processed_cases [
    | inr ((e, p), _) ↦ absurd (ground arith)
    | inl (_, _, p) ↦
        let w = (ahead call n).world in
        let s = (ahead call n).state in
        let done : out.result ≡ ok tt = ground arith in
        let writes =
          success_writes c call.env Validation.new tx call.fee miner (some tx.id) w s done in
        let queues =
          success_queues c call.env Validation.new tx call.fee miner (some tx.id) w s done in
        let d = (call.env.interleaved w).dag in
        let m = (call.env.interleaved w).mempool in
        (
          rw (p, writes.0, transactions_added d tx)
              (ground (arith, contains_key-insert tx.id tx.id tx d.transactions)),
          rw (p, queues.0) (member-add_internal m tx queues.1),
        )
  ]

  -- A transaction that a call has accepted is in the graph, while its status says that it waits in
  -- the mempool, unconfirmed and pending, or, if it is among the orphans, that it is one.
  pub accepted_is_pending :
      (is_stable : ℕ → Bool)
      → processed.0 ≡ ok tt
      → (contains_key tx.id processed.1.world.dag.transactions ≡ true)
        × (determine_transaction_status is_stable processed.1 tx.id ≡ record {
          local_status =
              if contains_key tx.id processed.1.orphans
              then LocalStatus.orphan
              else LocalStatus.in_mempool;
          consensus_status = ConsensusStatus.unconfirmed;
          global_status = GlobalStatus.pending;
          practically_final = false;
        })
  unfolding determine_transaction_status
  accepted_is_pending is_stable h =
      let (stored, queued) = stored_and_queued h in (stored, ground (arith, queued))
