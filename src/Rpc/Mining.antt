-- ===== src/Rpc/Mining.antt =====
-- The mining task of src/node.rs never changes the graph: whatever the mempool holds is already there.
use mathlib.Core.Path.{subst}
use aether_sedc.Storage.{put_orphan}
use aether_sedc.Prelude.{
  ℕ, ◌≡◌, inl, inr, Bool, true, List, arith, if◌then◌else◌, All, All-mono, Option, some, List-cases,
}
use aether_sedc.Dict.{contains_key, contains_key-insert}
use aether_sedc.Transaction.{Transaction, Crypto}
use aether_sedc.Dag.{Dag, insert_transaction, check_transaction, add_transaction_validated}
use aether_sedc.Dag.Shape.{transactions_added}
use aether_sedc.Mempool.{set_min_fee, pop_front}
use aether_sedc.Mempool.Queue.{add_internal-All}
use aether_sedc.Validation
use aether_sedc.Consensus.{ConsensusState}
use aether_sedc.Processor.{World, Environment, process}
use aether_sedc.Processor.Safety.{world_cases}
use aether_sedc.Rpc.{Node, Call, store_orphan, process_transaction}
use aether_sedc.Rpc.Status.{mine_one}
use aether_sedc.Rpc.Accepted.{processed_cases, ahead}

-- Whatever the mempool holds, the graph holds.
abbrev pub IsQueuedInGraph : World → Type 0
IsQueuedInGraph w = All (λ t. contains_key t.id w.dag.transactions ≡ true) w.mempool.queue

-- The queue stays in the graph when a transaction is added to both, or to the graph.
added_stays :
    (d : Dag) (tx : Transaction) (queue : List Transaction)
    → All (λ t. contains_key t.id d.transactions ≡ true) queue
    → All (λ t. contains_key t.id (insert_transaction d tx).transactions ≡ true) queue
added_stays d tx queue h = rw (transactions_added d tx) (
    All-mono _ _ queue (λ t held. ground (arith, contains_key-insert t.id tx.id tx d.transactions))
      h)

added_there :
    (d : Dag) (tx : Transaction) → contains_key tx.id (insert_transaction d tx).transactions ≡ true
added_there d tx =
    rw (transactions_added d tx) (ground (arith, contains_key-insert tx.id tx.id tx d.transactions))

refused_again :
    (d : Dag) (tx : Transaction)
    → contains_key tx.id d.transactions ≡ true
    → (add_transaction_validated d tx).1 ≡ d
unfolding add_transaction_validated check_transaction
refused_again d tx h = ground arith

-- The processor puts what it queues into the graph.
pub processor_keeps :
    (c : Crypto) (env : Environment) (tx : Transaction) (fee : ℕ) (miner : Option ℕ) (w : World)
    (s : ConsensusState)
    → IsQueuedInGraph w
    → IsQueuedInGraph (env.interleaved w)
    → IsQueuedInGraph (process c env Validation.new tx fee miner (some tx.id) w s).world
processor_keeps c env tx fee miner w s start locked =
    let u = env.interleaved w in
    elim (world_cases c env Validation.new tx fee miner (some tx.id) w s) [
      | inl same ↦ rw same start
      | inr (inl same) ↦ rw same locked
      | inr (inr (grown, inl queue)) ↦
          rw (grown, queue) (added_stays u.dag tx u.mempool.queue locked)
      | inr (inr (grown, inr queue)) ↦
          rw (grown, queue)
            (add_internal-All
              (λ t. contains_key t.id (insert_transaction u.dag tx).transactions ≡ true) u.mempool
              tx (added_stays u.dag tx u.mempool.queue locked) (added_there u.dag tx))
    ]

pub mine_one-dag :
    (storage_readable : Bool) (n : Node)
    → IsQueuedInGraph n.world
    → ((mine_one storage_readable n).world.dag ≡ n.world.dag)
      × IsQueuedInGraph (mine_one storage_readable n).world
unfolding mine_one pop_front
mine_one-dag storage_readable n h = elim (List-cases n.world.mempool.queue) [
  | inl e ↦ (ground arith, rw e tt)
  | inr (t, ts, e) ↦
      let (held, rest) : (contains_key t.id n.world.dag.transactions ≡ true)
          × All (λ u. contains_key u.id n.world.dag.transactions ≡ true) ts =
        subst (All (λ u. contains_key u.id n.world.dag.transactions ≡ true)) e h in
      let same = refused_again n.world.dag t held in (rw e same, rw (e, same) rest)
]

module _ (c : Crypto) (miner : Option ℕ) (call : Call) (tx : Transaction) (n : Node)
    (others_keep : (gap : ℕ) (m : Node)
      → IsQueuedInGraph m.world
      → IsQueuedInGraph (call.others gap m).world)
    (interleaved_keeps : (w : World)
      → IsQueuedInGraph w
      → IsQueuedInGraph (call.env.interleaved w)) where
  processed_keeps :
      IsQueuedInGraph n.world → IsQueuedInGraph (process_transaction c miner call tx n).1.world
  unfolding store_orphan set_min_fee
  processed_keeps h = elim (processed_cases c miner call tx n) [
    | inr (_, inl e) ↦ rw e h
    | inr (_, inr e) ↦ rw e (
        others_keep 0
          (record n {
            storage = if call.storage_readable then put_orphan n.storage tx.id tx else n.storage;
          })
          h)
    | inl (_, _, e) ↦
        let w = (ahead call n).world in
        let start : IsQueuedInGraph w =
          others_keep 1
            (record (call.others 0 n) {
              world = record (call.others 0 n).world {
                mempool = set_min_fee (call.others 0 n).world.mempool call.fee;
              };
            })
            (others_keep 0 n h) in
        rw e (
          processor_keeps c call.env tx call.fee miner w (ahead call n).state start
            (interleaved_keeps w start))
  ]

  -- If the graph holds whatever the mempool holds, and other tasks keep that, a call of
  -- `process_transaction` keeps it, and a round of mining after the call changes nothing of the
  -- graph and keeps it too.
  pub process_transaction-IsQueuedInGraph :
      (storage_readable : Bool)
      → IsQueuedInGraph n.world
      → let n' = (process_transaction c miner call tx n).1 in
        IsQueuedInGraph n'.world
        × ((mine_one storage_readable n').world.dag ≡ n'.world.dag)
        × IsQueuedInGraph (mine_one storage_readable n').world
  process_transaction-IsQueuedInGraph storage_readable h =
      let kept = processed_keeps h in
      let mined = mine_one-dag storage_readable (process_transaction c miner call tx n).1 kept in
      (kept, mined.0, mined.1)
