-- ===== src/Runs/Restart.antt =====
-- A start of the node after a run (src/transaction_processor.rs, src/rpc.rs, src/node.rs).
use mathlib.Core.Path.{subst}
use aether_sedc.Prelude.{
  ℕ, ◌≡◌, ◌⊎◌, sym, inl, inr, Bool, true, [], arith, Option, some, ok, err, Has, Option-cases,
}
use aether_sedc.Consensus.{ConsensusState}
use aether_sedc.Dict.{insert, lookup}
use aether_sedc.Transaction.{Transaction, Crypto}
use aether_sedc.Dag.{Dag, insert_transaction}
use aether_sedc.Mempool.{set_min_fee, pop_front}
use aether_sedc.Storage.{
  Storage, values, get_all_transactions, get_all_orphans, put_transaction, put_consensus_state,
  put_mempool_tx, remove_mempool_tx,
}
use aether_sedc.Validation
use aether_sedc.Processor.{ProcessingError, process, persist_transaction}
use aether_sedc.Processor.Steps.{IsEarly, taken, confirm_dag, late_errors}
use aether_sedc.Processor.Safety.{process_cases}
use aether_sedc.Rpc.{Node, Call, written}
use aether_sedc.Rpc.Status.{mine_one}
use aether_sedc.Rpc.Mining.{IsQueuedInGraph, processor_keeps, mine_one-dag}
use aether_sedc.Node.{add_absent, all_transactions, rebuild}
use aether_sedc.Node.Restart.{rebuild-grown}
use aether_sedc.Runs.Steps.{RunOf, IsOrdinary}
use aether_sedc.Runs.Induction.{processed, run-respects}
use aether_sedc.Runs.Mirrors.{Mirrors, Mirrors-added, Mirrors-same, mirrored_lists}

-- The processor's call succeeds and the database takes the transaction, or it stops before the graph
-- has it.
abbrev pub Faultless : Crypto → Option ℕ → Call → Transaction → Node → Type 0
Faultless c miner call tx n =
    IsOrdinary tx
    × (call.env.transaction_stored ≡ true)
    × (let result =
          (process c call.env Validation.new tx call.fee miner (some tx.id) n.world
            n.state).result in
        (result ≡ ok tt) ⊎ ((e : ProcessingError) × (result ≡ err e) × IsEarly e))

-- The database has the transactions of the graph, and the graph those of the mempool.
abbrev pub IsRestorable : Node → Type 0
IsRestorable n = Mirrors n.world.dag n.storage × IsQueuedInGraph n.world

written-transactions :
    (call : Call) (n : Node) (tx : Transaction) (s : ConsensusState)
    → call.env.transaction_stored ≡ true
    → (written call tx s n.storage).transactions ≡ insert tx.id tx n.storage.transactions
unfolding written persist_transaction put_transaction put_consensus_state put_mempool_tx
written-transactions call n tx s h = ground arith

mine_one-transactions :
    (readable : Bool) (n : Node)
    → (mine_one readable n).storage.transactions ≡ n.storage.transactions
unfolding mine_one remove_mempool_tx
mine_one-transactions readable n = elim (Option-cases (pop_front n.world.mempool).0) [
  | inl e ↦ ground arith
  | inr (t, e) ↦ ground arith
]

mine_one-IsRestorable :
    (readable : Bool) (n : Node) → IsRestorable n → IsRestorable (mine_one readable n)
mine_one-IsRestorable readable n (m, queued) =
    let (same, still) = mine_one-dag readable n queued in
    (
      rw same (
          Mirrors-same n.world.dag n.storage (mine_one readable n).storage
            (mine_one-transactions readable n) m),
      still,
    )

module _ (c : Crypto) (miner : Option ℕ) where
  processed-Mirrors :
      (call : Call) (tx : Transaction) (n : Node)
      → Faultless c miner call tx n
      → Mirrors n.world.dag n.storage
      → Mirrors (call.env.interleaved n.world).dag n.storage
      → Mirrors (processed c miner call tx n).world.dag (processed c miner call tx n).storage
  processed-Mirrors call tx n ((nonzero, _, _), takes, good) m locked =
      let w = call.env.interleaved n.world in
      elim (process_cases c call.env Validation.new tx call.fee miner (some tx.id) n.world
        n.state) [
          | inl (e, failed, _, inl same, _) ↦ rw (same, failed) m
          | inl (e, failed, _, inr same, _) ↦ rw (same, failed) locked
          | inr (_, _, checked, p) ↦
              let t = taken call.env tx miner (some tx.id) w n.state in
              let out =
                process c call.env Validation.new tx call.fee miner (some tx.id) n.world n.state in
              let done : out.result ≡ ok tt = elim good [
                | inl e ↦ e
                | inr (e, failed, early) ↦ absurd (
                    late_errors call.env tx miner (some tx.id) w n.state w.ledger t e (ground arith)
                      early)
              ] in
              let grown : out.world.dag ≡ insert_transaction w.dag tx =
                ground (arith, confirm_dag call.env tx miner (some tx.id) w n.state w.ledger t) in
              rw (grown, done)
                (Mirrors-added w.dag n.storage (written call tx out.state n.storage) tx nonzero
                  checked (written-transactions call n tx out.state takes) locked)
        ]

  -- A faultless run keeps the database in step with the graph.
  pub run-IsRestorable :
      {n m : Node} → RunOf (Faultless c miner) c miner n m → IsRestorable n → IsRestorable m
  unfolding set_min_fee
  run-IsRestorable =
      run-respects (Faultless c miner) c miner (λ n m. IsRestorable n → IsRestorable m)
        (record {
          stays = λ n h. h;
          joins = λ n m k r s h. s (r h);
          at_kept = λ n storage orphans same h.
              (Mirrors-same n.world.dag n.storage storage same h.0, h.1);
          at_repriced = λ n fee h. h;
          at_mined = λ n readable. mine_one-IsRestorable readable n;
          at_processed = λ call tx n faultless inter h. (
            processed-Mirrors call tx n faultless h.0 (inter h).0,
            processor_keeps c call.env tx call.fee miner n.world n.state h.1 (inter h).1,
          );
        })

-- With no orphan on disk and no dag.json, a start reads the transactions of the database.
reads_transactions : (s : Storage) → s.orphans ≡ [] → all_transactions s [] ≡ values s.transactions
unfolding all_transactions add_absent get_all_transactions get_all_orphans
reads_transactions s h = ground arith

-- A start from a database in step with a graph rebuilds that graph.
pub restart-Mirrors :
    (d : Dag) (s : Storage)
    → Mirrors d s
    → s.orphans ≡ []
    → let (d', orphans) = rebuild (all_transactions s []) in
      ((k : ℕ) → lookup k d'.transactions ≡ lookup k d.transactions) × (orphans ≡ [])
restart-Mirrors d s m h =
    let (only, all) = mirrored_lists d s m in
    rw (reads_transactions s h) (
      subst
        (λ g.
          ((tx : Transaction)
            → Has tx (values s.transactions)
            → lookup tx.id g.transactions ≡ some tx)
          → ((k : ℕ) (tx : Transaction)
              → lookup k g.transactions ≡ some tx
              → Has tx (values s.transactions))
          → ((k : ℕ)
              → lookup k (rebuild (values s.transactions)).0.transactions ≡ lookup k g.transactions)
            × ((rebuild (values s.transactions)).1 ≡ []))
        (sym m.grown) (rebuild-grown m.order (values s.transactions) m.nonzero) only all)

-- Whatever a node runs through, a start afterwards rebuilds its graph and leaves no orphan: from a
-- node whose graph has grown from the empty one, whose database has the transactions of the graph,
-- and whose graph has those of the mempool. The run is of calls of `process_transaction` with
-- transactions that are not the genesis and spare the burn address, of rounds of mining, and of
-- writes of the orphans and of all of the database but its transactions, in any order; a call's
-- transaction is stored when the processor succeeds, and when the processor fails it stops before
-- the graph has taken the transaction. No orphan is on disk at the start, and no dag.json is there.
pub run-restart :
    (c : Crypto) (miner : Option ℕ) {n m : Node}
    → RunOf (Faultless c miner) c miner n m
    → IsRestorable n
    → m.storage.orphans ≡ []
    → let (d, orphans) = rebuild (all_transactions m.storage []) in
      ((k : ℕ) → lookup k d.transactions ≡ lookup k m.world.dag.transactions) × (orphans ≡ [])
run-restart c miner {n} {m} run start none_left =
    restart-Mirrors m.world.dag m.storage (run-IsRestorable c miner run start).0 none_left
