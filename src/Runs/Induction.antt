-- ===== src/Runs/Induction.antt =====
-- Induction over the runs of a node, with a call of `process_transaction` (src/rpc.rs) taken apart
-- into its waits and the call of the processor.
use mathlib.Core.Path.{subst}
use aether_sedc.Prelude.{ℕ, ◌≡◌, sym, refl, inl, inr, Bool, Option, some, arith, if◌then◌else◌}
use aether_sedc.Dict.{Dict, insert}
use aether_sedc.Transaction.{Transaction, Crypto}
use aether_sedc.Mempool.{set_min_fee}
use aether_sedc.Storage.{Storage, put_orphan}
use aether_sedc.Validation
use aether_sedc.Processor.{process}
use aether_sedc.Rpc.{Node, Call, settle, store_orphan, process_transaction}
use aether_sedc.Rpc.Status.{mine_one}
use aether_sedc.Rpc.Accepted.{processed_cases, ahead}
use aether_sedc.Runs.Steps.{RunOf, done, then_run, kept, mined, submitted}

-- What the processor makes of a node, other tasks included.
abbrev pub processed : Crypto → Option ℕ → Call → Transaction → Node → Node
processed c miner call tx n =
    settle call tx n
      (process c call.env Validation.new tx call.fee miner (some tx.id) n.world n.state)

abbrev pub repriced : ℕ → Node → Node
repriced fee n = record n { world = record n.world { mempool = set_min_fee n.world.mempool fee } }

-- A relation that every task of a node respects.
pub record Respects (Q : Call → Transaction → Node → Type 0) (c : Crypto) (miner : Option ℕ)
    (R : Node → Node → Type 0) : Type 0 where
  pub stays : (n : Node) → R n n
  pub joins : (n m k : Node) → R n m → R m k → R n k
  pub at_kept :
      (n : Node) (storage : Storage) (orphans : Dict Transaction)
      → storage.transactions ≡ n.storage.transactions
      → R n (record n { storage = storage; orphans = orphans })
  pub at_repriced : (n : Node) (fee : ℕ) → R n (repriced fee n)
  pub at_mined : (n : Node) (readable : Bool) → R n (mine_one readable n)
  pub at_processed :
      (call : Call) (tx : Transaction) (n : Node)
      → Q call tx n
      → R n (record n { world = call.env.interleaved n.world })
      → R n (processed c miner call tx n)

module _ (Q : Call → Transaction → Node → Type 0) (c : Crypto) (miner : Option ℕ)
    (R : Node → Node → Type 0) (respects : Respects Q c miner R) where
  pub submitted-respects :
      (call : Call) (tx : Transaction) (n : Node)
      → Q call tx (ahead call n)
      → ((gap : ℕ) (m : Node) → R m (call.others gap m))
      → ((m : Node) → R m (record m { world = call.env.interleaved m.world }))
      → R n (process_transaction c miner call tx n).1
  unfolding store_orphan put_orphan
  submitted-respects call tx n admitted others inter = elim (processed_cases c miner call tx n) [
    | inr (_, inl e) ↦ subst (R n) (sym e) (respects.stays n)
    | inr (_, inr e) ↦
        let storage' = if call.storage_readable then put_orphan n.storage tx.id tx else n.storage in
        let waiting = record n { storage = storage' } in
        let waited = call.others 0 waiting in
        subst (R n) (sym e) (
          respects.joins n waited _
            (respects.joins n waiting waited (respects.at_kept n storage' n.orphans (ground arith))
              (others 0 waiting))
            (respects.at_kept waited waited.storage (insert tx.id tx waited.orphans) refl))
    | inl (_, _, e) ↦
        let n1 = call.others 0 n in
        let n2 = repriced call.fee n1 in
        let start = ahead call n in
        subst (R n) (sym (ground arith)) (
          respects.joins n start (processed c miner call tx start)
            (respects.joins n n1 start (others 0 n)
              (respects.joins n1 n2 start (respects.at_repriced n1 call.fee) (others 1 n2)))
            (respects.at_processed call tx start admitted (inter start)))
  ]

  -- A relation that every task respects relates both ends of a run.
  pub run-respects : {n m : Node} → RunOf Q c miner n m → R n m
  run-respects (done {n}) = respects.stays n
  run-respects (then_run {n} {m} {k} r s) = respects.joins n m k (run-respects r) (run-respects s)
  run-respects (kept {n} storage orphans same) = respects.at_kept n storage orphans same
  run-respects (mined {n} readable) = respects.at_mined n readable
  run-respects (submitted {n} call tx admitted others inter) =
      submitted-respects call tx n admitted (λ gap m. run-respects (others gap m))
        (λ m. run-respects (inter m))
