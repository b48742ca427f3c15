-- ===== src/Runs/Orphans.antt =====
-- A round over the orphans (`process_orphans` of src/rpc.rs) is a run of calls.
use aether_sedc.Prelude.{
  Bool, ℕ, refl, inl, inr, List, [], ◌∷◌, Option, if◌then◌else◌, Bool-cases, Result-cases, All,
  arith, ◌==◌,
}
use aether_sedc.Dict.{Dict, remove, insert, contains_key}
use aether_sedc.Transaction.{Transaction, Crypto}
use aether_sedc.Dag.{Dag}
use aether_sedc.Storage.{get_all_orphans, remove_orphan}
use aether_sedc.Rpc.{
  Node, Call, process_transaction, drop_orphan, is_done, is_resolved, resolved, load_orphans,
  retry_orphan, retry_orphans, process_orphans,
}
use aether_sedc.Runs.Steps.{Run, IsOrdinary, done, then_run, kept, submitted}
use aether_sedc.Rpc.Receiver.{Round, receive, orphan_round}
use aether_sedc.Runs.Once.{IsAmongRuns}

-- Every transaction of the map is ordinary.
abbrev pub AllOrdinary : Dict Transaction → Type 0
AllOrdinary orphans = All (λ e. IsOrdinary e.1) orphans

resolved-AllOrdinary :
    (d : Dag) (orphans : Dict Transaction) → AllOrdinary orphans → AllOrdinary (resolved d orphans)
resolved-AllOrdinary d [] h = tt
resolved-AllOrdinary d ((id, tx) ∷ orphans) h =
    let rest = resolved-AllOrdinary d orphans h.1 in
    elim (Bool-cases (is_resolved d tx)) [ inl r ↦ rw r (h.0, rest) | inr r ↦ rw r rest ]

insert-AllOrdinary :
    (id : ℕ) (tx : Transaction) (orphans : Dict Transaction)
    → IsOrdinary tx
    → AllOrdinary orphans
    → AllOrdinary (insert id tx orphans)
insert-AllOrdinary id tx [] o h = (o, tt)
insert-AllOrdinary id tx ((j, u) ∷ orphans) o h = elim (Bool-cases (j == id)) [
  | inl e ↦ rw e (o, h.1)
  | inr e ↦ rw e (h.0, insert-AllOrdinary id tx orphans o h.1)
]

load_orphans-AllOrdinary :
    (txs : List Transaction) (orphans : Dict Transaction)
    → All IsOrdinary txs
    → AllOrdinary orphans
    → AllOrdinary (load_orphans txs orphans)
load_orphans-AllOrdinary [] orphans t h = h
load_orphans-AllOrdinary (tx ∷ txs) orphans t h = elim (Bool-cases (contains_key tx.id orphans)) [
  | inl there ↦ rw there (load_orphans-AllOrdinary txs orphans t.1 h)
  | inr absent ↦ rw absent (
      load_orphans-AllOrdinary txs (insert tx.id tx orphans) t.1
        (insert-AllOrdinary tx.id tx orphans t.0 h))
]

module _ (c : Crypto) (miner : Option ℕ) where
  drop_orphan-Run :
      (readable : Bool) (id : ℕ) (n : Node) → Run c miner n (drop_orphan readable id n)
  unfolding remove_orphan
  drop_orphan-Run readable id n =
      kept (if readable then remove_orphan n.storage id else n.storage) (remove id n.orphans)
        (ground arith)

  retry_orphan-Run :
      (call : Call) (id : ℕ) (tx : Transaction) (n : Node)
      → IsAmongRuns c miner call
      → IsOrdinary tx
      → Run c miner n (retry_orphan c miner call id tx n)
  unfolding retry_orphan
  retry_orphan-Run call id tx n (others, inter) ordinary =
      let (result, n') = process_transaction c miner call tx n in
      let tried : Run c miner n n' = submitted call tx ordinary others inter in
      let waited : Run c miner n (call.others 2 n') = then_run tried (others 2 n') in
      elim (Bool-cases (is_done result)) [
        | inl e ↦
            rw e
              (then_run waited (drop_orphan-Run call.storage_readable_after id (call.others 2 n')))
        | inr e ↦ rw e waited
      ]

  retry_orphans-Run :
      (calls : ℕ → Call) (entries : Dict Transaction) (n : Node)
      → ((k : ℕ) → IsAmongRuns c miner (calls k))
      → AllOrdinary entries
      → Run c miner n (retry_orphans c miner calls entries n)
  unfolding retry_orphans
  retry_orphans-Run calls [] n among h = done
  retry_orphans-Run calls ((id, tx) ∷ rest) n among h =
      then_run (retry_orphan-Run (calls id) id tx n (among id) h.0)
        (retry_orphans-Run calls rest (retry_orphan c miner (calls id) id tx n) among h.1)

  -- A round over the orphans is a run, if what other tasks do in its waits is one, and the orphans
  -- in memory and on disk are ordinary.
  pub process_orphans-Run :
      (storage_readable : Bool) (others : Node → Node) (calls : ℕ → Call) (n : Node)
      → ((m : Node) → Run c miner m (others m))
      → ((k : ℕ) → IsAmongRuns c miner (calls k))
      → AllOrdinary n.orphans
      → All IsOrdinary (get_all_orphans n.storage)
      → Run c miner n (process_orphans c miner storage_readable others calls n)
  unfolding process_orphans
  process_orphans-Run storage_readable others calls n waits among ordinary on_disk =
      let orphans' =
        if storage_readable
        then load_orphans (get_all_orphans n.storage) n.orphans
        else n.orphans in
      let n' = record n { orphans = orphans' } in
      let ordinary' : AllOrdinary orphans' = elim (Bool-cases storage_readable) [
        | inl e ↦
            rw e (load_orphans-AllOrdinary (get_all_orphans n.storage) n.orphans on_disk ordinary)
        | inr e ↦ rw e ordinary
      ] in
      then_run (kept n.storage orphans' refl) (
        then_run (waits n') (
          retry_orphans-Run calls (resolved n.world.dag orphans') (others n') among
            (resolved-AllOrdinary n.world.dag orphans' ordinary')))

  -- What the node does with a transaction of the network is a run, if what other tasks do in its
  -- waits is one, and the transaction and the orphans are ordinary once the call is over.
  pub receive-Run :
      (call : Call) (round : Round) (tx : Transaction) (n : Node)
      → IsOrdinary tx
      → IsAmongRuns c miner call
      → ((m : Node) → Run c miner m (round.others m))
      → ((k : ℕ) → IsAmongRuns c miner (round.calls k))
      → AllOrdinary (process_transaction c miner call tx n).1.orphans
      → All IsOrdinary (get_all_orphans (process_transaction c miner call tx n).1.storage)
      → Run c miner n (receive c miner call round tx n)
  unfolding receive orphan_round
  receive-Run call round tx n ordinary (others, inter) waits among in_memory on_disk =
      let (result, n') = process_transaction c miner call tx n in
      let tried : Run c miner n n' = submitted call tx ordinary others inter in
      elim (Result-cases result) [
        | inl (_, e) ↦
            rw (e, receive, orphan_round)
              (then_run tried (
                process_orphans-Run round.storage_readable round.others round.calls n' waits among
                  in_memory on_disk))
        | inr (f, e) ↦ rw (e, receive) tried
      ]
