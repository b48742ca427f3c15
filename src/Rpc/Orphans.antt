-- ===== src/Rpc/Orphans.antt =====
-- What becomes of an orphan (`process_transaction` and `process_orphans` of src/rpc.rs).
use aether_sedc.Prelude.{
  ℕ, ◌≡◌, ◌≢◌, ◌⊎◌, inl, inr, Bool, true, false, arith, ◌==◌, if◌then◌else◌, Option, some, err,
}
use aether_sedc.Dict.{contains_key, insert, lookup-insert, contains_key-insert, contains_key-remove}
use aether_sedc.Transaction.{Transaction, Crypto}
use aether_sedc.Dag.{is_missing}
use aether_sedc.Storage.{put_orphan, get_orphan}
use aether_sedc.Mempool.{set_min_fee}
use aether_sedc.Rpc.Accepted.{processed_cases}
use aether_sedc.Rpc.{
  Node, Call, missing_parents, missing_of, store_orphan, process_transaction, drop_orphan, is_done,
  retry_orphan,
}

-- If the graph can be read and other tasks leave the call alone, a transaction with a missing
-- parent is refused for its missing parents and kept as an orphan, whatever else it holds: in
-- memory, and on disk if the storage was free; the graph, the ledger, the mempool and the
-- consensus state stay.
pub missing_parent_is_stored :
    (c : Crypto) (miner : Option ℕ) (call : Call) (tx : Transaction) (n : Node)
    → call.dag_readable ≡ true
    → (is_missing n.world.dag tx.parents.0 ≡ true) ⊎ (is_missing n.world.dag tx.parents.1 ≡ true)
    → ((gap : ℕ) (m : Node) → call.others gap m ≡ m)
    → let (result, n') = process_transaction c miner call tx n in
      (result ≡ err (missing_parents (missing_of n.world.dag tx)))
      × (n'.orphans ≡ insert tx.id tx n.orphans)
      × (call.storage_readable ≡ true → get_orphan n'.storage tx.id ≡ some tx)
      × (n'.world ≡ n.world)
      × (n'.state ≡ n.state)
unfolding process_transaction store_orphan get_orphan put_orphan missing_of
missing_parent_is_stored c miner call tx n free miss alone =
    let storage' = if call.storage_readable then put_orphan n.storage tx.id tx else n.storage in
    let same = alone 0 (record n { storage = storage' }) in
    let stored = lookup-insert tx.id tx.id tx n.storage.orphans in
    (
      ground (arith, same),
      ground (arith, same),
      λ readable. ground (arith, same, stored),
      ground (arith, same),
      ground (arith, same),
    )

contains_key-drop :
    (readable : Bool) (j id : ℕ) (n : Node)
    → contains_key j (drop_orphan readable id n).orphans
      ≡ (if id == j then false else contains_key j n.orphans)
contains_key-drop readable j id n = contains_key-remove j id n.orphans

-- Processing a transaction loses no orphan, if other tasks lose none.
process_transaction_keeps :
    (c : Crypto) (miner : Option ℕ) (call : Call) (tx : Transaction) (n : Node) (j : ℕ)
    → ((gap : ℕ) (m : Node)
        → contains_key j m.orphans ≡ true
        → contains_key j (call.others gap m).orphans ≡ true)
    → contains_key j n.orphans ≡ true
    → contains_key j (process_transaction c miner call tx n).1.orphans ≡ true
unfolding store_orphan
process_transaction_keeps c miner call tx n j keep h = elim (processed_cases c miner call tx n) [
  | inr (_, inl e) ↦ rw e h
  | inr (_, inr e) ↦
      let storage' = if call.storage_readable then put_orphan n.storage tx.id tx else n.storage in
      let waited = call.others 0 (record n { storage = storage' }) in
      let there = keep 0 (record n { storage = storage' }) h in
      rw e (ground (arith, contains_key-insert j tx.id tx waited.orphans))
  | inl (_, _, e) ↦ rw e (
      keep 1
        (record (call.others 0 n) {
          world = record (call.others 0 n).world {
            mempool = set_min_fee (call.others 0 n).world.mempool call.fee;
          };
        })
        (keep 0 n h))
]

pub retry_orphan_keeps :
    (c : Crypto) (miner : Option ℕ) (call : Call) (id : ℕ) (tx : Transaction) (n : Node) (j : ℕ)
    → ((gap : ℕ) (m : Node)
        → contains_key j m.orphans ≡ true
        → contains_key j (call.others gap m).orphans ≡ true)
    → contains_key j n.orphans ≡ true
    → (id ≢ j) ⊎ (is_done (process_transaction c miner call tx n).0 ≡ false)
    → contains_key j (retry_orphan c miner call id tx n).orphans ≡ true
unfolding retry_orphan
retry_orphan_keeps c miner call id tx n j keep h why =
    let (result, n') = process_transaction c miner call tx n in
    let there = keep 2 n' (process_transaction_keeps c miner call tx n j keep h) in
    ground (arith, contains_key-drop call.storage_readable_after j id (call.others 2 n'))
