-- ===== src/Storage/Writes.antt =====
-- `batch_write` of src/storage.rs: what a batch leaves, in terms of its operations.
use aether_sedc.Prelude.{
  ℕ, ◌≡◌, refl, ap, ◌∙◌, Bool, false, ◌||◌, List, [], ◌∷◌, Option, none, some, arith, ◌==◌,
  if◌then◌else◌, member,
}
use aether_sedc.Dict.{Dict, lookup, insert, remove, lookup-insert, lookup-remove}
use aether_sedc.Transaction.{Transaction}
use aether_sedc.Storage.{
  Storage, BatchOperation, put_tx, put_bal, delete_tx, put_entries, remove_keys, prepare,
  batch_write,
}

lookup-remove_keys :
    (k : ℕ) (keys : List ℕ) (d : Dict Transaction)
    → lookup k (remove_keys keys d) ≡ (if member k keys then none else lookup k d)
lookup-remove_keys k [] d = refl
lookup-remove_keys k (j ∷ keys) d =
    ground (arith, lookup-remove_keys k keys (remove j d), lookup-remove k j d)

-- The operations of a batch delete the identifier.
abbrev pub deletes : ℕ → List BatchOperation → Bool
deletes k [] = false
deletes k (delete_tx id ∷ ops) = id == k || deletes k ops
deletes k (put_tx tx ∷ ops) = deletes k ops
deletes k (put_bal address balance ∷ ops) = deletes k ops

member-deletes :
    (k : ℕ) (ops : List BatchOperation) → member k (prepare ops).tx_deletes ≡ deletes k ops
unfolding prepare
member-deletes k [] = refl
member-deletes k (delete_tx id ∷ ops) = ground (arith, member-deletes k ops)
member-deletes k (put_tx tx ∷ ops) = member-deletes k ops
member-deletes k (put_bal address balance ∷ ops) = member-deletes k ops

-- The last transaction that the operations put under the identifier, or what was there.
abbrev pub last_put : ℕ → List BatchOperation → Option Transaction → Option Transaction
last_put k [] before = before
last_put k (put_tx tx ∷ ops) before = last_put k ops (if tx.id == k then some tx else before)
last_put k (delete_tx id ∷ ops) before = last_put k ops before
last_put k (put_bal address balance ∷ ops) before = last_put k ops before

lookup-inserts :
    (k : ℕ) (ops : List BatchOperation) (d : Dict Transaction)
    → lookup k (put_entries (prepare ops).tx_inserts d) ≡ last_put k ops (lookup k d)
unfolding prepare
lookup-inserts k [] d = refl
lookup-inserts k (put_tx tx ∷ ops) d =
    lookup-inserts k ops (insert tx.id tx d) ∙ ap (last_put k ops) (lookup-insert k tx.id tx d)
lookup-inserts k (delete_tx id ∷ ops) d = lookup-inserts k ops d
lookup-inserts k (put_bal address balance ∷ ops) d = lookup-inserts k ops d

-- A batch leaves under an identifier nothing if any of its operations deletes it, even one that
-- comes before the transaction is put, and else the last transaction that it puts there.
pub batch_write_reads :
    (s : Storage) (ops : List BatchOperation) (k : ℕ)
    → lookup k (batch_write s ops).transactions
      ≡ (if deletes k ops then none else last_put k ops (lookup k s.transactions))
unfolding batch_write
batch_write_reads s ops k = ground (
  arith,
  lookup-remove_keys k (prepare ops).tx_deletes
      (put_entries (prepare ops).tx_inserts s.transactions),
  member-deletes k ops,
  lookup-inserts k ops s.transactions,
)
