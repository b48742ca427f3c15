-- ===== src/Storage.antt =====
-- `Storage` of src/storage.rs: the trees of the database sled. A tree is the map of its entries,
-- its order the unspecified one of an association list; reads and writes succeed, and a value
-- reads back as it was written, as sled and bincode document.
pub mod Index
pub mod Writes
use aether_sedc.Prelude.{
  ℕ, ◌+◌, ◌*◌, ◌/◌, Bool, true, false, List, [], ◌∷◌, ◌++◌, Option, none, some, ltb, ◌==◌, ◌||◌,
  if◌then◌else◌, length, Result, ok, err, ok_or,
}
use aether_sedc.Dict.{Dict, lookup, contains_key, insert, remove}
use aether_sedc.Consensus.{ConsensusState}
use aether_sedc.Transaction.{Transaction}

pub record StakingPosition : Type 0 where
  pub address : ℕ
  pub staked_amount : ℕ
  pub start_timestamp : ℕ
  pub rewards_earned : ℕ
  pub last_reward_timestamp : ℕ

pub record Storage : Type 0 where
  pub transactions : Dict Transaction
  pub balances : Dict ℕ
  pub address_index : Dict ℕ
  pub staking : Dict StakingPosition
  pub nonces : Dict ℕ
  pub orphans : Dict Transaction
  pub mempool : Dict Transaction
  pub consensus : Option ConsensusState

-- The errors that are not sled's or bincode's; a `DatabaseError` is named by its message.
pub data StorageError : Type 0 where
  transaction_not_found key_not_found stake_amount_zero no_staking_position : StorageError

-- 2 ^ 256
abbrev pub id_mod : ℕ
id_mod = 0x10000000000000000000000000000000000000000000000000000000000000000

-- The 64 bytes of an address and an identifier, as a number.
abbrev pub index_key : ℕ → ℕ → ℕ
index_key address id = address * id_mod + id

-- Whether the first 32 bytes of a key are the address.
abbrev pub has_prefix : ℕ → ℕ → Bool
has_prefix address key = key / id_mod == address

unfoldable pub put_transaction : Storage → Transaction → Storage
put_transaction s tx = record s {
  transactions = insert tx.id tx s.transactions;
  address_index =
      insert (index_key tx.receiver tx.id) tx.id
        (insert (index_key tx.sender tx.id) tx.id s.address_index);
}

unfoldable pub get_transaction : Storage → ℕ → Result StorageError Transaction
get_transaction s id = ok_or (lookup id s.transactions) transaction_not_found

unfoldable pub transaction_exists : Storage → ℕ → Bool
transaction_exists s id = contains_key id s.transactions

unfoldable pub delete_transaction : Storage → ℕ → Storage
delete_transaction s id = record s { transactions = remove id s.transactions }

module _ {ℓ} {V : Type ℓ} where
  -- The values of a tree, in its order.
  abbrev pub values : Dict V → List V
  values [] = []
  values ((_, v) ∷ d) = v ∷ values d

unfoldable pub get_all_transactions : Storage → List Transaction
get_all_transactions s = values s.transactions

-- The scan of the index, over the identifiers that it finds.
abbrev pub found_at : Dict Transaction → ℕ → Dict ℕ → List Transaction
found_at txs address [] = []
found_at txs address ((key, id) ∷ index) =
    let rest = found_at txs address index in
    if has_prefix address key
    then elim (lookup id txs) [ none ↦ rest | some tx ↦ tx ∷ rest ]
    else rest

unfoldable pub get_transactions_by_address : Storage → ℕ → List Transaction
get_transactions_by_address s address = found_at s.transactions address s.address_index

unfoldable pub put_balance : Storage → ℕ → ℕ → Storage
put_balance s address balance = record s { balances = insert address balance s.balances }

unfoldable pub get_balance : Storage → ℕ → Result StorageError ℕ
get_balance s address = ok_or (lookup address s.balances) key_not_found

unfoldable pub put_nonce : Storage → ℕ → ℕ → Storage
put_nonce s address nonce = record s { nonces = insert address nonce s.nonces }

unfoldable pub get_nonce : Storage → ℕ → Result StorageError ℕ
get_nonce s address = ok_or (lookup address s.nonces) key_not_found

unfoldable pub put_orphan : Storage → ℕ → Transaction → Storage
put_orphan s id tx = record s { orphans = insert id tx s.orphans }

unfoldable pub get_orphan : Storage → ℕ → Option Transaction
get_orphan s id = lookup id s.orphans

unfoldable pub get_all_orphans : Storage → List Transaction
get_all_orphans s = values s.orphans

unfoldable pub remove_orphan : Storage → ℕ → Storage
remove_orphan s id = record s { orphans = remove id s.orphans }

unfoldable pub put_mempool_tx : Storage → Transaction → Storage
put_mempool_tx s tx = record s { mempool = insert tx.id tx s.mempool }

unfoldable pub load_mempool_txs : Storage → List Transaction
load_mempool_txs s = values s.mempool

unfoldable pub remove_mempool_tx : Storage → ℕ → Storage
remove_mempool_tx s id = record s { mempool = remove id s.mempool }

unfoldable pub clear_mempool : Storage → Storage
clear_mempool s = record s { mempool = [] }

unfoldable pub put_consensus_state : Storage → ConsensusState → Storage
put_consensus_state s state = record s { consensus = some state }

unfoldable pub get_consensus_state : Storage → Option ConsensusState
get_consensus_state s = s.consensus

pub data BatchOperation : Type 0 where
  put_tx : Transaction → BatchOperation
  put_bal : ℕ → ℕ → BatchOperation
  delete_tx : ℕ → BatchOperation

-- The four lists that a batch is sorted into, in the order of the operations.
pub record Batch : Type 0 where
  pub tx_inserts : Dict Transaction
  pub tx_deletes : List ℕ
  pub balance_updates : Dict ℕ
  pub index_inserts : Dict ℕ

unfoldable pub prepare : List BatchOperation → Batch
prepare [] = record { tx_inserts = []; tx_deletes = []; balance_updates = []; index_inserts = [] }
prepare (put_tx tx ∷ ops) =
    let rest = prepare ops in
    record rest {
      tx_inserts = (tx.id, tx) ∷ rest.tx_inserts;
      index_inserts =
          (index_key tx.sender tx.id, tx.id)
          ∷ (index_key tx.receiver tx.id, tx.id)
          ∷ rest.index_inserts;
    }
prepare (delete_tx id ∷ ops) =
    let rest = prepare ops in record rest { tx_deletes = id ∷ rest.tx_deletes }
prepare (put_bal address balance ∷ ops) =
    let rest = prepare ops in
    record rest { balance_updates = (address, balance) ∷ rest.balance_updates }

module _ {ℓ} {V : Type ℓ} where
  -- `for (key, value) in entries { tree.insert(key, value)? }`
  abbrev pub put_entries : Dict V → Dict V → Dict V
  put_entries [] d = d
  put_entries ((k, v) ∷ entries) d = put_entries entries (insert k v d)

  -- `for id in ids { tree.remove(id)? }`
  abbrev pub remove_keys : List ℕ → Dict V → Dict V
  remove_keys [] d = d
  remove_keys (k ∷ keys) d = remove_keys keys (remove k d)

-- All inserts of transactions come before all deletes, whatever the order of the operations.
unfoldable pub batch_write : Storage → List BatchOperation → Storage
unfolding prepare
batch_write s ops =
    let batch = prepare ops in
    record s {
      transactions = remove_keys batch.tx_deletes (put_entries batch.tx_inserts s.transactions);
      balances = put_entries batch.balance_updates s.balances;
      address_index = put_entries batch.index_inserts s.address_index;
    }

unfoldable pub transaction_count : Storage → ℕ
transaction_count s = length s.transactions

-- `needs_migration`, by whether the JSON path exists.
unfoldable pub needs_migration : Storage → Bool → Bool
unfolding transaction_count
needs_migration s json_exists =
    if ltb 0 (transaction_count s) || ltb 0 (length s.balances) then false else json_exists
