-- ===== src/P2p.antt =====
-- What a node does with the messages of its peers (`P2PNetwork` of src/p2p.rs). The bytes of a
-- transaction are the number that they spell, and stand for a message that holds them; the
-- encoding, of the crate bincode, is an argument. The connections, the encryption and the tasks
-- around them are not part of the state.
pub mod Pages
pub mod Sync
use aether_sedc.Prelude.{
  ℕ, zero, suc, ◌-◌, ◌≡◌, Bool, true, false, List, [], ◌∷◌, ◌++◌, Option, none, some, ltb, leb,
  ◌==◌, ◌&&◌, not, if◌then◌else◌, member, retain, map,
}
use aether_sedc.Dict.{Dict, lookup, contains_key, insert}
use aether_sedc.Consensus.{IdSet}
use aether_sedc.Transaction.{Transaction, take}
use aether_sedc.Dag.{Dag}

-- `bincode::serialize` and `bincode::deserialize`
pub record Codec : Type 0 where
  pub serialize : Transaction → ℕ
  pub deserialize : ℕ → Option Transaction

pub data TxSource : Type 0 where
  local network : TxSource

pub record SeenTxEntry : Type 0 where
  pub timestamp : ℕ
  pub source : TxSource

-- `sent` is what went into `tx_channel`, and `discovered` into `peer_discovery_tx`, oldest first.
pub record P2PNetwork : Type 0 where
  pub local_addr : ℕ
  pub peers : IdSet
  pub known_peers : IdSet
  pub seen_transactions : Dict SeenTxEntry
  pub sent : List Transaction
  pub discovered : List ℕ

pub data P2PMessage : Type 0 where
  transaction : ℕ → P2PMessage
  inventory get_data get_inventory sync_response peer_list : List ℕ → P2PMessage
  sync_request ping pong : P2PMessage

-- What the network asks of the node: its graph, if it is not locked, and the tips of its selector.
pub record View : Type 0 where
  pub readable : Bool
  pub dag : Dag
  pub tips : List ℕ

abbrev pub keys_of : Dict Transaction → List ℕ
keys_of [] = []
keys_of ((id, _) ∷ rest) = id ∷ keys_of rest

abbrev pub get_dag_hashes : View → List ℕ
get_dag_hashes v = if v.readable then keys_of v.dag.transactions else []

abbrev pub get_transaction_by_hash : View → ℕ → Option Transaction
get_transaction_by_hash v hash = if v.readable then lookup hash v.dag.transactions else none

abbrev pub page_size : ℕ
page_size = 100

-- The bytes of the transactions that are there.
abbrev pub found_bytes : Codec → View → List ℕ → List ℕ
found_bytes c v [] = []
found_bytes c v (hash ∷ hashes) =
    let rest = found_bytes c v hashes in
    elim (get_transaction_by_hash v hash) [ none ↦ rest | some tx ↦ c.serialize tx ∷ rest ]

-- A message that is sent only if it has content.
abbrev pub unless_empty : (List ℕ → P2PMessage) → List ℕ → List P2PMessage
unless_empty message [] = []
unless_empty message (x ∷ xs) = message (x ∷ xs) ∷ []

-- The page of a request.
unfoldable pub page : Codec → View → List ℕ → List P2PMessage
page c v hashes = unless_empty sync_response (found_bytes c v (take page_size hashes))

-- The hashes of the first list that the second has not, each once.
abbrev pub difference : List ℕ → List ℕ → List ℕ
difference [] others = []
difference (hash ∷ hashes) others =
    let rest = difference hashes others in
    if member hash others then rest else if member hash rest then rest else hash ∷ rest

abbrev pub mark_seen : TxSource → ℕ → ℕ → P2PNetwork → P2PNetwork
mark_seen source now bytes n = record n {
  seen_transactions =
      insert bytes (record { timestamp = now; source = source }) n.seen_transactions;
}

abbrev pub send : Transaction → P2PNetwork → P2PNetwork
send tx n = record n { sent = n.sent ++ tx ∷ [] }

-- The transactions of a response that were not seen before and decode.
abbrev pub unseen : Codec → P2PNetwork → List ℕ → List Transaction
unseen c n [] = []
unseen c n (bytes ∷ rest) =
    let others = unseen c n rest in
    if contains_key bytes n.seen_transactions
    then others
    else elim (c.deserialize bytes) [ none ↦ others | some tx ↦ tx ∷ others ]

-- `sort_by_key(|tx| tx.timestamp)`, which is stable.
abbrev pub insert_by_time : Transaction → List Transaction → List Transaction
insert_by_time tx [] = tx ∷ []
insert_by_time tx (u ∷ us) =
    let later = u ∷ insert_by_time tx us in
    if leb tx.timestamp u.timestamp then tx ∷ u ∷ us else later

abbrev pub sort_by_time : List Transaction → List Transaction
sort_by_time [] = []
sort_by_time (tx ∷ txs) = insert_by_time tx (sort_by_time txs)

abbrev pub send_all : Codec → ℕ → List Transaction → P2PNetwork → P2PNetwork
send_all c now [] n = n
send_all c now (tx ∷ txs) n =
    send_all c now txs (send tx (mark_seen network now (c.serialize tx) n))

abbrev pub is_new_peer : P2PNetwork → ℕ → Bool
is_new_peer n peer =
    not (contains_key peer n.known_peers)
    && not (peer == n.local_addr)
    && not (contains_key peer n.peers)

abbrev pub learn : List ℕ → P2PNetwork → P2PNetwork
learn [] n = n
learn (peer ∷ rest) n = learn rest (record n {
  known_peers = insert peer tt n.known_peers;
  discovered = n.discovered ++ peer ∷ [];
})

-- A message: the new state, the replies to its sender, and what is relayed to the other peers.
unfoldable pub handle :
    Codec → View → ℕ → P2PMessage → P2PNetwork → P2PNetwork × List P2PMessage × List P2PMessage
unfolding page
handle c v now (transaction bytes) n =
    if contains_key bytes n.seen_transactions then (n, [], []) else elim (c.deserialize bytes) [
      | none ↦ (n, [], [])
      | some tx ↦ (send tx (mark_seen network now bytes n), [], transaction bytes ∷ [])
    ]
handle c v now (inventory hashes) n =
    (n, unless_empty get_data (retain (λ h. not (member h (get_dag_hashes v))) hashes), [])
handle c v now (get_inventory peer_tips) n = (
  n,
  page c v (difference v.tips peer_tips) ++ unless_empty get_data (difference peer_tips v.tips),
  [],
)
handle c v now (get_data hashes) n = (n, page c v hashes, [])
handle c v now sync_request n = (n, inventory (get_dag_hashes v) ∷ [], [])
handle c v now (sync_response tx_bytes_list) n =
    (send_all c now (sort_by_time (unseen c n tx_bytes_list)) n, [], [])
handle c v now ping n = (n, [], [])
handle c v now pong n = (n, [], [])
handle c v now (peer_list addresses) n = (learn (retain (is_new_peer n) addresses) n, [], [])

-- `broadcast_transaction`: what every peer is sent.
unfoldable pub broadcast_transaction :
    Codec → ℕ → Transaction → P2PNetwork → P2PNetwork × List P2PMessage
broadcast_transaction c now tx n =
    let tx_bytes = c.serialize tx in (mark_seen local now tx_bytes n, transaction tx_bytes ∷ [])

-- A round of the cleanup; times are in seconds.
unfoldable pub cleanup : ℕ → P2PNetwork → P2PNetwork
cleanup now n = record n {
  seen_transactions = retain (λ e. ltb (now - (e.1).timestamp) 3600) n.seen_transactions;
}
