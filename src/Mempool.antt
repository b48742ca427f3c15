-- ===== src/Mempool.antt =====
-- `Mempool` of src/rpc.rs: a queue with a fee floor and eviction. The semaphore only limits the
-- rate of requests, and is no part of the record.
pub mod Evict
pub mod Queue
use aether_sedc.Prelude.{
  ℕ, Bool, List, [], ◌∷◌, ◌++◌, Option, none, some, min, ltb, leb, ◌==◌, not, if◌then◌else◌, length,
  retain, map, Result, ok, err, fail_if, ◌>>◌, ◌>>=◌,
}
use aether_sedc.Transaction.{Transaction}

pub record Mempool : Type 0 where
  pub queue : List Transaction
  pub max_size : ℕ
  pub min_fee : ℕ

-- The messages of `add_internal`.
pub data RpcError : Type 0 where
  insufficient_fee : ℕ → ℕ → RpcError
  mempool_full : RpcError

unfoldable pub new : ℕ → Mempool
new max_size = record { queue = []; max_size = max_size; min_fee = 1 }

unfoldable pub set_min_fee : Mempool → ℕ → Mempool
set_min_fee m min_fee = record m { min_fee = min_fee }

-- `iter().map(|t| t.fee).min()`
abbrev pub least_fee : List Transaction → Option ℕ
least_fee [] = none
least_fee (t ∷ ts) = elim (least_fee ts) [ none ↦ some t.fee | some f ↦ some (min t.fee f) ]

-- `.unwrap_or(0)`
abbrev pub min_fee_in_pool : List Transaction → ℕ
min_fee_in_pool ts = elim (least_fee ts) [ none ↦ 0 | some f ↦ f ]

-- `position(|t| t.fee == fee)` and `remove(pos)`
abbrev pub remove_first : ℕ → List Transaction → List Transaction
remove_first fee [] = []
remove_first fee (t ∷ ts) = if t.fee == fee then ts else t ∷ remove_first fee ts

-- The queue with room for one more, or the refusal.
unfoldable pub make_room : Mempool → Transaction → Result RpcError (List Transaction)
make_room m tx =
    if leb m.max_size (length m.queue)
    then (let lowest = min_fee_in_pool m.queue in
        if ltb lowest tx.fee then ok (remove_first lowest m.queue) else err mempool_full)
    else ok m.queue

unfoldable pub add_plan : Mempool → Transaction → Result RpcError (List Transaction)
unfolding make_room
add_plan m tx = do
  fail_if (ltb tx.fee m.min_fee) (insufficient_fee tx.fee m.min_fee)
  queue ← make_room m tx
  ok (queue ++ tx ∷ [])

unfoldable pub add_internal : Mempool → Transaction → Result RpcError (Unit {0}) × Mempool
add_internal m tx = elim (add_plan m tx) [
  | ok queue ↦ (ok tt, record m { queue = queue })
  | err e ↦ (err e, m)
]

unfoldable pub size : Mempool → ℕ
size m = length m.queue

unfoldable pub pop_front : Mempool → Option Transaction × Mempool
pop_front m = elim m.queue [ [] ↦ (none, m) | t ∷ ts ↦ (some t, record m { queue = ts }) ]

unfoldable pub remove_transaction : Mempool → ℕ → Mempool
remove_transaction m tx_id = record m { queue = retain (λ t. not (t.id == tx_id)) m.queue }

unfoldable pub get_transaction_ids : Mempool → List ℕ
get_transaction_ids m = map (λ t. t.id) m.queue
