-- ===== src/Runs/Steps.antt =====
-- The steps of a node: calls of `process_transaction` (src/rpc.rs), rounds of mining (src/node.rs)
-- and writes of the database and the orphans.
use aether_sedc.Prelude.{ℕ, ◌≡◌, ◌≢◌, Bool, Option}
use aether_sedc.Dict.{Dict}
use aether_sedc.Ledger.{fee_burn_address}
use aether_sedc.Transaction.{Transaction, Crypto}
use aether_sedc.Storage.{Storage}
use aether_sedc.Rpc.{Node, Call, process_transaction}
use aether_sedc.Rpc.Status.{mine_one}
use aether_sedc.Rpc.Accepted.{ahead}

-- A transaction that is not the genesis, and is neither from nor to the burn address.
abbrev pub IsOrdinary : Transaction → Type 0
IsOrdinary tx = (tx.id ≢ 0) × (tx.sender ≢ fee_burn_address) × (tx.receiver ≢ fee_burn_address)

-- The calls of the processor meet a condition, on the call, the transaction and the node that the
-- processor finds.
pub data RunOf (Q : Call → Transaction → Node → Type 0) (c : Crypto) (miner : Option ℕ)
    : Node → Node → Type 0 where
  done : {n : Node} → RunOf Q c miner n n
  then_run : {n m k : Node} → RunOf Q c miner n m → RunOf Q c miner m k → RunOf Q c miner n k
  -- The database and the orphans in memory are written by many tasks, the transactions of the
  -- database by the processor alone.
  kept :
      {n : Node} (storage : Storage) (orphans : Dict Transaction)
      → storage.transactions ≡ n.storage.transactions
      → RunOf Q c miner n (record n { storage = storage; orphans = orphans })
  mined : {n : Node} (storage_readable : Bool) → RunOf Q c miner n (mine_one storage_readable n)
  submitted :
      {n : Node} (call : Call) (tx : Transaction)
      → Q call tx (ahead call n)
      → ((gap : ℕ) (m : Node) → RunOf Q c miner m (call.others gap m))
      → ((m : Node) → RunOf Q c miner m (record m { world = call.env.interleaved m.world }))
      → RunOf Q c miner n (process_transaction c miner call tx n).1

-- The transactions of the calls are any.
abbrev pub Any : Call → Transaction → Node → Type 0
Any call tx n = Unit

-- The transactions of the calls are ordinary.
abbrev pub Ordinary : Call → Transaction → Node → Type 0
Ordinary call tx n = IsOrdinary tx

abbrev pub Run : Crypto → Option ℕ → Node → Node → Type 0
Run = RunOf Ordinary
