-- ===== src/Rpc/Receiver.antt =====
-- The tasks of src/node.rs that feed the calls of src/rpc.rs: the receiver of the transactions that
-- the network hands on, and the periodic round over the orphans.
use aether_sedc.Prelude.{ℕ, Bool, Option, ok, err}
use aether_sedc.Transaction.{Transaction, Crypto}
use aether_sedc.Rpc.{Node, Call, process_transaction, process_orphans}

-- What a round over the orphans meets.
pub record Round : Type 0 where
  pub storage_readable : Bool
  pub others : Node → Node
  pub calls : ℕ → Call

unfoldable pub orphan_round : Crypto → Option ℕ → Round → Node → Node
orphan_round c miner round n =
    process_orphans c miner round.storage_readable round.others round.calls n

-- One transaction of the channel: a round follows if it is accepted.
unfoldable pub receive : Crypto → Option ℕ → Call → Round → Transaction → Node → Node
unfolding orphan_round
receive c miner call round tx n =
    let (result, n') = process_transaction c miner call tx n in
    elim result [ ok _ ↦ orphan_round c miner round n' | err _ ↦ n' ]
