-- ===== src/Rpc/Status.antt =====
-- The status of a transaction (`determine_transaction_status` and the types before it in src/rpc.rs),
-- and the mining task of src/node.rs, which takes transactions out of the mempool.
use aether_sedc.Prelude.{ℕ, Bool, true, false, none, some, leb, if◌then◌else◌, length, member}
use aether_sedc.Dict.{lookup, contains_key}
use aether_sedc.Dag.{children_of, add_transaction_validated}
use aether_sedc.Mempool.{get_transaction_ids, pop_front}
use aether_sedc.Storage.{remove_mempool_tx}
use aether_sedc.Rpc.{Node}

pub data LocalStatus : Type 0 where
  unknown orphan in_mempool in_local_dag : LocalStatus

pub data ConsensusStatus : Type 0 where
  unconfirmed confirmed stable finalized : ConsensusStatus

pub data GlobalStatus : Type 0 where
  unknown pending unconfirmed confirmed stable finalized : GlobalStatus

-- `MIN_CONFIRMATIONS`
abbrev pub min_confirmations : ℕ
min_confirmations = 3

unfoldable pub reconcile_single : LocalStatus → ConsensusStatus → GlobalStatus
reconcile_single LocalStatus.unknown _ = GlobalStatus.unknown
reconcile_single LocalStatus.orphan _ = GlobalStatus.pending
reconcile_single LocalStatus.in_mempool _ = GlobalStatus.pending
reconcile_single LocalStatus.in_local_dag ConsensusStatus.unconfirmed = GlobalStatus.unconfirmed
reconcile_single LocalStatus.in_local_dag ConsensusStatus.confirmed = GlobalStatus.confirmed
reconcile_single LocalStatus.in_local_dag ConsensusStatus.stable = GlobalStatus.stable
reconcile_single LocalStatus.in_local_dag ConsensusStatus.finalized = GlobalStatus.finalized

unfoldable pub is_practically_final : GlobalStatus → Bool
is_practically_final GlobalStatus.stable = true
is_practically_final GlobalStatus.finalized = true
is_practically_final _ = false

pub record TransactionStatus : Type 0 where
  pub local_status : LocalStatus
  pub consensus_status : ConsensusStatus
  pub global_status : GlobalStatus
  pub practically_final : Bool

-- `TransactionStatus::new`
unfoldable pub new : LocalStatus → ConsensusStatus → TransactionStatus
unfolding reconcile_single is_practically_final
new local_status consensus_status =
    let global_status = reconcile_single local_status consensus_status in
    record {
      local_status = local_status;
      consensus_status = consensus_status;
      global_status = global_status;
      practically_final = is_practically_final global_status;
    }

-- What this node knows.
unfoldable pub local_status_of : Node → ℕ → LocalStatus
local_status_of n id =
    if contains_key id n.orphans
    then LocalStatus.orphan
    else if member id (get_transaction_ids n.world.mempool)
    then LocalStatus.in_mempool
    else if contains_key id n.world.dag.transactions
    then LocalStatus.in_local_dag
    else LocalStatus.unknown

-- `tx.weight >= STABILITY_THRESHOLD` is the parameter.
unfoldable pub consensus_status_of : (ℕ → Bool) → Node → ℕ → LocalStatus → ConsensusStatus
consensus_status_of is_stable n id LocalStatus.in_local_dag =
    elim (lookup id n.world.dag.transactions) [
      | none ↦ ConsensusStatus.unconfirmed
      | some tx ↦
          if is_stable tx.weight
          then ConsensusStatus.stable
          else if leb min_confirmations (length (children_of n.world.dag id))
          then ConsensusStatus.confirmed
          else ConsensusStatus.unconfirmed
    ]
consensus_status_of is_stable n id _ = ConsensusStatus.unconfirmed

unfoldable pub determine_transaction_status : (ℕ → Bool) → Node → ℕ → TransactionStatus
unfolding local_status_of consensus_status_of new
determine_transaction_status is_stable n id =
    let local_status = local_status_of n id in
    new local_status (consensus_status_of is_stable n id local_status)

-- One round of the mining task: the first transaction of the mempool leaves it, the stored mempool
-- too if the storage is free, and is added to the graph; that the graph refused it is only logged.
-- No other task writes between the two.
unfoldable pub mine_one : Bool → Node → Node
unfolding pop_front
mine_one storage_readable n =
    let (popped, mempool') = pop_front n.world.mempool in
    elim popped [
      | none ↦ n
      | some tx ↦ record n {
        world = record n.world {
          mempool = mempool';
          dag = (add_transaction_validated n.world.dag tx).1;
        };
        storage = if storage_readable then remove_mempool_tx n.storage tx.id else n.storage;
      }
    ]
