-- ===== src/Rpc.antt =====
-- The calls of `AetherRpcImpl` in src/rpc.rs that drive the processor: `process_transaction` and
-- `process_orphans`, and the status of a transaction. What the oracle asks as a fee is computed in
-- `f64`, so it is the environment's; a weight is the bit pattern of an `f64`, and the comparison with
-- the threshold is a parameter. A transaction that is broadcast or requested is no part of the state.
pub mod Orphans
pub mod Status
pub mod Accepted
pub mod Mining
pub mod Waiting
pub mod Limiter
pub mod Faucet
pub mod Receiver
use aether_sedc.Prelude.{
  ℕ, zero, suc, ◌+◌, ◌-◌, Bool, true, false, List, [], ◌∷◌, ◌++◌, Option, none, some, ltb, leb,
  ◌==◌, ◌&&◌, ◌||◌, not, if◌then◌else◌, length, member, Result, ok, err,
}
use aether_sedc.Dict.{Dict, lookup, contains_key, insert, remove}
use aether_sedc.Consensus.{ConsensusState}
use aether_sedc.Transaction.{Transaction, Crypto}
use aether_sedc.Dag.{Dag, DagError, is_missing, get_transaction, children_of}
use aether_sedc.Dag
use aether_sedc.Validation
use aether_sedc.Validation.{ValidationError}
use aether_sedc.Mempool
use aether_sedc.Mempool.{Mempool, set_min_fee, get_transaction_ids}
use aether_sedc.Processor.{
  ProcessingError, validation_failed, dag_error, Environment, World, Outcome, process,
  persist_transaction,
}
use aether_sedc.Storage.{Storage, put_orphan, get_all_orphans, remove_orphan, put_mempool_tx}

-- What the node shares that the calls touch.
pub record Node : Type 0 where
  pub world : World
  pub state : ConsensusState
  pub storage : Storage
  pub orphans : Dict Transaction

-- Why `process_transaction` refuses; the missing parents are requested from the peers.
pub data Refusal : Type 0 where
  dag_locked : Refusal
  missing_parents : List ℕ → Refusal
  refused : ProcessingError → Refusal

-- What one call meets: whether `try_read` finds the graph free, and the storage, also once an orphan
-- is done with; the fee of the oracle; what other tasks do each time that the call waits; and the
-- processor's environment.
pub record Call : Type 0 where
  pub dag_readable : Bool
  pub storage_readable : Bool
  pub storage_readable_after : Bool
  pub fee : ℕ
  pub others : ℕ → Node → Node
  pub env : Environment

abbrev missing : Dag → ℕ → List ℕ
missing d parent = if is_missing d parent then parent ∷ [] else []

unfoldable pub missing_of : Dag → Transaction → List ℕ
missing_of d tx = missing d tx.parents.0 ++ missing d tx.parents.1

-- A transaction with a missing parent is kept, on disk if the storage is free.
unfoldable pub store_orphan : Call → Transaction → Node → Node
store_orphan call tx n =
    let storage' = if call.storage_readable then put_orphan n.storage tx.id tx else n.storage in
    let n' = call.others 0 (record n { storage = storage' }) in
    record n' { orphans = insert tx.id tx n'.orphans }

-- What a call writes to the database: the processor's step 9b and the stored mempool.
unfoldable pub written : Call → Transaction → ConsensusState → Storage → Storage
written call tx s storage =
    let storage' = persist_transaction call.env tx s storage in
    if call.storage_readable then put_mempool_tx storage' tx else storage'

-- The state after the processor.
abbrev pub settle : Call → Transaction → Node → Outcome → Node
settle call tx n out = record n {
  world = out.world;
  state = out.state;
  storage = elim out.result [ ok _ ↦ written call tx out.state n.storage | err _ ↦ n.storage ];
}

abbrev pub reply : Outcome → Result Refusal (Unit {0})
reply out = elim out.result [ ok _ ↦ ok tt | err e ↦ err (refused e) ]

-- The part of `process_transaction` for a transaction whose parents are there.
unfoldable pub submit :
    Crypto → Option ℕ → Call → Transaction → Node → Result Refusal (Unit {0}) × Node
submit c miner call tx n =
    let n1 = call.others 0 n in
    let n2 =
      call.others 1 (record n1 {
        world = record n1.world { mempool = set_min_fee n1.world.mempool call.fee };
      }) in
    let out = process c call.env Validation.new tx call.fee miner (some tx.id) n2.world n2.state in
    (reply out, settle call tx n2 out)

unfoldable pub process_transaction :
    Crypto → Option ℕ → Call → Transaction → Node → Result Refusal (Unit {0}) × Node
process_transaction c miner call tx n =
    if not call.dag_readable then (err dag_locked, n) else elim (missing_of n.world.dag tx) [
      | [] ↦ submit c miner call tx n
      | p ∷ ps ↦ (err (missing_parents (p ∷ ps)), store_orphan call tx n)
    ]

-- `error_msg.contains(..)` for the three messages, of the errors whose text holds one.
abbrev pub is_permanent_dag : DagError → Bool
is_permanent_dag (Dag.duplicate_transaction _) = true
is_permanent_dag (Dag.parent_missing _ _) = false
is_permanent_dag Dag.parents_already_used = true
is_permanent_dag Dag.sender_conflict = true

abbrev pub is_permanent_validation : ValidationError → Bool
is_permanent_validation (Validation.duplicate_transaction _) = true
is_permanent_validation Validation.double_spend = true
is_permanent_validation Validation.sender_conflict = true
is_permanent_validation _ = false

abbrev pub is_permanent : Refusal → Bool
is_permanent (refused (validation_failed e)) = is_permanent_validation e
is_permanent (refused (dag_error e)) = is_permanent_dag e
is_permanent _ = false

-- `if !orphans.contains_key(&orphan.id) { orphans.insert(..) }`, for each orphan on disk
abbrev pub load_orphans : List Transaction → Dict Transaction → Dict Transaction
load_orphans [] orphans = orphans
load_orphans (tx ∷ txs) orphans =
    load_orphans txs (if contains_key tx.id orphans then orphans else insert tx.id tx orphans)

abbrev pub is_resolved : Dag → Transaction → Bool
is_resolved d tx = not (is_missing d tx.parents.0) && not (is_missing d tx.parents.1)

-- The orphans whose parents are there.
abbrev pub resolved : Dag → Dict Transaction → Dict Transaction
resolved d [] = []
resolved d ((id, tx) ∷ orphans) =
    let rest = resolved d orphans in if is_resolved d tx then (id, tx) ∷ rest else rest

-- The parents to request again, 32 at most.
abbrev add_hash : Dag → ℕ → List ℕ → List ℕ
add_hash d parent hashes =
    if is_missing d parent && not (member parent hashes) then hashes ++ parent ∷ [] else hashes

unfoldable pub missing_parent_hashes : Dag → Dict Transaction → List ℕ → List ℕ
missing_parent_hashes d [] hashes = hashes
missing_parent_hashes d ((id, tx) ∷ orphans) hashes =
    let first = add_hash d tx.parents.0 hashes in
    let second = if leb 32 (length first) then first else add_hash d tx.parents.1 first in
    if leb 32 (length second) then second else missing_parent_hashes d orphans second

-- The orphan leaves the memory, and the disk if the storage is free.
abbrev pub drop_orphan : Bool → ℕ → Node → Node
drop_orphan storage_readable id n = record n {
  orphans = remove id n.orphans;
  storage = if storage_readable then remove_orphan n.storage id else n.storage;
}

-- Whether an orphan is done with: accepted, or refused for good.
abbrev pub is_done : Result Refusal (Unit {0}) → Bool
is_done (ok _) = true
is_done (err e) = is_permanent e

-- One resolved orphan is processed again.
unfoldable pub retry_orphan : Crypto → Option ℕ → Call → ℕ → Transaction → Node → Node
retry_orphan c miner call id tx n =
    let (result, n') = process_transaction c miner call tx n in
    let n'' = call.others 2 n' in
    if is_done result then drop_orphan call.storage_readable_after id n'' else n''

-- The orphans one after the other, each with a call of its own.
unfoldable pub retry_orphans : Crypto → Option ℕ → (ℕ → Call) → Dict Transaction → Node → Node
retry_orphans c miner calls [] n = n
retry_orphans c miner calls ((id, tx) ∷ rest) n =
    retry_orphans c miner calls rest (retry_orphan c miner (calls id) id tx n)

-- `process_orphans`: `storage_readable` and `others` are what its first part meets.
unfoldable pub process_orphans : Crypto → Option ℕ → Bool → (Node → Node) → (ℕ → Call) → Node → Node
process_orphans c miner storage_readable others calls n =
    let orphans' =
      if storage_readable then load_orphans (get_all_orphans n.storage) n.orphans else n.orphans in
    let n' = record n { orphans = orphans' } in
    retry_orphans c miner calls (resolved n'.world.dag n'.orphans) (others n')
