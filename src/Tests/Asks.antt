-- ===== src/Tests/Asks.antt =====
-- The calls around the processor (src/rpc.rs) and a round of mining (src/node.rs) at concrete inputs.
use aether_sedc.Prelude.{
  ℕ, ◌^◌, ◌≡◌, refl, List, [], ◌∷◌, none, true, false, arith, ok, err, if◌then◌else◌,
}
use aether_sedc.Dict.{contains_key}
use aether_sedc.Transaction.{
  Transaction, Crypto, verify_pow, default_difficulty, meets_difficulty, calculate_pow_hash,
  le_bytes, be_bytes,
}
use aether_sedc.Dag.{check_transaction, insert_transaction, add_transaction_validated}
use aether_sedc.Ledger.{transfer_internal, validate_and_commit_nonce_internal}
use aether_sedc.Mempool.{add_internal, add_plan, set_min_fee}
use aether_sedc.Storage.{Storage}
use aether_sedc.Validation
use aether_sedc.Validation.{invalid_pow}
use aether_sedc.Processor.{
  validation_failed, process, lock_and_apply, apply_transaction, confirm, enqueue, persist,
  reward_step,
}
use aether_sedc.Rpc.{Node, Call, refused, missing_of, submit, process_transaction, retry_orphan}
use aether_sedc.Rpc.Status.{
  LocalStatus, ConsensusStatus, GlobalStatus, determine_transaction_status,
}
use aether_sedc.Rpc.Accepted.{accepted_is_pending}
use aether_sedc.Rpc.Waiting.{forged_orphan_stays}
use aether_sedc.Tests.{transaction, payment, toy}
use aether_sedc.Tests.Calls.{quiet, world, state, accepted}

abbrev pub empty : Storage
empty = record {
  transactions = [];
  balances = [];
  address_index = [];
  staking = [];
  nonces = [];
  orphans = [];
  mempool = [];
  consensus = none;
}

abbrev pub node : Node
node = record { world = world; state = state; storage = empty; orphans = [] }

abbrev pub call : Call
call = record {
  dag_readable = true;
  storage_readable = true;
  storage_readable_after = true;
  fee = 1;
  others = λ gap n. n;
  env = quiet;
}

pub asked : (process_transaction toy none call payment node).0 ≡ ok tt
unfolding process_transaction submit missing_of process lock_and_apply apply_transaction confirm
    enqueue persist reward_step transfer_internal validate_and_commit_nonce_internal
    add_transaction_validated check_transaction insert_transaction add_internal add_plan set_min_fee
    Validation.new
asked = rw (accepted, process) refl

accepted_is_pending_example :
    let n' = (process_transaction toy none call payment node).1 in
    (contains_key 100 n'.world.dag.transactions ≡ true)
    × (determine_transaction_status (λ w. false) n' 100 ≡ record {
      local_status =
          if contains_key 100 n'.orphans then LocalStatus.orphan else LocalStatus.in_mempool;
      consensus_status = ConsensusStatus.unconfirmed;
      global_status = GlobalStatus.pending;
      practically_final = false;
    })
accepted_is_pending_example = accepted_is_pending toy none call payment node (λ w. false) asked

-- A child whose parent is not there.
abbrev child : Transaction
child = transaction 101 (100, 0) 2

abbrev waiting : Node
waiting = record node { orphans = (101, child) ∷ [] }

-- A hash with no leading zero bit.
abbrev pub harsh : Crypto
harsh = record {
  blake3 = λ bytes. 2 ^ 255;
  blake3_fits = λ bytes. omega arith;
  key_parses = λ key. true;
  signature_parses = λ signature. true;
  verify = λ key message signature. true;
}

pub forged : verify_pow harsh payment default_difficulty ≡ false
unfolding verify_pow meets_difficulty calculate_pow_hash le_bytes be_bytes
forged = refl

forged_orphan_stays_example :
    let n = record node { orphans = (100, payment) ∷ [] } in
    ((process_transaction harsh none call payment n).0
      ≡ err (refused (validation_failed (invalid_pow default_difficulty))))
    × (contains_key 100 (retry_orphan harsh none call 100 payment n).orphans ≡ true)
unfolding missing_of
forged_orphan_stays_example =
    forged_orphan_stays harsh none call 100 payment (record node { orphans = (100, payment) ∷ [] })
      forged refl refl (λ gap m h. h) refl

-- Two calls of the key 7 in a window of ten seconds pass, the third does not.
abbrev calls : List (ℕ × ℕ)
calls = (7, 2000) ∷ (8, 2000) ∷ (7, 3000) ∷ (7, 4000) ∷ []
