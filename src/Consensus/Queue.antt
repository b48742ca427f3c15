-- ===== src/Consensus/Queue.antt =====
-- The queue of block rewards of src/consensus.rs: what is final, and that a block is not queued
-- and rewarded at once.
use aether_sedc.Prelude.{
  ℕ, ◌≤◌, ◌≡◌, ◌≢◌, ◌↔◌, Bool, true, false, [], ◌∷◌, some, arith, ok, retain, saturating_sub,
}
use aether_sedc.Dict.{
  Dict, lookup, contains_key, IsMap, insert-IsMap, remove-IsMap, contains_key-lookup,
  contains_key-insert, contains_key-remove,
}
use aether_sedc.Consensus.{
  ConsensusState, PendingReward, mark_block_rewarded, queue_pending_reward, is_finalized,
  finalized_pending_rewards, settle_pending_reward, validate_and_mark_block_reward,
  rollback_block_reward,
}

-- No block is both queued and rewarded, and no block is queued twice.
pub record IsConsistent (s : ConsensusState) : Type 0 where
  pub keys : IsMap s.pending_rewards
  pub apart :
      (id : ℕ)
      → contains_key id s.pending_rewards ≡ true
      → contains_key id s.rewarded_blocks ≡ false

lookup-retain :
    (keep : ℕ × PendingReward → Bool) (id : ℕ) (p : PendingReward) (d : Dict PendingReward)
    → IsMap d
    → (lookup id (retain keep d) ≡ some p) ↔ ((lookup id d ≡ some p) × (keep (id, p) ≡ true))
lookup-retain keep id p [] h = ground arith
lookup-retain keep id p ((j, q) ∷ d) h =
    ground (arith, lookup-retain keep id p d h.1, contains_key-lookup j d h.0)

-- In a consistent state the rewards that are handed out are exactly the queued ones whose block
-- has at least the threshold of confirmations.
pub finalized_pending_rewards_iff :
    (s : ConsensusState) (id : ℕ) (p : PendingReward)
    → IsConsistent s
    → (lookup id (finalized_pending_rewards s) ≡ some p) ↔ (
        (lookup id s.pending_rewards ≡ some p)
        × (s.confirmation_threshold ≤ saturating_sub s.current_height p.block_height))
unfolding finalized_pending_rewards
finalized_pending_rewards_iff s id p h = ground (
  arith,
  lookup-retain (λ e. is_finalized s (e.1).block_height s.current_height) id p s.pending_rewards
      h.keys,
)

-- A block that is queued was neither queued nor rewarded; it can then not be queued again, and
-- once it is marked and settled it can neither be queued nor marked again.
pub queue_once :
    (s s' : ConsensusState) (id validator reward height v' r' h' : ℕ)
    → queue_pending_reward s id validator reward height ≡ ok s'
    → (contains_key id s.pending_rewards ≡ false)
      × (contains_key id s.rewarded_blocks ≡ false)
      × ((q : ConsensusState) → queue_pending_reward s' id v' r' h' ≢ ok q)
      × (let paid = settle_pending_reward (mark_block_rewarded s' id) id in
          (q : ConsensusState)
          → (queue_pending_reward paid id v' r' h' ≢ ok q)
            × (validate_and_mark_block_reward paid id ≢ ok q))
unfolding queue_pending_reward settle_pending_reward mark_block_rewarded
    validate_and_mark_block_reward
queue_once s s' id validator reward height v' r' h' e =
    let pending : PendingReward = record {
      validator = validator;
      reward = reward;
      block_height = height;
    } in
    let queued = contains_key-insert id id pending s.pending_rewards in
    let marked = contains_key-insert id id tt s.rewarded_blocks in
    (
      ground arith,
      ground arith,
      (λ q again. ground (arith, queued)),
      (λ q. ((λ again. ground (arith, marked)), (λ again. ground (arith, marked)))),
    )

-- Queueing, paying a block, and rolling a block back keep the queue apart from the rewarded blocks.
pub queue-IsConsistent :
    (s s' : ConsensusState) (id validator reward height : ℕ)
    → IsConsistent s
    → queue_pending_reward s id validator reward height ≡ ok s'
    → IsConsistent s'
unfolding queue_pending_reward
queue-IsConsistent s s' id validator reward height h e =
    let pending : PendingReward = record {
      validator = validator;
      reward = reward;
      block_height = height;
    } in
    record {
      keys = ground (arith, insert-IsMap id pending s.pending_rewards h.keys);
      apart = λ k m. ground (arith, contains_key-insert k id pending s.pending_rewards, h.apart k);
    }

pub paid-IsConsistent :
    (s : ConsensusState) (id : ℕ)
    → IsConsistent s
    → IsConsistent (settle_pending_reward (mark_block_rewarded s id) id)
unfolding settle_pending_reward mark_block_rewarded
paid-IsConsistent s id h = record {
  keys = remove-IsMap id s.pending_rewards h.keys;
  apart = λ k m. ground (
    arith,
    contains_key-remove k id s.pending_rewards,
    contains_key-insert k id tt s.rewarded_blocks,
    h.apart k,
  );
}

pub rollback-IsConsistent :
    (s : ConsensusState) (id : ℕ) → IsConsistent s → IsConsistent (rollback_block_reward s id)
unfolding rollback_block_reward
rollback-IsConsistent s id h = record {
  keys = h.keys;
  apart = λ k m. ground (arith, contains_key-remove k id s.rewarded_blocks, h.apart k);
}
