-- ===== src/Consensus.antt =====
-- `ConsensusState` of src/consensus.rs: block height, finality, and the queue of block rewards.
pub mod Queue
use aether_sedc.Prelude.{
  ℕ, Bool, List, [], ◌∷◌, Option, none, some, add64, saturating_sub, leb, if◌then◌else◌, Result, ok,
  err, fail_if, ◌>>◌, retain,
}
use aether_sedc.Dict.{Dict, lookup, contains_key, insert, remove}

-- `HashSet<BlockId>`
abbrev pub IdSet : Type 0
IdSet = Dict (Unit {0})

pub record PendingReward : Type 0 where
  pub validator : ℕ
  pub reward : ℕ
  pub block_height : ℕ

pub record ConsensusState : Type 0 where
  pub current_height : ℕ
  pub rewarded_heights : IdSet
  pub rewarded_blocks : IdSet
  pub pending_rewards : Dict PendingReward
  pub confirmation_threshold : ℕ

-- The messages of `queue_pending_reward`, and `ConsensusError::DoubleRewardBlock`.
pub data ConsensusError : Type 0 where
  already_queued already_rewarded double_reward_block : ℕ → ConsensusError

unfoldable pub new : ConsensusState
new = record {
  current_height = 0;
  rewarded_heights = [];
  rewarded_blocks = [];
  pending_rewards = [];
  confirmation_threshold = 6;
}

unfoldable pub increment_height : ConsensusState → ConsensusState
increment_height s = record s { current_height = add64 s.current_height 1 }

unfoldable pub is_rewarded : ConsensusState → ℕ → Bool
is_rewarded s height = contains_key height s.rewarded_heights

unfoldable pub mark_rewarded : ConsensusState → ℕ → ConsensusState
mark_rewarded s height = record s { rewarded_heights = insert height tt s.rewarded_heights }

unfoldable pub is_block_rewarded : ConsensusState → ℕ → Bool
is_block_rewarded s block_id = contains_key block_id s.rewarded_blocks

unfoldable pub mark_block_rewarded : ConsensusState → ℕ → ConsensusState
mark_block_rewarded s block_id = record s { rewarded_blocks = insert block_id tt s.rewarded_blocks }

unfoldable pub queue_pending_reward :
    ConsensusState → ℕ → ℕ → ℕ → ℕ → Result ConsensusError ConsensusState
queue_pending_reward s block_id validator reward block_height = do
  fail_if (contains_key block_id s.pending_rewards) (already_queued block_id)
  fail_if (contains_key block_id s.rewarded_blocks) (already_rewarded block_id)
  ok (record s { pending_rewards = insert block_id pending s.pending_rewards })
  where
    pending : PendingReward
    pending = record { validator = validator; reward = reward; block_height = block_height }

unfoldable pub is_finalized : ConsensusState → ℕ → ℕ → Bool
is_finalized s block_height current_height =
    leb s.confirmation_threshold (saturating_sub current_height block_height)

unfoldable pub finalized_pending_rewards : ConsensusState → List (ℕ × PendingReward)
unfolding is_finalized
finalized_pending_rewards s =
    retain (λ e. is_finalized s (e.1).block_height s.current_height) s.pending_rewards

unfoldable pub settle_pending_reward : ConsensusState → ℕ → ConsensusState
settle_pending_reward s block_id = record s { pending_rewards = remove block_id s.pending_rewards }

unfoldable pub validate_and_mark_block_reward :
    ConsensusState → ℕ → Result ConsensusError ConsensusState
unfolding is_block_rewarded mark_block_rewarded
validate_and_mark_block_reward s block_id = do
  fail_if (is_block_rewarded s block_id) (double_reward_block block_id)
  ok (mark_block_rewarded s block_id)

unfoldable pub rollback_block_reward : ConsensusState → ℕ → ConsensusState
rollback_block_reward s block_id = record s { rewarded_blocks = remove block_id s.rewarded_blocks }

unfoldable pub set_confirmation_threshold : ConsensusState → ℕ → ConsensusState
set_confirmation_threshold s threshold = record s { confirmation_threshold = threshold }
