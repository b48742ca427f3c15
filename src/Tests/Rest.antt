-- ===== src/Tests/Rest.antt =====
-- The reward schedule (src/ledger.rs), the reward queue and the quorum (src/consensus.rs), the
-- mempool (src/rpc.rs), the emission (src/economics.rs) and the adaptive difficulty
-- (src/transaction.rs) at concrete inputs.
use mathlib.Core.List.Perm
use aether_sedc.Prelude.{ℕ, ◌+◌, ◌*◌, refl, [], ◌∷◌, arith, leb}
use aether_sedc.Consensus.{ConsensusState, PendingReward}
use aether_sedc.Mempool.{Mempool, add_internal, add_plan, make_room}
use aether_sedc.Mempool.Evict.{Evicts, add_internal-Evicts}
use aether_sedc.Economics.{EmissionCurve}
use aether_sedc.Difficulty
use aether_sedc.Difficulty.{AdaptiveDifficulty, in_window, record_transaction}
use aether_sedc.Difficulty.Range.{IsInRange}
use aether_sedc.Quorum.{Vqv, Validator, Lottery}
use aether_sedc.Transaction.{Transaction}
use aether_sedc.Tests.{bob, payment}

abbrev early : PendingReward
early = record { validator = bob; reward = 100_000_000_000; block_height = 3 }

abbrev late : PendingReward
late = record { validator = bob; reward = 100_000_000_000; block_height = 10 }

abbrev state : ConsensusState
state = record {
  current_height = 11;
  rewarded_heights = [];
  rewarded_blocks = (39, tt) ∷ [];
  pending_rewards = (40, early) ∷ (41, late) ∷ [];
  confirmation_threshold = 6;
}

abbrev queued : ConsensusState
queued = record state { pending_rewards = (40, early) ∷ (41, late) ∷ (42, late) ∷ [] }

abbrev fee_of : ℕ → Transaction
fee_of fee = record payment { fee = fee }

abbrev full : Mempool
full = record { queue = fee_of 5 ∷ fee_of 3 ∷ fee_of 4 ∷ fee_of 3 ∷ []; max_size = 4; min_fee = 1 }

add_internal-Evicts_example : Evicts full (fee_of 4) (add_internal full (fee_of 4)).1.queue
unfolding add_internal add_plan make_room
add_internal-Evicts_example = add_internal-Evicts full (fee_of 4) (omega arith) (omega arith) refl

-- The update that ends the first halving interval.
abbrev curve : EmissionCurve
curve = record {
  total_emitted = 1000;
  current_epoch = 2_099_999;
  current_reward = 50;
  halvings_count = 0;
}

abbrev next_curve : EmissionCurve
next_curve = record {
  total_emitted = 1050;
  current_epoch = 2_100_000;
  current_reward = 25;
  halvings_count = 1;
}

default-IsInRange : IsInRange Difficulty.default
unfolding Difficulty.default
default-IsInRange = record { lower = omega arith; upper = omega arith; small = omega arith }

-- A lottery that leaves the order alone.
abbrev lottery : Lottery
lottery = record {
  seed = λ tx epoch. tx + epoch;
  shuffle = λ s ids. ids;
  shuffle_perm = λ s ids. Perm.refl ids;
  voting_weight = λ v. v.stake;
  meets_threshold = λ a t. leb (t * 2) (a * 3);
}

abbrev validator : ℕ → Validator
validator id = record { id = id; stake = 500; public_key = []; last_seen = 0; reputation = 0 }

abbrev vqv : Vqv
vqv = record {
  validators = (1, validator 1) ∷ (2, validator 2) ∷ (3, validator 3) ∷ (4, validator 4) ∷ [];
  base_quorum_size = 3;
  min_quorum_size = 1;
  max_quorum_size = 6;
  min_stake = 100;
  max_stake = 1000;
  adaptive_threshold = 1000;
}
