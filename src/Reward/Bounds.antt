-- ===== src/Reward/Bounds.antt =====
-- Bounds of a single block reward (src/ledger.rs, `calculate_reward`).
use Prim.Native.Nat.add
use native.Mathlib.Nat.{pow-suc, div-div-eq-div-mul}
use aether_sedc.Prelude.{ℕ, zero, suc, ◌+◌, ◌*◌, ◌/◌, ◌^◌, ◌-◌, ◌≤◌, ◌<◌, ◌≡◌, ◌↔◌, arith}
use aether_sedc.Reward.{calculate_reward, initial_block_reward, halving_interval}

-- Dividing by one more power of two halves.
pub div-pow-suc : (n k : ℕ) → n / 2 ^ suc k ≡ n / 2 ^ k / 2
div-pow-suc n k = rw (pow-suc, ← div-div-eq-div-mul)

-- A later power of two divides to no more.
div-pow-add_le : (n k d : ℕ) → n / 2 ^ (d + k) ≤ n / 2 ^ k
div-pow-add_le n k zero = rw add.zero (omega arith)
div-pow-add_le n k (suc d) =
    rw (add.suc, div-pow-suc n (d + k)) (omega (arith, div-pow-add_le n k d))

pub div-pow_antitone : (n j k : ℕ) → j ≤ k → n / 2 ^ k ≤ n / 2 ^ j
div-pow_antitone n j k le =
    let split : k ≡ k - j + j = omega arith in rw split (div-pow-add_le n j (k - j))

-- A block is rewarded exactly below height 63 * 210,000, and by at most the initial reward.
pub calculate_reward_bounds :
    (h : ℕ)
    → (calculate_reward h ≤ initial_block_reward)
      × ((1 ≤ calculate_reward h) ↔ (h < 63 * halving_interval))
unfolding calculate_reward
calculate_reward_bounds h =
    ground (arith, div-pow_antitone initial_block_reward 0 (h / halving_interval))

-- The reward never rises with the height.
pub calculate_reward_antitone : (h k : ℕ) → h ≤ k → calculate_reward k ≤ calculate_reward h
unfolding calculate_reward
calculate_reward_antitone h k le =
    ground
      (arith, div-pow_antitone initial_block_reward (h / halving_interval) (k / halving_interval))
