-- ===== src/Reward.antt =====
-- The block reward schedule of src/ledger.rs and the two genesis constants that it meets.
pub mod Bounds
pub mod Issuance
use aether_sedc.Prelude.{ℕ, ◌+◌, ◌/◌, ◌^◌, max, leb, if◌then◌else◌}

-- `MAX_SUPPLY`
abbrev pub max_supply : ℕ
max_supply = 18_000_000_000_000_000_000

-- `INITIAL_BLOCK_REWARD`
abbrev pub initial_block_reward : ℕ
initial_block_reward = 100_000_000_000

-- `HALVING_INTERVAL`
abbrev pub halving_interval : ℕ
halving_interval = 210_000

-- The amounts of `GENESIS_LEDGER`, summed: the founder's and the faucet's.
abbrev pub genesis_supply : ℕ
genesis_supply = 100_000_000_000 + 10_000_000_000_000_000_000

unfoldable pub calculate_reward : ℕ → ℕ
calculate_reward block_height =
    let halvings = block_height / halving_interval in
    if leb 63 halvings then 0 else max (initial_block_reward / 2 ^ halvings) 1
