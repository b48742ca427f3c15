-- ===== src/Economics.antt =====
-- `EmissionCurve` and `TokenBalance` of src/economics.rs, and `distribute_mining_reward` of
-- src/consensus.rs. What the source computes in `f64` (the percentage, the difficulty factor) is
-- not modelled. The clock is an argument.
pub mod Emission
pub mod Distribution
use aether_sedc.Prelude.{
  ℕ, zero, suc, ◌+◌, ◌-◌, ◌/◌, ◌%◌, ◌≡◌, Bool, true, false, List, [], ◌∷◌, Option, none, some,
  add64, ltb, leb, ◌==◌, if◌then◌else◌, Result, ok, err, fail_if, ◌>>◌,
}
use aether_sedc.Dict.{Dict, lookup, insert}

abbrev pub hard_cap : ℕ
hard_cap = 21_000_000_000

abbrev pub initial_reward : ℕ
initial_reward = 50

abbrev pub halving_interval : ℕ
halving_interval = 2_100_000

abbrev pub min_reward : ℕ
min_reward = 1

pub record EmissionCurve : Type 0 where
  pub total_emitted : ℕ
  pub current_epoch : ℕ
  pub current_reward : ℕ
  pub halvings_count : ℕ

pub data EconomicsError : Type 0 where
  hard_cap_reached insufficient_balance : EconomicsError

unfoldable pub new : EmissionCurve
new = record {
  total_emitted = 0;
  current_epoch = 0;
  current_reward = initial_reward;
  halvings_count = 0;
}

-- The loop of `calculate_reward`, with its `break`.
unfoldable pub halve : ℕ → ℕ → ℕ
halve zero reward = reward
halve (suc rounds) reward =
    let rest = halve rounds (reward / 2) in if ltb (reward / 2) min_reward then min_reward else rest

unfoldable pub calculate_reward : EmissionCurve → ℕ
unfolding halve
calculate_reward c = halve c.halvings_count initial_reward

-- The end of `update`.
abbrev pub halve_if_due : EmissionCurve → EmissionCurve
halve_if_due c =
    if c.current_epoch % halving_interval == 0
    then (let halved = record c { halvings_count = add64 c.halvings_count 1 } in
        record halved { current_reward = calculate_reward halved })
    else c

unfoldable pub update : EmissionCurve → ℕ → Result EconomicsError EmissionCurve
update c tokens_emitted = do
  fail_if (ltb hard_cap (add64 c.total_emitted tokens_emitted)) hard_cap_reached
  ok (
      halve_if_due (record c {
        total_emitted = add64 c.total_emitted tokens_emitted;
        current_epoch = add64 c.current_epoch 1;
      }))

unfoldable pub remaining_supply : EmissionCurve → ℕ
remaining_supply c = hard_cap - c.total_emitted

unfoldable pub is_cap_reached : EmissionCurve → Bool
is_cap_reached c = leb hard_cap c.total_emitted

pub record TokenBalance : Type 0 where
  pub address : ℕ
  pub balance : ℕ
  pub mining_rewards : ℕ
  pub last_updated : ℕ

unfoldable pub new_balance : ℕ → ℕ → TokenBalance
new_balance now address = record {
  address = address;
  balance = 0;
  mining_rewards = 0;
  last_updated = now;
}

-- `TokenBalance::add`
unfoldable pub add : ℕ → TokenBalance → ℕ → TokenBalance
add now b amount = record b { balance = add64 b.balance amount; last_updated = now }

-- `TokenBalance::subtract`
unfoldable pub subtract : ℕ → TokenBalance → ℕ → Result EconomicsError TokenBalance
subtract now b amount = do
  fail_if (ltb b.balance amount) insufficient_balance
  ok (record b { balance = b.balance - amount; last_updated = now })

unfoldable pub add_mining_reward : ℕ → TokenBalance → ℕ → TokenBalance
unfolding add
add_mining_reward now b amount =
    add now (record b { mining_rewards = add64 b.mining_rewards amount }) amount

-- The fields of `VQVConsensus` that a distribution touches.
pub record Treasury : Type 0 where
  pub emission : EmissionCurve
  pub validator_balances : Dict TokenBalance

-- `entry(id).or_insert_with(..)`
abbrev pub balance_or_new : ℕ → Treasury → ℕ → TokenBalance
balance_or_new now t id = elim (lookup id t.validator_balances) [
  | none ↦ new_balance now id
  | some b ↦ b
]

-- The balance is credited before the emission is checked, and `?` returns with it credited.
unfoldable pub distribute_mining_reward :
    ℕ → Treasury → ℕ → ℕ → Result EconomicsError (Unit {0}) × Treasury
distribute_mining_reward now t validator_id reward =
    let credited = record t {
      validator_balances =
          insert validator_id (add_mining_reward now (balance_or_new now t validator_id) reward)
            t.validator_balances;
    } in
    elim (update t.emission reward) [
      | ok emission ↦ (ok tt, record credited { emission = emission })
      | err e ↦ (err e, credited)
    ]
