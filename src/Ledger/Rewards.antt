-- ===== src/Ledger/Rewards.antt =====
-- `apply_block_reward` and `rollback_block_reward` of src/ledger.rs, and the cap on the supply.
use aether_sedc.Prelude.{
  ℕ, ◌+◌, ◌-◌, ◌≤◌, ◌<◌, ◌≡◌, ◌≢◌, ◌↔◌, false, arith, u64_mod, ok, err, saturating_sub,
}
use aether_sedc.Dict.{insert}
use aether_sedc.Reward.{max_supply, calculate_reward}
use aether_sedc.Reward.Bounds.{calculate_reward_bounds}
use aether_sedc.Consensus
use aether_sedc.Consensus.{ConsensusState, is_block_rewarded}
use aether_sedc.Ledger.{
  Ledger, get_or_zero, get_balance, set_balance, supply_underflow, transfer_internal,
  apply_block_reward, rollback_block_reward,
}
use aether_sedc.Ledger.Sums.{get_or_zero-insert, total, total-insert}

pub calculate_reward-le-max : (h : ℕ) → calculate_reward h ≤ max_supply
calculate_reward-le-max h = omega (arith, (calculate_reward_bounds h).0)

-- What a block must meet to be rewarded.
abbrev pub CanReward : Ledger → ℕ → ℕ → ℕ → ConsensusState → Type 0
CanReward l validator block_id block_height s =
    (is_block_rewarded s block_id ≡ false)
    × (s.confirmation_threshold ≤ saturating_sub s.current_height block_height)
    × (l.total_supply + calculate_reward block_height ≤ max_supply)
    × (get_balance l validator + calculate_reward block_height < u64_mod)

-- A reward is paid exactly to a block that is final and not yet rewarded, within the supply cap
-- and the range of the balance; it then raises the validator's balance, the sum of all balances
-- and the recorded supply by the scheduled amount, and else the ledger stays as it was.
pub block_reward_iff :
    (l : Ledger) (validator block_id block_height : ℕ) (s : ConsensusState)
    → let (result, l') = apply_block_reward l validator block_id block_height s in
      let reward = calculate_reward block_height in
      ((result ≡ ok tt) ↔ CanReward l validator block_id block_height s)
      × (result ≡ ok tt → get_balance l' validator ≡ get_balance l validator + reward)
      × (result ≡ ok tt → total l'.balances ≡ total l.balances + reward)
      × (result ≡ ok tt → l'.total_supply ≡ l.total_supply + reward)
      × (result ≢ ok tt → l' ≡ l)
unfolding apply_block_reward Consensus.is_finalized
block_reward_iff l validator block_id block_height s =
    let reward = calculate_reward block_height in
    let v = get_balance l validator + reward in
    (
      ground arith,
      ground (arith, get_or_zero-insert validator validator v l.balances),
      ground (arith, total-insert validator v l.balances),
      ground arith,
      ground arith,
    )

-- No operation on the ledger takes the recorded supply above the cap.
pub supply_capped :
    (l : Ledger) (a b x y : ℕ) (s : ConsensusState)
    → l.total_supply ≤ max_supply
    → ((transfer_internal l a b x y).1.total_supply ≤ max_supply)
      × ((apply_block_reward l a b x s).1.total_supply ≤ max_supply)
      × ((rollback_block_reward l a x).1.total_supply ≤ max_supply)
unfolding transfer_internal apply_block_reward rollback_block_reward
supply_capped l a b x y s h = (ground arith, ground arith, ground arith)

abbrev paid_ledger : Ledger → ℕ → ℕ → Ledger
paid_ledger l validator reward = record l {
  balances = insert validator (get_balance l validator + reward) l.balances;
  total_supply = l.total_supply + reward;
}

pub reward_writes :
    (l : Ledger) (validator block_id block_height : ℕ) (s : ConsensusState)
    → (apply_block_reward l validator block_id block_height s).0 ≡ ok tt
    → (apply_block_reward l validator block_id block_height s).1
      ≡ paid_ledger l validator (calculate_reward block_height)
unfolding apply_block_reward
reward_writes l validator block_id block_height s h = ground arith

rollback-paid :
    (l : Ledger) (validator reward : ℕ)
    → let (result, l') = rollback_block_reward (paid_ledger l validator reward) validator reward in
      (result ≡ ok tt)
      × ((k : ℕ) → get_balance l' k ≡ get_balance l k)
      × (l'.total_supply ≡ l.total_supply)
unfolding rollback_block_reward
rollback-paid l validator reward =
    let paid = insert validator (get_balance l validator + reward) l.balances in
    let found =
      get_or_zero-insert validator validator (get_balance l validator + reward) l.balances in
    (
      ground (arith, found),
      (λ k. ground (
        arith,
        found,
        get_or_zero-insert k validator (get_balance l validator + reward) l.balances,
        get_or_zero-insert k validator (get_balance l validator) paid,
        get_or_zero-insert k validator (get_or_zero paid validator - reward) paid,
      )),
      ground (arith, found),
    )

-- Rolling a paid reward back, by its scheduled amount, restores every balance and the supply.
pub rollback-reward :
    (l : Ledger) (validator block_id block_height : ℕ) (s : ConsensusState)
    → (apply_block_reward l validator block_id block_height s).0 ≡ ok tt
    → let paid = (apply_block_reward l validator block_id block_height s).1 in
      let (result, l') = rollback_block_reward paid validator (calculate_reward block_height) in
      (result ≡ ok tt)
      × ((k : ℕ) → get_balance l' k ≡ get_balance l k)
      × (l'.total_supply ≡ l.total_supply)
rollback-reward l validator block_id block_height s h =
    rw (reward_writes l validator block_id block_height s h)
      (rollback-paid l validator (calculate_reward block_height))

-- A rollback of more than the recorded supply, which the validator's balance covers, is refused
-- and has taken the amount from the balance all the same.
pub rollback_not_atomic :
    (l : Ledger) (validator amount : ℕ)
    → amount ≤ get_balance l validator
    → l.total_supply < amount
    → rollback_block_reward l validator amount ≡ (
      err (supply_underflow l.total_supply amount),
      set_balance l validator (get_balance l validator - amount),
    )
unfolding rollback_block_reward
rollback_not_atomic l validator amount covered short = ground arith
