-- ===== src/Economics/Distribution.antt =====
-- `distribute_mining_reward` of src/consensus.rs against the cap of src/economics.rs.
use aether_sedc.Prelude.{ℕ, ◌+◌, ◌≤◌, ◌<◌, ◌≡◌, ◌≢◌, arith, u64_mod, add64, ok, err}
use aether_sedc.Dict.{lookup-insert}
use aether_sedc.Economics.{
  hard_cap, hard_cap_reached, Treasury, balance_or_new, update, add_mining_reward,
  distribute_mining_reward,
}

-- A distribution within the cap credits the reward to the validator's balance and to its mining
-- rewards and leaves every other validator alone, and the emission has taken it up.
pub distribute_pays :
    (now : ℕ) (t : Treasury) (id other reward : ℕ)
    → other ≢ id
    → t.emission.total_emitted + reward ≤ hard_cap
    → let (result, t') = distribute_mining_reward now t id reward in
      (result ≡ ok tt)
      × ((balance_or_new now t' id).balance ≡ add64 (balance_or_new now t id).balance reward)
      × ((balance_or_new now t' id).mining_rewards
          ≡ add64 (balance_or_new now t id).mining_rewards reward)
      × (balance_or_new now t' other ≡ balance_or_new now t other)
      × (t'.emission.total_emitted ≡ t.emission.total_emitted + reward)
unfolding distribute_mining_reward add_mining_reward update
distribute_pays now t id other reward ne le =
    let credited = add_mining_reward now (balance_or_new now t id) reward in
    let here = lookup-insert id id credited t.validator_balances in
    let there = lookup-insert other id credited t.validator_balances in
    (ground arith, ground (arith, here), ground (arith, here), ground (arith, there), ground arith)

-- A distribution above the cap, of a sum that fits 64 bits, reports the cap, and has credited the
-- reward all the same.
pub distribute_over_cap_credits :
    (now : ℕ) (t : Treasury) (id reward : ℕ)
    → hard_cap < t.emission.total_emitted + reward
    → t.emission.total_emitted + reward < u64_mod
    → let (result, t') = distribute_mining_reward now t id reward in
      (result ≡ err hard_cap_reached)
      × ((balance_or_new now t' id).balance ≡ add64 (balance_or_new now t id).balance reward)
      × (t'.emission ≡ t.emission)
unfolding distribute_mining_reward add_mining_reward update
distribute_over_cap_credits now t id reward over fits =
    let credited = add_mining_reward now (balance_or_new now t id) reward in
    let here = lookup-insert id id credited t.validator_balances in
    (ground arith, ground (arith, here), ground arith)
