-- ===== src/Tests/Money.antt =====
-- The ledger (src/ledger.rs) at concrete inputs.
use aether_sedc.Prelude.{ℕ, ◌+◌, ◌≡◌, refl, ◌≢◌, ◌↔◌, List, [], ◌∷◌, arith, ok}
use aether_sedc.Reward.{calculate_reward}
use aether_sedc.Consensus.{ConsensusState}
use aether_sedc.Ledger.{
  fee_burn_address, get_balance, get_nonce, transfer_internal, validate_and_commit_nonce_internal,
  apply_block_reward,
}
use aether_sedc.Ledger.Sums.{total, IsValid}
use aether_sedc.Ledger.Transfer.{
  CanTransfer, transfer_succeeds_iff, transfer_moves, transfer-IsValid,
}
use aether_sedc.Ledger.Nonces.{accepted, accepted_consecutive}
use aether_sedc.Ledger.Rewards.{CanReward, block_reward_iff}
use aether_sedc.Ledger.Restart.{Disk, save, new_with_storage, restart_restores}
use aether_sedc.Tests.{alice, bob, ledger}

ledger-IsValid : IsValid ledger
ledger-IsValid = record { keys = ground arith; fits = ground arith; burned = refl }

transfer_succeeds_iff_example :
    (((transfer_internal ledger alice bob 10 2).0 ≡ ok tt) ↔ CanTransfer ledger alice bob 10 2)
    × ((¬ CanTransfer ledger alice bob 10 2) → (transfer_internal ledger alice bob 10 2).1 ≡ ledger)
transfer_succeeds_iff_example = transfer_succeeds_iff ledger alice bob 10 2

transfer_moves_example :
    let l' = (transfer_internal ledger alice bob 10 2).1 in
    (get_balance l' alice + 12 ≡ 100)
    × (get_balance l' bob ≡ 11)
    × (get_balance l' fee_burn_address ≡ 2)
    × (l'.total_fees_burned ≡ 2)
    × ((k : ℕ)
        → k ≢ alice
        → k ≢ bob
        → k ≢ fee_burn_address
        → get_balance l' k ≡ get_balance ledger k)
    × (l'.nonces ≡ [])
    × (l'.total_supply ≡ 101)
unfolding transfer_internal
transfer_moves_example =
    transfer_moves ledger alice bob 10 2 (omega arith) (omega arith) (omega arith) refl

transfer-IsValid_example : IsValid (transfer_internal ledger alice bob 10 2).1
transfer-IsValid_example = transfer-IsValid ledger alice bob 10 2 ledger-IsValid

abbrev calls : List (ℕ × ℕ)
calls = (alice, 1) ∷ (bob, 1) ∷ (alice, 1) ∷ (alice, 2) ∷ (alice, 4) ∷ []

accepted_consecutive_example : accepted alice ledger calls ≡ 1 ∷ 2 ∷ []
unfolding accepted validate_and_commit_nonce_internal
accepted_consecutive_example = accepted_consecutive alice ledger calls (omega arith) (omega arith)

-- Twelve blocks are final, and none is rewarded.
abbrev state : ConsensusState
state = record {
  current_height = 12;
  rewarded_heights = [];
  rewarded_blocks = [];
  pending_rewards = [];
  confirmation_threshold = 6;
}

block_reward_iff_example :
    let (result, l') = apply_block_reward ledger alice 40 3 state in
    let reward = calculate_reward 3 in
    ((result ≡ ok tt) ↔ CanReward ledger alice 40 3 state)
    × (result ≡ ok tt → get_balance l' alice ≡ 100 + reward)
    × (result ≡ ok tt → total l'.balances ≡ 101 + reward)
    × (result ≡ ok tt → l'.total_supply ≡ 101 + reward)
    × (result ≢ ok tt → l' ≡ ledger)
block_reward_iff_example = block_reward_iff ledger alice 40 3 state

abbrev disk : Disk
disk = record { balances = (bob, 9) ∷ []; nonces = [] }

restart_restores_example :
    let l' = new_with_storage (save ledger disk) in
    ((k : ℕ) → get_balance l' k ≡ get_balance ledger k)
    × ((k : ℕ) → get_nonce l' k ≡ get_nonce ledger k)
    × (l'.total_fees_burned ≡ 0)
restart_restores_example =
    restart_restores ledger disk ledger-IsValid tt (refl, tt) tt (λ k e. ground arith)
      (λ k e. ground arith)
