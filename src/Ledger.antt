-- ===== src/Ledger.antt =====
-- `Ledger` of src/ledger.rs. An address is the number of its 32 bytes, and stands for the hex
-- string by which the maps are keyed. The maps are in memory; `storage` and `path`, the handles
-- of the database behind them, are no part of the record.
pub mod Sums
pub mod Transfer
pub mod Nonces
pub mod Rewards
pub mod Restart
use aether_sedc.Prelude.{
  ℕ, ◌+◌, ◌-◌, ◌≡◌, Bool, List, [], ◌∷◌, Option, none, some, u64_mod, add64, checked_add,
  checked_sub, saturating_sub, ltb, ◌==◌, not, if◌then◌else◌, Result, ok, err, fail_if, ok_or,
  ◌>>=◌, ◌>>◌,
}
use aether_sedc.Dict.{Dict, lookup, insert}
use aether_sedc.Reward.{max_supply, calculate_reward}
use aether_sedc.Consensus
use aether_sedc.Consensus.{ConsensusState}

pub record Ledger : Type 0 where
  pub balances : Dict ℕ
  pub nonces : Dict ℕ
  pub total_fees_burned : ℕ
  pub total_supply : ℕ

-- `FEE_BURN_ADDRESS`, 32 bytes 0xFF
abbrev pub fee_burn_address : ℕ
fee_burn_address = 0xffffffffffffffffffffffffffffffffffffffffffffffffffffffffffffffff

-- `FAUCET_ADDRESS` of src/genesis.rs
abbrev pub faucet_address : ℕ
faucet_address = 0x5579ae9096f1ae55bfd6fd88155fad09c59ab8ccb61c8a297b5d1027ea4ca916

-- The messages, one constructor for each `format!`, with the values it prints.
pub data LedgerError : Type 0 where
  balance_overflow insufficient_balance deduction_overflow receiver_overflow : ℕ → ℕ → LedgerError
  burn_overflow fees_burned_overflow invalid_account_nonce : ℕ → ℕ → LedgerError
  insufficient_funds : ℕ → ℕ → ℕ → ℕ → LedgerError
  already_rewarded : ℕ → LedgerError
  not_finalized supply_overflow exceeds_max_supply : ℕ → ℕ → LedgerError
  block_reward_failed : LedgerError → LedgerError
  rollback_insufficient balance_underflow supply_underflow : ℕ → ℕ → LedgerError

-- What a `&mut self` method leaves: its result, and the ledger, changed or not.
abbrev pub Outcome : Type 0
Outcome = Result LedgerError (Unit {0}) × Ledger

-- The new ledger if the plan succeeds, the old one if it returned early.
abbrev pub commit : Ledger → Result LedgerError Ledger → Outcome
commit l (ok l') = (ok tt, l')
commit l (err e) = (err e, l)

-- `*map.get(&key).unwrap_or(&0)`
abbrev pub get_or_zero : Dict ℕ → ℕ → ℕ
get_or_zero d k = elim (lookup k d) [ none ↦ 0 | some v ↦ v ]

unfoldable pub new : Ledger
new = record { balances = []; nonces = []; total_fees_burned = 0; total_supply = 0 }

-- also `get_balance_hex`
abbrev pub get_balance : Ledger → ℕ → ℕ
get_balance l address = get_or_zero l.balances address

-- also `set_balance_hex`
abbrev pub set_balance : Ledger → ℕ → ℕ → Ledger
set_balance l address balance = record l { balances = insert address balance l.balances }

unfoldable pub add_balance : Ledger → ℕ → ℕ → Outcome
add_balance l address amount =
    let current = get_balance l address in
    commit l (do
      new_balance ← ok_or (checked_add current amount) (balance_overflow current amount)
      ok (set_balance l address new_balance))

unfoldable pub subtract_balance : Ledger → ℕ → ℕ → Outcome
subtract_balance l address amount =
    let current = get_balance l address in
    commit l (do
      fail_if (ltb current amount) (insufficient_balance current amount)
      ok (set_balance l address (current - amount)))

-- The new burn balance and the new total, which `transfer_internal` computes on both its paths.
burn_fee : Ledger → ℕ → ℕ → Result LedgerError (ℕ × ℕ)
burn_fee l burn_balance fee =
    if ltb 0 fee
    then (do
      new_burn ← ok_or (checked_add burn_balance fee) (burn_overflow burn_balance fee)
      new_total ←
          ok_or (checked_add l.total_fees_burned fee) (fees_burned_overflow l.total_fees_burned fee)
      ok (new_burn, new_total))
    else ok (burn_balance, l.total_fees_burned)

-- A transfer from an address to itself: only the fee moves.
self_transfer : Ledger → ℕ → ℕ → Result LedgerError Ledger
unfolding burn_fee
self_transfer l from fee = do
  (new_burn_balance, new_total_fees_burned) ← burn_fee l (get_balance l fee_burn_address) fee
  ok (record l {
    balances =
        insert fee_burn_address new_burn_balance
          (insert from (get_balance l from - fee) l.balances);
    total_fees_burned = new_total_fees_burned;
  })

move_funds : Ledger → ℕ → ℕ → ℕ → ℕ → ℕ → Result LedgerError Ledger
unfolding burn_fee
move_funds l from to amount fee total_deduction = do
  new_to_balance ←
      ok_or (checked_add (get_balance l to) amount) (receiver_overflow (get_balance l to) amount)
  (new_burn_balance, new_total_fees_burned) ← burn_fee l (get_balance l fee_burn_address) fee
  ok (record l {
    balances =
        insert fee_burn_address new_burn_balance (
          insert to new_to_balance (insert from (get_balance l from - total_deduction) l.balances));
    total_fees_burned = new_total_fees_burned;
  })

unfoldable pub transfer_internal : Ledger → ℕ → ℕ → ℕ → ℕ → Outcome
unfolding self_transfer move_funds
transfer_internal l from to amount fee =
    let from_balance = get_balance l from in
    commit l (do
      total_deduction ← ok_or (checked_add amount fee) (deduction_overflow amount fee)
      fail_if (ltb from_balance total_deduction)
          (insufficient_funds from_balance total_deduction amount fee)
      if from == to
          then self_transfer l from fee
          else move_funds l from to amount fee total_deduction)

abbrev pub get_nonce : Ledger → ℕ → ℕ
get_nonce l address = get_or_zero l.nonces address

-- also `commit_nonce`
abbrev pub set_nonce : Ledger → ℕ → ℕ → Ledger
set_nonce l address nonce = record l { nonces = insert address nonce l.nonces }

unfoldable pub validate_account_nonce : Ledger → ℕ → ℕ → Result LedgerError (Unit {0})
validate_account_nonce l address account_nonce =
    if address == faucet_address
    then ok tt
    else fail_if (not (account_nonce == add64 (get_nonce l address) 1))
        (invalid_account_nonce account_nonce (get_nonce l address))

unfoldable pub validate_and_commit_nonce_internal : Ledger → ℕ → ℕ → Outcome
validate_and_commit_nonce_internal l address account_nonce =
    let last_nonce = get_nonce l address in
    if address == faucet_address
    then (ok tt, if ltb last_nonce account_nonce then set_nonce l address account_nonce else l)
    else commit l (do
      fail_if (not (account_nonce == add64 last_nonce 1))
          (invalid_account_nonce account_nonce last_nonce)
      ok (set_nonce l address account_nonce))

unfoldable pub fee_burn_balance : Ledger → ℕ
fee_burn_balance l = get_balance l fee_burn_address

-- The checks of `apply_block_reward`, in order: the new total supply.
reward_plan : Ledger → ℕ → ℕ → ConsensusState → Result LedgerError ℕ
reward_plan l block_id block_height state = do
  fail_if (Consensus.is_block_rewarded state block_id) (already_rewarded block_id)
  fail_if (not (Consensus.is_finalized state block_height state.current_height)) (
      not_finalized block_height
        (state.confirmation_threshold - saturating_sub state.current_height block_height))
  new_supply ←
      ok_or (checked_add l.total_supply (calculate_reward block_height))
        (supply_overflow l.total_supply (calculate_reward block_height))
  fail_if (ltb max_supply new_supply) (exceeds_max_supply new_supply max_supply)
  ok new_supply

-- The balance is credited first; the supply follows only if that succeeded.
credit_reward : Ledger → ℕ → ℕ → ℕ → Outcome
unfolding add_balance
credit_reward l validator reward new_supply =
    let (added, l') = add_balance l validator reward in
    elim added [
      | ok u ↦ (ok u, record l' { total_supply = new_supply })
      | err e ↦ (err (block_reward_failed e), l')
    ]

unfoldable pub apply_block_reward : Ledger → ℕ → ℕ → ℕ → ConsensusState → Outcome
unfolding reward_plan credit_reward
apply_block_reward l validator block_id block_height state =
    elim (reward_plan l block_id block_height state) [
      | ok new_supply ↦ credit_reward l validator (calculate_reward block_height) new_supply
      | err e ↦ (err e, l)
    ]

-- The supply is lowered after the balance, so an underflow there leaves the balance lowered.
lower_supply : Ledger → ℕ → Outcome
lower_supply l reward_amount = commit l (do
  new_supply ←
      ok_or (checked_sub l.total_supply reward_amount)
        (supply_underflow l.total_supply reward_amount)
  ok (record l { total_supply = new_supply }))

rollback_plan : Ledger → ℕ → ℕ → Result LedgerError ℕ
rollback_plan l validator reward_amount =
    let current_balance = get_balance l validator in
    (do
      fail_if (ltb current_balance reward_amount)
          (rollback_insufficient current_balance reward_amount)
      ok_or (checked_sub current_balance reward_amount)
          (balance_underflow current_balance reward_amount))

unfoldable pub rollback_block_reward : Ledger → ℕ → ℕ → Outcome
unfolding rollback_plan lower_supply
rollback_block_reward l validator reward_amount = elim (rollback_plan l validator reward_amount) [
  | ok new_balance ↦ lower_supply (set_balance l validator new_balance) reward_amount
  | err e ↦ (err e, l)
]
