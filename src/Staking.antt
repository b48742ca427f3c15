-- ===== src/Staking.antt =====
-- Staking: the positions of src/storage.rs, and `stake_tokens` and `unstake_tokens` of src/rpc.rs,
-- which move the money between the ledger and a position. The reward of a position is computed in
-- `f64`, so it is a parameter; the time, in seconds, is an argument.
pub mod Money
use aether_sedc.Prelude.{
  ℕ, ◌≡◌, Bool, true, false, Option, none, some, ◌==◌, ◌&&◌, leb, add64, if◌then◌else◌, Result, ok,
  err, ok_or, fail_if, ◌>>=◌, ◌>>◌,
}
use aether_sedc.Dict.{Dict, lookup, contains_key, insert, remove}
use aether_sedc.Ledger
use aether_sedc.Ledger.{Ledger, LedgerError}
use aether_sedc.Quorum.{Vqv, Validator, register_validator, unregister_validator}
use aether_sedc.Storage.{
  Storage, StakingPosition, StorageError, stake_amount_zero, no_staking_position,
}
use aether_sedc.Transaction.{be_bytes}

unfoldable pub get_staking_position : Storage → ℕ → Option StakingPosition
get_staking_position s address = lookup address s.staking

unfoldable pub put_staking_position : Storage → StakingPosition → Storage
put_staking_position s position = record s { staking = insert position.address position s.staking }

unfoldable pub remove_staking_position : Storage → ℕ → Storage
remove_staking_position s address = record s { staking = remove address s.staking }

-- `unwrap_or(StakingPosition { .. })`
abbrev pub position_or_new : ℕ → Storage → ℕ → StakingPosition
position_or_new now s address = elim (lookup address s.staking) [
  | some position ↦ position
  | none ↦ record {
    address = address;
    staked_amount = 0;
    start_timestamp = now;
    rewards_earned = 0;
    last_reward_timestamp = now;
  }
]

-- `Storage::stake_tokens`
unfoldable pub track_stake : ℕ → Storage → ℕ → ℕ → Result StorageError Storage
unfolding put_staking_position
track_stake now s address amount =
    let position = position_or_new now s address in
    (do
      fail_if (amount == 0) stake_amount_zero
      ok (
          put_staking_position s (record position {
            staked_amount = add64 position.staked_amount amount;
            last_reward_timestamp = now;
          })))

-- `get_staked_amount`
unfoldable pub get_staked_amount : Storage → ℕ → Result StorageError ℕ
get_staked_amount s address = do
  position ← ok_or (lookup address s.staking) no_staking_position
  ok position.staked_amount

unfoldable pub has_staked_tokens : Storage → ℕ → Bool
has_staked_tokens s address = contains_key address s.staking

-- What the node shares that staking touches.
pub record Stakes : Type 0 where
  pub ledger : Ledger
  pub storage : Storage
  pub consensus : Vqv

pub record StakingResponse : Type 0 where
  pub address : ℕ
  pub staked_amount : ℕ
  pub rewards_earned : ℕ
  pub success : Bool

abbrev failed : ℕ → StakingResponse
failed address = record {
  address = address;
  staked_amount = 0;
  rewards_earned = 0;
  success = false;
}

-- `Validator::new`, at a time in milliseconds; the reputation is the bit pattern of 1.0.
abbrev pub new_validator : ℕ → ℕ → ℕ → Validator
unfolding be_bytes
new_validator now_ms address stake = record {
  id = address;
  stake = stake;
  public_key = be_bytes 32 address;
  last_seen = now_ms;
  reputation = 0x3ff0000000000000;
}

-- `calculate_staking_reward_internal`; whether the database takes the ledger; and what other tasks
-- write each time that a call has let go of one lock and not yet taken the next.
pub record Terms : Type 0 where
  pub reward : StakingPosition → ℕ → ℕ
  pub saves : Ledger → Bool
  pub others : ℕ → Stakes → Stakes

-- `calculate_staking_reward(..).unwrap_or(0)`
abbrev pub reward_or_zero : Terms → ℕ → Storage → ℕ → ℕ
reward_or_zero t now s address = elim (lookup address s.staking) [
  | none ↦ 0
  | some position ↦ t.reward position now
]

-- `get_staked_amount(..).unwrap_or(0)`
abbrev pub staked_or_zero : Storage → ℕ → ℕ
staked_or_zero s address = elim (lookup address s.staking) [
  | none ↦ 0
  | some position ↦ position.staked_amount
]

-- A validator is registered if the whole stake lies within the bounds; a refusal is only logged.
abbrev pub bridge : ℕ → Vqv → ℕ → ℕ → Vqv
bridge now_ms q address staked =
    if leb q.min_stake staked && leb staked q.max_stake
    then elim (register_validator q (new_validator now_ms address staked)) [
      | ok q' ↦ q'
      | err _ ↦ q
    ]
    else q

-- The end of `stake_tokens`, after the ledger is saved.
unfoldable pub finish_stake : Terms → ℕ → ℕ → Stakes → ℕ → StakingResponse × Stakes
finish_stake t now now_ms w address =
    let staked = staked_or_zero w.storage address in
    let rewards = reward_or_zero t now w.storage address in
    let w' = t.others 3 w in
    (
      record {
        address = address;
        staked_amount = staked;
        rewards_earned = rewards;
        success = true;
      },
      record w' { consensus = bridge now_ms w'.consensus address staked },
    )

-- A failure after the funds were locked credits them again, and nothing else.
abbrev pub give_back : Stakes → ℕ → ℕ → StakingResponse × Stakes
give_back w address amount =
    (failed address, record w { ledger = (Ledger.add_balance w.ledger address amount).1 })

-- `stake_tokens` of the RPC
unfoldable pub stake_tokens : Terms → ℕ → ℕ → Stakes → ℕ → ℕ → StakingResponse × Stakes
stake_tokens t now now_ms w address amount =
    let (locked, ledger') = Ledger.subtract_balance w.ledger address amount in
    let w0 = t.others 0 (record w { ledger = ledger' }) in
    elim locked [
      | err _ ↦ (failed address, record w { ledger = ledger' })
      | ok _ ↦ elim (track_stake now w0.storage address amount) [
        | err _ ↦ give_back (t.others 1 w0) address amount
        | ok storage' ↦
            let w1 = t.others 1 (record w0 { storage = storage' }) in
            let w2 = t.others 2 w1 in
            if t.saves w1.ledger
            then finish_stake t now now_ms w2 address
            else give_back w2 address amount
      ]
    ]

-- `Storage::unstake_tokens`: what to return, and the tree without the position.
unfoldable pub close_stake : Terms → ℕ → Storage → ℕ → Result StorageError (ℕ × Storage)
unfolding remove_staking_position
close_stake t now s address = do
  position ← ok_or (lookup address s.staking) no_staking_position
  let rewards = add64 position.rewards_earned (t.reward position now)
  ok (add64 position.staked_amount rewards, remove_staking_position s address)

-- `unstake_tokens` of the RPC; that the ledger was not saved is only logged.
unfoldable pub unstake_tokens : Terms → ℕ → Stakes → ℕ → StakingResponse × Stakes
unstake_tokens t now w address = elim (close_stake t now w.storage address) [
  | err _ ↦ (failed address, w)
  | ok (total_return, storage') ↦
      let w0 = t.others 0 (record w { storage = storage' }) in
      let (credited, ledger') = Ledger.add_balance w0.ledger address total_return in
      let w1 = t.others 2 (t.others 1 (record w0 { ledger = ledger' })) in
      elim credited [
        | err _ ↦ (failed address, record w0 { ledger = ledger' })
        | ok _ ↦ (
          record {
            address = address;
            staked_amount = 0;
            rewards_earned = total_return;
            success = true;
          },
          record w1 { consensus = unregister_validator w1.consensus address },
        )
      ]
]
