-- ===== src/Staking/Money.antt =====
-- The money of a stake (src/rpc.rs, src/storage.rs): where it goes, and where it comes from.

use aether_sedc.Prelude.{
  ℕ, ◌+◌, ◌-◌, ◌≤◌, ◌<◌, ◌≡◌, refl, true, false, some, arith, Bool, inl, inr, Option-cases, u64_mod,
  add64, ok,
}
use aether_sedc.Dict.{lookup, insert, lookup-insert, lookup-remove}
use aether_sedc.Ledger.{Ledger, get_balance, add_balance, subtract_balance}
use aether_sedc.Ledger.Sums.{get_or_zero-insert, total, total-insert}
use aether_sedc.Storage.{Storage, StakingPosition}
use aether_sedc.Staking.{
  Stakes, Terms, position_or_new, track_stake, close_stake, staked_or_zero, finish_stake,
  stake_tokens, unstake_tokens, remove_staking_position,
}

-- A call while which no other task writes.
abbrev pub alone : (StakingPosition → ℕ → ℕ) → (Ledger → Bool) → Terms
alone reward saves = record { reward = reward; saves = saves; others = λ gap w. w }

-- Every position is stored under its own address.
abbrev pub StakesNamed : Storage → Type 0
StakesNamed s =
    (k : ℕ) (position : StakingPosition) → lookup k s.staking ≡ some position → position.address ≡ k

-- The position of an address after a stake.
abbrev pub topped_up : ℕ → Storage → ℕ → ℕ → StakingPosition
topped_up now s address amount =
    let position = position_or_new now s address in
    record position {
      staked_amount = add64 position.staked_amount amount;
      last_reward_timestamp = now;
    }

position-address :
    (now : ℕ) (s : Storage) (address : ℕ)
    → StakesNamed s
    → (position_or_new now s address).address ≡ address
position-address now s address named = elim (Option-cases (lookup address s.staking)) [
  | inl e ↦ ground arith
  | inr (position, e) ↦ ground (arith, named address position e)
]

track_stake-ok :
    (now : ℕ) (s : Storage) (address amount : ℕ)
    → 0 < amount
    → StakesNamed s
    → track_stake now s address amount
      ≡ ok (record s { staking = insert address (topped_up now s address amount) s.staking })
unfolding track_stake
track_stake-ok now s address amount pos named = ground (arith, position-address now s address named)

staked-position :
    (now : ℕ) (s : Storage) (address : ℕ)
    → (position_or_new now s address).staked_amount ≡ staked_or_zero s address
staked-position now s address = ground arith

staked-insert :
    (s : Storage) (address : ℕ) (position : StakingPosition)
    → staked_or_zero (record s { staking = insert address position s.staking }) address
      ≡ position.staked_amount
staked-insert s address position = ground (arith, lookup-insert address address position s.staking)

module _ (reward : StakingPosition → ℕ → ℕ) (now now_ms : ℕ) (w : Stakes) (address amount : ℕ) where
  -- The ledger and the storage once the money is locked and the stake is tracked.
  abbrev locked : Ledger
  locked = record w.ledger {
    balances = insert address (get_balance w.ledger address - amount) w.ledger.balances;
  }

  abbrev tracked : Storage
  tracked = record w.storage {
    staking = insert address (topped_up now w.storage address amount) w.storage.staking;
  }

  stake_saved :
      (saves : Ledger → Bool)
      → 0 < amount
      → amount ≤ get_balance w.ledger address
      → StakesNamed w.storage
      → saves locked ≡ true
      → stake_tokens (alone reward saves) now now_ms w address amount
        ≡ finish_stake
            (alone reward saves)
            now
            now_ms
            (record w { ledger = locked; storage = tracked })
            address
  unfolding stake_tokens subtract_balance
  stake_saved saves pos covered named saved =
      ground (arith, track_stake-ok now w.storage address amount pos named)

  stake_unsaved :
      (saves : Ledger → Bool)
      → 0 < amount
      → amount ≤ get_balance w.ledger address
      → StakesNamed w.storage
      → saves locked ≡ false
      → stake_tokens (alone reward saves) now now_ms w address amount ≡ (
        record { address = address; staked_amount = 0; rewards_earned = 0; success = false },
        record w { ledger = (add_balance locked address amount).1; storage = tracked },
      )
  unfolding stake_tokens subtract_balance
  stake_unsaved saves pos covered named saved =
      ground (arith, track_stake-ok now w.storage address amount pos named)

  -- A stake of an amount that is not zero, that the balance covers and that keeps the stake within
  -- 64 bits succeeds while no other task writes, the ledger can be saved and every position is
  -- stored under its own address: it takes the amount from the balance and from the sum of all
  -- balances, and adds it to the stake.
  pub stake_moves :
      (saves : Ledger → Bool)
      → 0 < amount
      → amount ≤ get_balance w.ledger address
      → StakesNamed w.storage
      → saves locked ≡ true
      → staked_or_zero w.storage address + amount < u64_mod
      → let (response, w') = stake_tokens (alone reward saves) now now_ms w address amount in
        (response.success ≡ true)
        × (get_balance w'.ledger address + amount ≡ get_balance w.ledger address)
        × (staked_or_zero w'.storage address ≡ staked_or_zero w.storage address + amount)
        × (total w'.ledger.balances + amount ≡ total w.ledger.balances)
  unfolding finish_stake
  stake_moves saves pos covered named saved room = rw (stake_saved saves pos covered named saved) (
      let less = get_balance w.ledger address - amount in
      (
        refl,
        ground (arith, get_or_zero-insert address address less w.ledger.balances),
        ground (
          arith,
          staked-insert w.storage address (topped_up now w.storage address amount),
          staked-position now w.storage address,
        ),
        ground (arith, total-insert address less w.ledger.balances),
      ))

  -- A stake whose ledger cannot be saved reports failure and gives the amount back, but keeps the
  -- position: the address owns the amount twice.
  pub unsaved_stake_doubles :
      (saves : Ledger → Bool)
      → 0 < amount
      → amount ≤ get_balance w.ledger address
      → get_balance w.ledger address < u64_mod
      → StakesNamed w.storage
      → saves locked ≡ false
      → staked_or_zero w.storage address + amount < u64_mod
      → let (response, w') = stake_tokens (alone reward saves) now now_ms w address amount in
        (response.success ≡ false)
        × (get_balance w'.ledger address ≡ get_balance w.ledger address)
        × (total w'.ledger.balances ≡ total w.ledger.balances)
        × (staked_or_zero w'.storage address ≡ staked_or_zero w.storage address + amount)
  unfolding add_balance
  unsaved_stake_doubles saves pos covered fits named unsaved room =
      rw (stake_unsaved saves pos covered named unsaved) (
        let less = get_balance w.ledger address - amount in
        let here = get_or_zero-insert address address less w.ledger.balances in
        let again =
          get_or_zero-insert address address (get_balance locked address + amount)
            locked.balances in
        (
          refl,
          ground (arith, here, again),
          ground (
            arith,
            here,
            total-insert address less w.ledger.balances,
            total-insert address (get_balance locked address + amount) locked.balances,
          ),
          ground (
            arith,
            staked-insert w.storage address (topped_up now w.storage address amount),
            staked-position now w.storage address,
          ),
        ))

  -- Adding to a stake resets the time from which its reward is counted: taken out at that time, it
  -- returns what was staked and credited before and the new amount, and nothing of the reward that
  -- had accrued since. No reward accrues in no time, and the sums fit 64 bits.
  pub top_up_forfeits :
      (saves : Ledger → Bool) (position : StakingPosition)
      → 0 < amount
      → amount ≤ get_balance w.ledger address
      → StakesNamed w.storage
      → saves locked ≡ true
      → lookup address w.storage.staking ≡ some position
      → ((p : StakingPosition) → p.last_reward_timestamp ≡ now → reward p now ≡ 0)
      → position.staked_amount + amount + position.rewards_earned < u64_mod
      → let w' = (stake_tokens (alone reward saves) now now_ms w address amount).1 in
        (storage' : Storage) × (close_stake (alone reward saves) now w'.storage address
          ≡ ok (position.staked_amount + amount + position.rewards_earned, storage'))
  unfolding finish_stake close_stake
  top_up_forfeits saves position pos covered named saved found idle room =
      rw (stake_saved saves pos covered named saved) (
        let p = topped_up now w.storage address amount in
        (
          remove_staking_position tracked address,
          ground (arith, lookup-insert address address p w.storage.staking, idle p refl),
        ))

module _ (reward : StakingPosition → ℕ → ℕ) (saves : Ledger → Bool) (now : ℕ) (w : Stakes)
    (address : ℕ) (position : StakingPosition)
    (found : lookup address w.storage.staking ≡ some position) where
  -- What is due on the position.
  abbrev due : ℕ
  due = position.staked_amount + position.rewards_earned + reward position now

  -- While no other task writes, taking out a stake succeeds if what is due on it, the stake with
  -- its rewards, fits 64 bits and the balance has room for it: the balance and the sum of all
  -- balances grow by what is due, the stake is gone, and the recorded supply stays.
  pub unstake_mints :
      due < u64_mod
      → get_balance w.ledger address + due < u64_mod
      → let (response, w') = unstake_tokens (alone reward saves) now w address in
        (response.success ≡ true)
        × (get_balance w'.ledger address ≡ get_balance w.ledger address + due)
        × (total w'.ledger.balances ≡ total w.ledger.balances + due)
        × (staked_or_zero w'.storage address ≡ 0)
        × (w'.ledger.total_supply ≡ w.ledger.total_supply)
  unfolding unstake_tokens close_stake remove_staking_position add_balance
  unstake_mints fits room =
      let more = get_balance w.ledger address + due in
      (
        ground (arith, found),
        ground (arith, found, get_or_zero-insert address address more w.ledger.balances),
        ground (arith, found, total-insert address more w.ledger.balances),
        ground (arith, found, lookup-remove address address w.storage.staking),
        ground (arith, found),
      )

  -- Taking out a stake that does not fit the balance reports failure, credits nothing, and has
  -- removed the position: the stake is lost.
  pub unstake_overflow_loses :
      due < u64_mod
      → u64_mod ≤ get_balance w.ledger address + due
      → let (response, w') = unstake_tokens (alone reward saves) now w address in
        (response.success ≡ false)
        × (w'.ledger ≡ w.ledger)
        × (staked_or_zero w'.storage address ≡ 0)
  unfolding unstake_tokens close_stake remove_staking_position add_balance
  unstake_overflow_loses fits over = (
    ground (arith, found),
    ground (arith, found),
    ground (arith, found, lookup-remove address address w.storage.staking),
  )
