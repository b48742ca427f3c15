-- ===== src/Pow.antt =====
-- `MicroPoW` of src/pow.rs, the second proof of work. Arrays of 32 bytes compare like the numbers
-- that they spell, the first byte the highest. The reward calculator is no part of the record.
pub mod Target
use aether_sedc.Prelude.{
  ℕ, zero, suc, ◌+◌, ◌/◌, Bool, true, false, List, [], ◌∷◌, ◌++◌, Option, none, some, ltb,
  if◌then◌else◌,
}
use aether_sedc.Transaction.{Transaction, Crypto, le_bytes, be_bytes, from_be_bytes}

-- `Difficulty`, its value
abbrev pub Difficulty : Type 0
Difficulty = ℕ

-- `k` zero bytes
abbrev pub zero_bytes : ℕ → List ℕ
zero_bytes zero = []
zero_bytes (suc k) = 0 ∷ zero_bytes k

-- The little-endian bytes of the difficulty, at the front of 32 bytes.
unfoldable pub to_target : Difficulty → ℕ
unfolding le_bytes from_be_bytes
to_target difficulty = from_be_bytes 0 (le_bytes 8 difficulty ++ zero_bytes 24)

pub record MicroPow : Type 0 where
  pub difficulty : Difficulty
  pub max_nonce : ℕ

-- `Difficulty::default`
abbrev pub default_difficulty : Difficulty
default_difficulty = 100

-- `MicroPoW::default`
unfoldable pub default : MicroPow
default = record { difficulty = default_difficulty; max_nonce = 1_000_000 }

unfoldable pub set_difficulty : MicroPow → Difficulty → MicroPow
set_difficulty p difficulty = record p { difficulty = difficulty }

module _ (c : Crypto) where
  unfoldable pub compute_pow_hash : Transaction → ℕ
  unfolding le_bytes be_bytes
  compute_pow_hash tx = c.blake3 (
      be_bytes 32 tx.parents.0
      ++ (be_bytes 32 tx.parents.1
          ++ (be_bytes 32 tx.sender
              ++ (be_bytes 32 tx.receiver
                  ++ (le_bytes 8 tx.amount
                      ++ (le_bytes 8 tx.fee
                          ++ (le_bytes 8 tx.timestamp ++ le_bytes 8 tx.nonce)))))))

  unfoldable pub verify : MicroPow → Transaction → Bool
  verify p tx = ltb (compute_pow_hash tx) (to_target p.difficulty)

  unfoldable pub verify_with_staking_bonus : MicroPow → Transaction → Bool → Bool
  verify_with_staking_bonus p tx has_staked =
      ltb (compute_pow_hash tx) (to_target (if has_staked then p.difficulty / 2 else p.difficulty))

  -- The loop of `mine_nonce`, for the rounds that are left.
  unfoldable pub mine_from : MicroPow → Transaction → ℕ → ℕ → Option ℕ
  unfolding verify
  mine_from p tx zero nonce = none
  mine_from p tx (suc rounds) nonce =
      let rest = mine_from p tx rounds (nonce + 1) in
      if verify p (record tx { nonce = nonce }) then some nonce else rest

  unfoldable pub mine_nonce : MicroPow → Transaction → Option ℕ
  unfolding mine_from
  mine_nonce p tx = mine_from p tx p.max_nonce 0
