-- ===== src/Transaction.antt =====
-- `Transaction` of src/transaction.rs and `Wallet::verify_transaction` of src/wallet.rs. A 32-byte
-- identifier or address is the number that its bytes spell, the first byte the highest; a weight,
-- an `f64`, is its bit pattern. The hash and the signature scheme are other crates, so they are
-- fields of `Crypto`.
pub mod Work
pub mod Decode
use Prim.Native.Nat.{bit_and}
use aether_sedc.Prelude.{
  ℕ, zero, suc, ◌+◌, ◌-◌, ◌*◌, ◌/◌, ◌%◌, ◌^◌, ◌<◌, ◌≤◌, Bool, true, false, List, [], ◌∷◌, ◌++◌,
  Option, none, some, ltb, ◌==◌, not, ◌&&◌, if◌then◌else◌, add64, saturating_add, length,
}

pub record Transaction : Type 0 where
  pub id : ℕ
  pub parents : ℕ × ℕ
  pub sender : ℕ
  pub receiver : ℕ
  pub amount : ℕ
  pub fee : ℕ
  pub timestamp : ℕ
  pub nonce : ℕ
  pub account_nonce : ℕ
  pub weight : ℕ
  pub signature : List ℕ
  pub public_key : List ℕ

-- blake3 and ed25519-dalek: a hash, which fits 32 bytes, the two format checks, and the check of a
-- signature, by key, message and signature.
pub record Crypto : Type 0 where
  pub blake3 : List ℕ → ℕ
  pub blake3_fits : (bytes : List ℕ) → blake3 bytes < 2 ^ 256
  pub key_parses : List ℕ → Bool
  pub signature_parses : List ℕ → Bool
  pub verify : List ℕ → ℕ → List ℕ → Bool

-- `to_le_bytes`, of `k` bytes
unfoldable pub le_bytes : ℕ → ℕ → List ℕ
le_bytes zero n = []
le_bytes (suc k) n = (n % 256) ∷ le_bytes k (n / 256)

-- The bytes of an identifier, the first byte the highest.
unfoldable pub be_bytes : ℕ → ℕ → List ℕ
be_bytes zero n = []
be_bytes (suc k) n = (n / 256 ^ k % 256) ∷ be_bytes k n

abbrev bytes32 : ℕ → List ℕ
bytes32 = be_bytes 32

abbrev bytes8 : ℕ → List ℕ
bytes8 = le_bytes 8

-- The number that bytes spell, the first byte the highest.
unfoldable pub from_be_bytes : ℕ → List ℕ → ℕ
from_be_bytes acc [] = acc
from_be_bytes acc (b ∷ bytes) = from_be_bytes (acc * 256 + b) bytes

unfoldable pub is_genesis : Transaction → Bool
is_genesis tx = tx.parents.0 == 0 && tx.parents.1 == 0

unfoldable pub total_deduction : Transaction → ℕ
total_deduction tx = saturating_add tx.amount tx.fee

-- `hash[i]`
abbrev pub byte_at : ℕ → ℕ → ℕ
byte_at hash i = hash / 2 ^ (8 * (31 - i)) % 256

-- `for i in 0..zero_bytes { if hash[i] != 0 { return false; } }`
unfoldable pub zero_prefix : ℕ → ℕ → Bool
zero_prefix hash zero = true
zero_prefix hash (suc i) = zero_prefix hash i && byte_at hash i == 0

-- `0xFF << (8 - remaining_bits)` on `u8`
abbrev pub high_mask : ℕ → ℕ
high_mask remaining_bits = 255 * 2 ^ (8 - remaining_bits) % 256

-- The end of `verify_pow`, on the hash.
unfoldable pub meets_difficulty : ℕ → ℕ → Bool
unfolding zero_prefix
meets_difficulty hash difficulty =
    let zero_bytes = difficulty / 8 in
    let remaining_bits = difficulty % 8 in
    if not (zero_prefix hash zero_bytes)
    then false
    else if ltb 0 remaining_bits && ltb zero_bytes 32
    then bit_and (byte_at hash zero_bytes) (high_mask remaining_bits) == 0
    else true

abbrev pub default_difficulty : ℕ
default_difficulty = 16

module _ {ℓ} {A : Type ℓ} where
  -- `xs[..n]`, where the list is that long
  abbrev pub take : ℕ → List A → List A
  take zero xs = []
  take (suc n) [] = []
  take (suc n) (x ∷ xs) = x ∷ take n xs

unfoldable pub verify_sender_matches_public_key : Transaction → Bool
verify_sender_matches_public_key tx =
    if ltb (length tx.public_key) 32
    then false
    else tx.sender == from_be_bytes 0 (take 32 tx.public_key)

module _ (c : Crypto) where
  open c use {blake3, key_parses, signature_parses, verify}

  unfoldable pub compute_hash : Transaction → ℕ
  unfolding le_bytes be_bytes
  compute_hash tx = blake3 (
      bytes32 tx.parents.0
      ++ (bytes32 tx.parents.1
          ++ (bytes32 tx.sender
              ++ (bytes32 tx.receiver
                  ++ (bytes8 tx.amount
                      ++ (bytes8 tx.fee
                          ++ (bytes8 tx.timestamp
                              ++ (bytes8 tx.nonce
                                  ++ (bytes8 tx.account_nonce
                                      ++ (tx.signature ++ tx.public_key))))))))))

  unfoldable pub new : ℕ × ℕ → ℕ → ℕ → ℕ → ℕ → ℕ → ℕ → ℕ → List ℕ → List ℕ → Transaction
  unfolding compute_hash
  new parents sender receiver amount fee timestamp nonce account_nonce signature public_key =
      record tx { id = compute_hash tx }
    where
      tx : Transaction
      tx = record {
        id = 0;
        parents = parents;
        sender = sender;
        receiver = receiver;
        amount = amount;
        fee = fee;
        timestamp = timestamp;
        nonce = nonce;
        account_nonce = account_nonce;
        weight = 0;
        signature = signature;
        public_key = public_key;
      }

  unfoldable pub compute_signing_hash : Transaction → ℕ
  unfolding le_bytes be_bytes
  compute_signing_hash tx =
      blake3 (
        bytes32 tx.sender ++ (bytes32 tx.receiver ++ (bytes8 tx.amount ++ bytes8 tx.account_nonce)))

  unfoldable pub verify_hash : Transaction → Bool
  unfolding compute_hash
  verify_hash tx = compute_hash tx == tx.id

  unfoldable pub calculate_pow_hash : Transaction → ℕ → ℕ
  unfolding le_bytes be_bytes
  calculate_pow_hash tx nonce = blake3 (
      bytes32 tx.parents.0
      ++ (bytes32 tx.parents.1
          ++ (bytes32 tx.sender
              ++ (bytes32 tx.receiver
                  ++ (bytes8 tx.amount
                      ++ (bytes8 tx.fee ++ (bytes8 tx.timestamp ++ bytes8 nonce)))))))

  unfoldable pub verify_pow : Transaction → ℕ → Bool
  verify_pow tx difficulty = meets_difficulty (calculate_pow_hash tx tx.nonce) difficulty

  -- `Wallet::verify_transaction`
  unfoldable pub verify_transaction : Transaction → Bool
  verify_transaction tx =
      if not (key_parses tx.public_key)
      then false
      else if not (signature_parses tx.signature)
      then false
      else verify tx.public_key (compute_signing_hash tx) tx.signature

-- The check inside the loop of `mine_nonce`, with its flag `valid`.
nonce_is_valid : ℕ → ℕ → Bool
unfolding zero_prefix
nonce_is_valid hash difficulty =
    let zero_bytes = difficulty / 8 in
    let remaining_bits = difficulty % 8 in
    let valid = zero_prefix hash zero_bytes in
    if valid && (ltb 0 remaining_bits && ltb zero_bytes 32)
    then (if not (bit_and (byte_at hash zero_bytes) (high_mask remaining_bits) == 0)
        then false
        else valid)
    else valid

module _ (c : Crypto) where
  -- The loop of `mine_nonce`, for at most as many rounds as the fuel.
  mine_from : Transaction → ℕ → ℕ → ℕ → Option ℕ
  unfolding nonce_is_valid
  mine_from tx difficulty zero nonce = none
  mine_from tx difficulty (suc fuel) nonce =
      let rest = mine_from tx difficulty fuel (add64 nonce 1) in
      if nonce_is_valid (calculate_pow_hash c tx nonce) difficulty then some nonce else rest

  unfoldable pub mine_nonce : ℕ → Transaction → ℕ → Option ℕ
  unfolding mine_from
  mine_nonce fuel tx difficulty = mine_from tx difficulty fuel 0
