-- ===== src/Transaction/Decode.antt =====
-- `Transaction::deserialize` of src/transaction.rs, on a machine of 64 bits. A slice whose end wraps
-- round below its start panics, which is an outcome of its own.
pub mod Bytes
pub mod RoundTrip
use aether_sedc.Prelude.{
  ℕ, zero, suc, ◌+◌, ◌-◌, ◌*◌, Bool, true, false, List, [], ◌∷◌, ◌++◌, ltb, add64, length,
  if◌then◌else◌,
}
use aether_sedc.Transaction.{Transaction, from_be_bytes, take}

pub data Field : Type 0 where
  id_field parent0_field parent1_field sender_field receiver_field amount_field fee_field : Field
  timestamp_field nonce_field account_nonce_field weight_field signature_length : Field
  signature_field public_key_length public_key_field : Field

-- The messages, with the values that they print.
pub data DecodeError : Type 0 where
  data_too_short : ℕ → DecodeError
  out_of_bytes : ℕ → Field → ℕ → ℕ → DecodeError

pub data Decoded (A : Type 0) : Type 0 where
  decoded : A → Decoded A
  refused : DecodeError → Decoded A
  panicked : Decoded A

infixl 5 ◌>>=◌
abbrev pub ◌>>=◌ : {A B : Type 0} → Decoded A → (A → Decoded B) → Decoded B
decoded a >>= f = f a
refused e >>= f = refused e
panicked >>= f = panicked

-- `&bytes[start..]`
abbrev pub drop : ℕ → List ℕ → List ℕ
drop zero xs = xs
drop (suc n) [] = []
drop (suc n) (x ∷ xs) = drop n xs

-- The number that bytes spell, the first byte the lowest.
unfoldable pub from_le_bytes : List ℕ → ℕ
from_le_bytes [] = 0
from_le_bytes (b ∷ bytes) = b + 256 * from_le_bytes bytes

unfoldable pub read_slice : List ℕ → ℕ → ℕ → Field → Decoded (List ℕ)
read_slice bytes start len field =
    let end = add64 start len in
    if ltb (length bytes) end
    then refused (out_of_bytes (length bytes) field start len)
    else if ltb end start
    then panicked
    else decoded (take (end - start) (drop start bytes))

abbrev pub min_size : ℕ
min_size = 208

-- The fields behind the fixed ones.
unfoldable pub read_tail : List ℕ → (List ℕ → List ℕ → Transaction) → Decoded Transaction
unfolding read_slice from_le_bytes
read_tail bytes build = do
  sig_len_bytes ← read_slice bytes 208 8 signature_length
  let sig_len = from_le_bytes sig_len_bytes
  signature ← read_slice bytes 216 sig_len signature_field
  let cursor = add64 216 sig_len
  pk_len_bytes ← read_slice bytes cursor 8 public_key_length
  let pk_len = from_le_bytes pk_len_bytes
  public_key ← read_slice bytes (add64 cursor 8) pk_len public_key_field
  decoded (build signature public_key)

unfoldable pub deserialize : List ℕ → Decoded Transaction
unfolding read_tail from_be_bytes
deserialize bytes =
    if ltb (length bytes) min_size then refused (data_too_short (length bytes)) else (do
      id ← read_slice bytes 0 32 id_field
      parent0 ← read_slice bytes 32 32 parent0_field
      parent1 ← read_slice bytes 64 32 parent1_field
      sender ← read_slice bytes 96 32 sender_field
      receiver ← read_slice bytes 128 32 receiver_field
      amount ← read_slice bytes 160 8 amount_field
      fee ← read_slice bytes 168 8 fee_field
      timestamp ← read_slice bytes 176 8 timestamp_field
      nonce ← read_slice bytes 184 8 nonce_field
      account_nonce ← read_slice bytes 192 8 account_nonce_field
      weight ← read_slice bytes 200 8 weight_field
      read_tail bytes (λ signature public_key. record {
        id = from_be_bytes 0 id;
        parents = (from_be_bytes 0 parent0, from_be_bytes 0 parent1);
        sender = from_be_bytes 0 sender;
        receiver = from_be_bytes 0 receiver;
        amount = from_le_bytes amount;
        fee = from_le_bytes fee;
        timestamp = from_le_bytes timestamp;
        nonce = from_le_bytes nonce;
        account_nonce = from_le_bytes account_nonce;
        weight = from_le_bytes weight;
        signature = signature;
        public_key = public_key;
      }))
