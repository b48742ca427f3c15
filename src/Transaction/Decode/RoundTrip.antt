-- ===== src/Transaction/Decode/RoundTrip.antt =====
-- What `Transaction::deserialize` of src/transaction.rs makes of the encoding that its comment
-- describes.

use aether_sedc.Prelude.{
  ℕ, ◌+◌, ◌-◌, ◌^◌, ◌≤◌, ◌<◌, ◌≡◌, refl, ◌∙◌, List, ◌++◌, arith, false, ltb, u64_mod, add64, length,
}
use aether_sedc.Transaction.{Transaction, le_bytes, be_bytes, from_be_bytes}
use aether_sedc.Transaction.Decode.{decoded, panicked, Field, min_size, read_tail, deserialize}
use aether_sedc.Transaction.Decode.Bytes.{
  At, from-le_bytes8, from_be_bytes-be_bytes, length-be_bytes, length-le_bytes, read-At,
  read_slice-wraps,
}

-- Every field of a transaction has the size that its encoding has room for.
pub record IsEncodable (tx : Transaction) : Type 0 where
  pub id : tx.id < 256 ^ 32
  pub parents : (tx.parents.0 < 256 ^ 32) × (tx.parents.1 < 256 ^ 32)
  pub sender : tx.sender < 256 ^ 32
  pub receiver : tx.receiver < 256 ^ 32
  pub amount : tx.amount < u64_mod
  pub fee : tx.fee < u64_mod
  pub timestamp : tx.timestamp < u64_mod
  pub nonce : tx.nonce < u64_mod
  pub account_nonce : tx.account_nonce < u64_mod
  pub weight : tx.weight < u64_mod

-- The fields of a fixed size, in the order of the comment, and the rest.
abbrev pub header : Transaction → List ℕ → List ℕ
header tx rest =
    be_bytes 32 tx.id
    ++ (be_bytes 32 tx.parents.0
        ++ (be_bytes 32 tx.parents.1
            ++ (be_bytes 32 tx.sender
                ++ (be_bytes 32 tx.receiver
                    ++ (le_bytes 8 tx.amount
                        ++ (le_bytes 8 tx.fee
                            ++ (le_bytes 8 tx.timestamp
                                ++ (le_bytes 8 tx.nonce
                                    ++ (le_bytes 8 tx.account_nonce
                                        ++ (le_bytes 8 tx.weight ++ rest))))))))))

-- Each list of bytes behind its length.
abbrev pub tail : List ℕ → List ℕ → List ℕ → List ℕ
tail signature public_key rest =
    le_bytes 8 (length signature)
    ++ (signature ++ (le_bytes 8 (length public_key) ++ (public_key ++ rest)))

id-bytes : (n : ℕ) → n < 256 ^ 32 → from_be_bytes 0 (be_bytes 32 n) ≡ n
id-bytes n lt = omega (arith, from_be_bytes-be_bytes 32 n 0)

read_tail-tail :
    (bytes signature public_key rest : List ℕ) (build : List ℕ → List ℕ → Transaction)
    → length bytes < u64_mod
    → At bytes 208 (tail signature public_key rest)
    → read_tail bytes build ≡ decoded (build signature public_key)
unfolding read_tail
read_tail-tail bytes signature public_key rest build fits at =
    let (r0, a0) =
      read-At bytes (le_bytes 8 (length signature))
        (signature ++ (le_bytes 8 (length public_key) ++ (public_key ++ rest))) 208 8
        Field.signature_length fits at (length-le_bytes 8 (length signature)) in
    let (r1, a1) =
      read-At bytes signature (le_bytes 8 (length public_key) ++ (public_key ++ rest)) 216
        (length signature) Field.signature_field fits a0 refl in
    let (r2, a2) =
      read-At bytes (le_bytes 8 (length public_key)) (public_key ++ rest) (216 + length signature) 8
        Field.public_key_length fits a1 (length-le_bytes 8 (length public_key)) in
    let (r3, a3) =
      read-At bytes public_key rest (216 + length signature + 8) (length public_key)
        Field.public_key_field fits a2 refl in
    let small : length signature < u64_mod = omega (arith, a1.0) in
    let small' : length public_key < u64_mod = omega (arith, a3.0) in
    let e0 = from-le_bytes8 (length signature) small in
    let e1 = from-le_bytes8 (length public_key) small' in
    let c0 : add64 216 (length signature) ≡ 216 + length signature = omega (arith, a1.0) in
    let c1 : add64 (216 + length signature) 8 ≡ 216 + length signature + 8 = omega (arith, a2.0) in
    rw (r0, e0, r1, c0, r2, e1, c1, r3) refl

long_enough : (bytes : List ℕ) → 208 ≤ length bytes → ltb (length bytes) min_size ≡ false
long_enough bytes le = ground arith

-- What decoding makes of a header is what it makes of the rest.
deserialize-header :
    (tx : Transaction) (rest : List ℕ)
    → IsEncodable tx
    → length (header tx rest) < u64_mod
    → At (header tx rest) 208 rest
      × (deserialize (header tx rest)
          ≡ read_tail (header tx rest) (λ signature public_key. record tx {
            signature = signature;
            public_key = public_key;
          }))
unfolding deserialize be_bytes le_bytes
deserialize-header tx rest h fits =
    let bytes = header tx rest in
    let (r0, a0) =
      read-At bytes (be_bytes 32 tx.id)
        (be_bytes 32 tx.parents.0
          ++ (be_bytes 32 tx.parents.1
              ++ (be_bytes 32 tx.sender
                  ++ (be_bytes 32 tx.receiver
                      ++ (le_bytes 8 tx.amount
                          ++ (le_bytes 8 tx.fee
                              ++ (le_bytes 8 tx.timestamp
                                  ++ (le_bytes 8 tx.nonce
                                      ++ (le_bytes 8 tx.account_nonce
                                          ++ (le_bytes 8 tx.weight ++ rest))))))))))
        0 32 Field.id_field fits (omega arith, refl) (length-be_bytes 32 tx.id) in
    let (r1, a1) =
      read-At bytes (be_bytes 32 tx.parents.0)
        (be_bytes 32 tx.parents.1
          ++ (be_bytes 32 tx.sender
              ++ (be_bytes 32 tx.receiver
                  ++ (le_bytes 8 tx.amount
                      ++ (le_bytes 8 tx.fee
                          ++ (le_bytes 8 tx.timestamp
                              ++ (le_bytes 8 tx.nonce
                                  ++ (le_bytes 8 tx.account_nonce
                                      ++ (le_bytes 8 tx.weight ++ rest)))))))))
        32 32 Field.parent0_field fits a0 (length-be_bytes 32 tx.parents.0) in
    let (r2, a2) =
      read-At bytes (be_bytes 32 tx.parents.1)
        (be_bytes 32 tx.sender
          ++ (be_bytes 32 tx.receiver
              ++ (le_bytes 8 tx.amount
                  ++ (le_bytes 8 tx.fee
                      ++ (le_bytes 8 tx.timestamp
                          ++ (le_bytes 8 tx.nonce
                              ++ (le_bytes 8 tx.account_nonce
                                  ++ (le_bytes 8 tx.weight ++ rest))))))))
        64 32 Field.parent1_field fits a1 (length-be_bytes 32 tx.parents.1) in
    let (r3, a3) =
      read-At bytes (be_bytes 32 tx.sender)
        (be_bytes 32 tx.receiver
          ++ (le_bytes 8 tx.amount
              ++ (le_bytes 8 tx.fee
                  ++ (le_bytes 8 tx.timestamp
                      ++ (le_bytes 8 tx.nonce
                          ++ (le_bytes 8 tx.account_nonce ++ (le_bytes 8 tx.weight ++ rest)))))))
        96 32 Field.sender_field fits a2 (length-be_bytes 32 tx.sender) in
    let (r4, a4) =
      read-At bytes (be_bytes 32 tx.receiver)
        (le_bytes 8 tx.amount
          ++ (le_bytes 8 tx.fee
              ++ (le_bytes 8 tx.timestamp
                  ++ (le_bytes 8 tx.nonce
                      ++ (le_bytes 8 tx.account_nonce ++ (le_bytes 8 tx.weight ++ rest))))))
        128 32 Field.receiver_field fits a3 (length-be_bytes 32 tx.receiver) in
    let (r5, a5) =
      read-At bytes (le_bytes 8 tx.amount)
        (le_bytes 8 tx.fee
          ++ (le_bytes 8 tx.timestamp
              ++ (le_bytes 8 tx.nonce
                  ++ (le_bytes 8 tx.account_nonce ++ (le_bytes 8 tx.weight ++ rest)))))
        160 8 Field.amount_field fits a4 (length-le_bytes 8 tx.amount) in
    let (r6, a6) =
      read-At bytes (le_bytes 8 tx.fee)
        (le_bytes 8 tx.timestamp
          ++ (le_bytes 8 tx.nonce
              ++ (le_bytes 8 tx.account_nonce ++ (le_bytes 8 tx.weight ++ rest))))
        168 8 Field.fee_field fits a5 (length-le_bytes 8 tx.fee) in
    let (r7, a7) =
      read-At bytes (le_bytes 8 tx.timestamp)
        (le_bytes 8 tx.nonce ++ (le_bytes 8 tx.account_nonce ++ (le_bytes 8 tx.weight ++ rest))) 176
        8 Field.timestamp_field fits a6 (length-le_bytes 8 tx.timestamp) in
    let (r8, a8) =
      read-At bytes (le_bytes 8 tx.nonce)
        (le_bytes 8 tx.account_nonce ++ (le_bytes 8 tx.weight ++ rest)) 184 8 Field.nonce_field fits
        a7 (length-le_bytes 8 tx.nonce) in
    let (r9, a9) =
      read-At bytes (le_bytes 8 tx.account_nonce) (le_bytes 8 tx.weight ++ rest) 192 8
        Field.account_nonce_field fits a8 (length-le_bytes 8 tx.account_nonce) in
    let (r10, a10) =
      read-At bytes (le_bytes 8 tx.weight) (rest) 200 8 Field.weight_field fits a9
        (length-le_bytes 8 tx.weight) in
    let long = long_enough bytes a10.0 in
    (
      a10,
      rw
          (
            long,
            r0,
            r1,
            r2,
            r3,
            r4,
            r5,
            r6,
            r7,
            r8,
            r9,
            id-bytes tx.id h.id,
            id-bytes tx.parents.0 h.parents.0,
            id-bytes tx.parents.1 h.parents.1,
            id-bytes tx.sender h.sender,
            id-bytes tx.receiver h.receiver,
            from-le_bytes8 tx.amount h.amount,
            from-le_bytes8 tx.fee h.fee,
            from-le_bytes8 tx.timestamp h.timestamp,
            from-le_bytes8 tx.nonce h.nonce,
            from-le_bytes8 tx.account_nonce h.account_nonce,
            from-le_bytes8 tx.weight h.weight,
          )
          refl,
    )

-- Decoding gives back every transaction whose fields have their sizes, from its encoding with
-- anything behind it, of less than 2 ^ 64 bytes.
pub deserialize-header-tail :
    (tx : Transaction) (rest : List ℕ)
    → IsEncodable tx
    → length (header tx (tail tx.signature tx.public_key rest)) < u64_mod
    → deserialize (header tx (tail tx.signature tx.public_key rest)) ≡ decoded tx
deserialize-header-tail tx rest h fits =
    let (at, e) = deserialize-header tx (tail tx.signature tx.public_key rest) h fits in
    e
    ∙ read_tail-tail (header tx (tail tx.signature tx.public_key rest)) tx.signature tx.public_key
        rest (λ signature public_key. record tx { signature = signature; public_key = public_key })
        fits at

-- A length of the signature within 216 of 2 ^ 64 wraps the end of the read round below its start,
-- so that decoding panics.
pub long_signature_panics :
    (tx : Transaction) (n : ℕ) (rest : List ℕ)
    → IsEncodable tx
    → u64_mod - 216 ≤ n
    → n < u64_mod
    → length (header tx (le_bytes 8 n ++ rest)) < u64_mod
    → deserialize (header tx (le_bytes 8 n ++ rest)) ≡ panicked
unfolding read_tail
long_signature_panics tx n rest h ge lt fits =
    let bytes = header tx (le_bytes 8 n ++ rest) in
    let (at, e) = deserialize-header tx (le_bytes 8 n ++ rest) h fits in
    let (r0, a0) =
      read-At bytes (le_bytes 8 n) rest 208 8 Field.signature_length fits at
        (length-le_bytes 8 n) in
    let e0 = from-le_bytes8 n lt in
    let wraps = read_slice-wraps bytes 216 n Field.signature_field a0.0 (omega arith) lt in
    rw (e, r0, e0, wraps) refl
