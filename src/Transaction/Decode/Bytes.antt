-- ===== src/Transaction/Decode/Bytes.antt =====
-- The bytes of numbers, and the reads of `Transaction::deserialize` (src/transaction.rs) at a position.
use native.Mathlib.Nat.{div-add-mod, div-div-eq-div-mul, pow-suc}
use aether_sedc.Prelude.{
  ℕ, zero, suc, ◌+◌, ◌-◌, ◌*◌, ◌%◌, ◌/◌, ◌^◌, ◌≤◌, ◌<◌, ◌≡◌, refl, sym, ap, ◌∙◌, List, [], ◌∷◌,
  ◌++◌, arith, u64_mod, length, length-append,
}
use aether_sedc.Transaction.{le_bytes, be_bytes, from_be_bytes, take}
use aether_sedc.Transaction.Decode.{decoded, panicked, Field, drop, from_le_bytes, read_slice}

pub from-le_bytes8 : (n : ℕ) → n < u64_mod → from_le_bytes (le_bytes 8 n) ≡ n
unfolding from_le_bytes le_bytes
from-le_bytes8 n lt = omega arith

-- One more digit in front of the low ones.
high_digit : (n m : ℕ) → n % (m * 256) ≡ n / m % 256 * m + n % m
high_digit n m = omega (
  arith,
  div-add-mod n m,
  div-add-mod n (m * 256),
  div-div-eq-div-mul n m 256,
  ap (λ (t : ℕ). m * t) (div-add-mod (n / m) 256),
  ap (λ (t : ℕ). m * t) (div-div-eq-div-mul n m 256),
)

pub from_be_bytes-be_bytes :
    (k n acc : ℕ) → from_be_bytes acc (be_bytes k n) ≡ acc * 256 ^ k + n % 256 ^ k
unfolding from_be_bytes be_bytes
from_be_bytes-be_bytes zero n acc = omega arith
from_be_bytes-be_bytes (suc k) n acc = omega (
  arith,
  from_be_bytes-be_bytes k n (acc * 256 + n / 256 ^ k % 256),
  ap (λ (t : ℕ). n % t) (pow-suc 256 k),
  ap (λ (t : ℕ). acc * t) (pow-suc 256 k),
  high_digit n (256 ^ k),
)

pub length-be_bytes : (k n : ℕ) → length (be_bytes k n) ≡ k
unfolding be_bytes
length-be_bytes zero n = refl
length-be_bytes (suc k) n = ground (arith, length-be_bytes k n)

pub length-le_bytes : (k n : ℕ) → length (le_bytes k n) ≡ k
unfolding le_bytes
length-le_bytes zero n = refl
length-le_bytes (suc k) n = ground (arith, length-le_bytes k (n / 256))

take-append : (xs ys : List ℕ) → take (length xs) (xs ++ ys) ≡ xs
take-append [] ys = refl
take-append (x ∷ xs) ys = rw (take-append xs ys) refl

drop-append : (xs ys : List ℕ) → drop (length xs) (xs ++ ys) ≡ ys
drop-append [] ys = refl
drop-append (x ∷ xs) ys = drop-append xs ys

drop-nil : (n : ℕ) → drop n [] ≡ []
drop-nil zero = refl
drop-nil (suc n) = refl

drop-drop : (m n : ℕ) (xs : List ℕ) → drop (m + n) xs ≡ drop n (drop m xs)
drop-drop zero n xs = ground arith
drop-drop (suc m) n [] = drop-nil (suc m + n) ∙ sym (drop-nil n)
drop-drop (suc m) n (x ∷ xs) =
    let next : suc m + n ≡ suc (m + n) = omega arith in
    ap (λ (t : ℕ). drop t (x ∷ xs)) next ∙ drop-drop m n xs

length-drop : (n : ℕ) (xs : List ℕ) → length (drop n xs) ≡ length xs - n
length-drop zero xs = omega arith
length-drop (suc n) [] = omega arith
length-drop (suc n) (x ∷ xs) = ground (arith, length-drop n xs)

-- What stands from a position on.
abbrev pub At : List ℕ → ℕ → List ℕ → Type 0
At bytes start rest = (start ≤ length bytes) × (drop start bytes ≡ rest)

-- A read of the field that stands at a position finds it, and what follows stands behind it.
pub read-At :
    (bytes xs back : List ℕ) (start len : ℕ) (field : Field)
    → length bytes < u64_mod
    → At bytes start (xs ++ back)
    → length xs ≡ len
    → (read_slice bytes start len field ≡ decoded xs) × At bytes (start + len) back
unfolding read_slice
read-At bytes xs back start len field fits (le, there) sized =
    let sum = length-append xs back in
    let left = length-drop start bytes in
    let total = ap (length {A = ℕ}) there in
    let taken = ap (λ (t : ℕ). take t (xs ++ back)) (sym sized) ∙ take-append xs back in
    let dropped = ap (λ (t : ℕ). drop t (xs ++ back)) (sym sized) ∙ drop-append xs back in
    (
      ground (arith, there, sum, left, total, taken),
      (
        omega (arith, sum, left, total),
        drop-drop start len bytes ∙ (ap (drop len) there ∙ dropped),
      ),
    )

-- A read whose end wraps round below its start panics.
pub read_slice-wraps :
    (bytes : List ℕ) (start len : ℕ) (field : Field)
    → start ≤ length bytes
    → u64_mod ≤ start + len
    → len < u64_mod
    → read_slice bytes start len field ≡ panicked
unfolding read_slice
read_slice-wraps bytes start len field le over lt = ground arith
