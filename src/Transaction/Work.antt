-- ===== src/Transaction/Work.antt =====
-- Proof of work of src/transaction.rs: what `verify_pow` accepts, and what `mine_nonce` finds.
use Prim.Native.Nat.{bit_and}
use Prim.Native.Nat.add
use mathlib.Core.Path.{subst}
use native.Mathlib.Nat.{pow-suc, div-lt_iff_lt-mul}
use native.Mathlib.Decide.{ℕ_discrete}
use aether_sedc.Prelude.{
  ℕ, zero, suc, ◌+◌, ◌-◌, ◌*◌, ◌/◌, ◌%◌, ◌^◌, ◌<◌, ◌≤◌, ◌≡◌, refl, ap, ◌↔◌, inl, inr, Bool, true,
  false, ◌&&◌, ◌||◌, some, u64_mod, add64, arith, ltb, ◌==◌, not, if◌then◌else◌, Bool-cases,
}
use aether_sedc.Transaction.{
  Transaction, Crypto, byte_at, zero_prefix, high_mask, meets_difficulty, nonce_is_valid,
  calculate_pow_hash, verify_pow, mine_from, mine_nonce,
}

pow_pos : (k : ℕ) → 0 < 2 ^ k
pow_pos zero = omega arith
pow_pos (suc k) = rw (pow-suc 2 k) (omega (arith, pow_pos k))

pow-add : (a b : ℕ) → 2 ^ (a + b) ≡ 2 ^ a * 2 ^ b
pow-add zero b = rw add.zero (omega arith)
pow-add (suc a) b = rw (add.suc, pow-suc 2 (a + b), pow-suc 2 a, pow-add a b) (omega arith)

-- One more zero byte divides the bound by 256.
below_byte : (h m : ℕ) → 0 < m → h < m * 256 → ((h / m % 256 ≡ 0) ↔ (h < m))
below_byte h m pos lt =
    let q : h / m < 256 = (div-lt_iff_lt-mul pos).1 (omega arith) in
    (
      (λ e. let lower : h < 1 * m = (div-lt_iff_lt-mul pos).0 (omega arith) in omega arith),
      (λ b. let lower : h / m < 1 = (div-lt_iff_lt-mul pos).1 (omega arith) in omega arith),
    )

-- Every number below the bound passes the test.
check_all : (ℕ → Bool) → ℕ → Bool
check_all test zero = true
check_all test (suc bound) = let rest = check_all test bound in if test bound then rest else false

check_all_at :
    (test : ℕ → Bool) (bound k : ℕ) → k < bound → check_all test bound ≡ true → test k ≡ true
unfolding check_all
check_all_at test zero k below passed = absurd (omega arith)
check_all_at test (suc bound) k below passed = ground (arith, check_all_at test bound k)

same : Bool → Bool → Bool
same a b = if a then b else not b

mask_row : ℕ → ℕ → Bool
unfolding same
mask_row r b = same (bit_and b (high_mask r) == 0) (ltb b (2 ^ (8 - r)))

mask_table : check_all (λ r. r == 0 || check_all (mask_row r) 256) 8 ≡ true
unfolding check_all mask_row
mask_table = refl

-- The mask keeps the highest bits, so it finds none exactly in a small byte.
high_mask_iff :
    (r b : ℕ)
    → 0 < r
    → r < 8
    → b < 256
    → (((bit_and b (high_mask r) == 0) ≡ true) ↔ (b < 2 ^ (8 - r)))
unfolding mask_row same
high_mask_iff r b pos lt byte =
    let row = check_all_at (λ r. r == 0 || check_all (mask_row r) 256) 8 r lt mask_table in
    let entry = check_all_at (mask_row r) 256 b byte (ground (arith, row)) in ground (arith, entry)

zero_step :
    (p : Bool) (h m big small : ℕ)
    → 0 < m
    → ((p ≡ true) ↔ (h < big))
    → big ≡ m * 256
    → small ≡ m
    → (((p && h / m % 256 == 0) ≡ true) ↔ (h < small))
zero_step p h m big small pos ih split bound = ground (arith, below_byte h m pos)

byte_bound :
    (h m k whole : ℕ) → 0 < m → h < m * 256 → whole ≡ k * m → (h / m % 256 < k) ↔ (h < whole)
byte_bound h m k whole pos lt e =
    let q : h / m < 256 = (div-lt_iff_lt-mul pos).1 (omega arith) in
    (
      (λ b. let lower : h < k * m = (div-lt_iff_lt-mul pos).0 (omega arith) in omega arith),
      (λ b. let lower : h / m < k = (div-lt_iff_lt-mul pos).1 (omega arith) in omega arith),
    )

-- The first `k` bytes of a 256-bit number are zero exactly below 2 ^ (8 * (32 - k)).
zero_prefix_iff :
    (h k : ℕ) → h < 2 ^ 256 → k ≤ 32 → ((zero_prefix h k ≡ true) ↔ (h < 2 ^ (8 * (32 - k))))
unfolding zero_prefix
zero_prefix_iff h zero fits le = ((λ _. fits), (λ _. refl))
zero_prefix_iff h (suc k) fits le =
    let m = 2 ^ (8 * (31 - k)) in
    let split : 2 ^ (8 * (32 - k)) ≡ m * 256 =
      let e : 8 * (32 - k) ≡ 8 * (31 - k) + 8 = omega arith in rw (e, pow-add) refl in
    let same_bound : 2 ^ (8 * (32 - suc k)) ≡ m =
      let e : 32 - suc k ≡ 31 - k = omega arith in rw e refl in
    zero_step (zero_prefix h k) h m (2 ^ (8 * (32 - k))) (2 ^ (8 * (32 - suc k)))
      (pow_pos (8 * (31 - k))) (zero_prefix_iff h k fits (omega arith)) split same_bound

-- The accepting hashes of one difficulty, by whole bytes and remaining bits.
partial_byte :
    (h z r : ℕ)
    → h < 2 ^ (8 * (32 - z))
    → z < 32
    → r < 8
    → (byte_at h z < 2 ^ (8 - r)) ↔ (h < 2 ^ (256 - (8 * z + r)))
partial_byte h z r fits le lt =
    let m = 2 ^ (8 * (31 - z)) in
    let split : 2 ^ (8 * (32 - z)) ≡ m * 256 =
      let e : 8 * (32 - z) ≡ 8 * (31 - z) + 8 = omega arith in rw (e, pow-add) refl in
    let whole : 2 ^ (256 - (8 * z + r)) ≡ 2 ^ (8 - r) * m =
      let e : 256 - (8 * z + r) ≡ (8 - r) + 8 * (31 - z) = omega arith in rw (e, pow-add) refl in
    byte_bound h m (2 ^ (8 - r)) (2 ^ (256 - (8 * z + r))) (pow_pos (8 * (31 - z)))
      (omega (arith, split)) whole

pow_mono : (j k : ℕ) → j ≤ k → 2 ^ j ≤ 2 ^ k
pow_mono j k le =
    let split : k ≡ (k - j) + j = omega arith in
    rw (split, pow-add) (grind (arith, pow_pos (k - j)))

meets_difficulty_iff :
    (h d : ℕ) → h < 2 ^ 256 → d < 256 → ((meets_difficulty h d ≡ true) ↔ (h < 2 ^ (256 - d)))
unfolding meets_difficulty
meets_difficulty_iff h d fits small =
    let z = d / 8 in
    let r = d % 8 in
    let prefix = zero_prefix_iff h z fits (omega arith) in
    let split : 256 - d ≡ 256 - (8 * z + r) = omega arith in
    elim (Bool-cases (zero_prefix h z)) [
      | inr no_prefix ↦ ground (arith, prefix, pow_mono (256 - d) (8 * (32 - z)) (omega arith))
      | inl has_prefix ↦ elim (ℕ_discrete r 0) [
        | yes whole ↦
            let bound : 2 ^ (256 - d) ≡ 2 ^ (8 * (32 - z)) = ap (λ (k : ℕ). 2 ^ k) (omega arith) in
            ground (arith, prefix, bound)
        | no rest ↦
            let bound : 2 ^ (256 - d) ≡ 2 ^ (256 - (8 * z + r)) = ap (λ (k : ℕ). 2 ^ k) split in
            ground (
              arith,
              bound,
              high_mask_iff r (byte_at h z) (omega arith) (omega arith) (omega arith),
              partial_byte h z r (prefix.0 has_prefix) (omega arith) (omega arith),
            )
      ]
    ]

-- For a difficulty below 256, the proof of work of a transaction is accepted exactly when its
-- hash, read as a number, lies below 2 ^ (256 - difficulty).
pub verify_pow_iff :
    (c : Crypto) (tx : Transaction) (difficulty : ℕ)
    → difficulty < 256
    → ((verify_pow c tx difficulty ≡ true)
        ↔ (calculate_pow_hash c tx tx.nonce < 2 ^ (256 - difficulty)))
unfolding verify_pow calculate_pow_hash
verify_pow_iff c tx difficulty small = meets_difficulty_iff _ difficulty (c.blake3_fits _) small

-- The two copies of the check agree.
nonce_is_valid-meets : (h d : ℕ) → nonce_is_valid h d ≡ meets_difficulty h d
unfolding nonce_is_valid meets_difficulty
nonce_is_valid-meets h d = ground arith

-- The loop stops at the first nonce that meets the difficulty.
mine_from-first :
    (c : Crypto) (tx : Transaction) (d fuel start n : ℕ)
    → start ≤ n
    → n < start + fuel
    → n < u64_mod
    → meets_difficulty (calculate_pow_hash c tx n) d ≡ true
    → ((k : ℕ) → k < n → meets_difficulty (calculate_pow_hash c tx k) d ≡ false)
    → mine_from c tx d fuel start ≡ some n
unfolding mine_from
mine_from-first c tx d zero start n le lt fits hit miss = absurd (omega arith)
mine_from-first c tx d (suc fuel) start n le lt fits hit miss = elim (ℕ_discrete start n) [
  | yes e ↦ rw (nonce_is_valid-meets (calculate_pow_hash c tx start) d, e, hit) refl
  | no ne ↦
      let next : add64 start 1 ≡ start + 1 = omega arith in
      rw (nonce_is_valid-meets (calculate_pow_hash c tx start) d, miss start (omega arith), next)
        (mine_from-first c tx d fuel (start + 1) n (omega arith) (omega arith) fits hit miss)
]

-- Where some 64-bit nonce meets the difficulty, mining returns the first one, given more rounds
-- than it, and the proof of work is then accepted.
pub mine_nonce_finds_first :
    (c : Crypto) (tx : Transaction) (d fuel n : ℕ)
    → n < fuel
    → n < u64_mod
    → verify_pow c (record tx { nonce = n }) d ≡ true
    → ((k : ℕ) → k < n → verify_pow c (record tx { nonce = k }) d ≡ false)
    → mine_nonce c fuel tx d ≡ some n
unfolding mine_nonce verify_pow calculate_pow_hash
mine_nonce_finds_first c tx d fuel n lt fits hit miss =
    mine_from-first c tx d fuel 0 n (omega arith) (omega arith) fits hit miss

mine_from-valid :
    (c : Crypto) (tx : Transaction) (d fuel start n : ℕ)
    → mine_from c tx d fuel start ≡ some n
    → verify_pow c (record tx { nonce = n }) d ≡ true
unfolding mine_from verify_pow calculate_pow_hash
mine_from-valid c tx d zero start n e = absurd (ground arith)
mine_from-valid c tx d (suc fuel) start n e =
    let meets = nonce_is_valid-meets (calculate_pow_hash c tx start) d in
    elim (Bool-cases (nonce_is_valid (calculate_pow_hash c tx start) d)) [
      | inl valid ↦
          let found : start ≡ n = ground arith in
          subst (λ k. meets_difficulty (calculate_pow_hash c tx k) d ≡ true) found (ground arith)
      | inr invalid ↦ mine_from-valid c tx d fuel (add64 start 1) n (ground arith)
    ]

-- A mined nonce is a proof of work.
pub mine_nonce-valid :
    (c : Crypto) (tx : Transaction) (d fuel n : ℕ)
    → mine_nonce c fuel tx d ≡ some n
    → verify_pow c (record tx { nonce = n }) d ≡ true
unfolding mine_nonce
mine_nonce-valid c tx d fuel n e = mine_from-valid c tx d fuel 0 n e
