-- ===== src/Rpc/Faucet/Authentic.antt =====
-- The transaction of the faucet of src/rpc.rs passes the checks of src/validation.rs that read
-- neither graph nor ledger, and its parents are in the graph.
use native.Mathlib.Decide.{ℕ_discrete}
use aether_sedc.Prelude.{
  ℕ, zero, suc, ◌+◌, ◌<◌, ◌≡◌, refl, ◌∙◌, ◌⊎◌, inl, inr, Bool, true, false, some, arith, u64_mod,
  ok, length, Bool-cases,
}
use aether_sedc.Transaction
use aether_sedc.Transaction.{
  Transaction, Crypto, default_difficulty, mine_nonce, verify_pow, calculate_pow_hash, verify_hash,
  verify_transaction, verify_sender_matches_public_key, compute_hash, compute_signing_hash,
}
use aether_sedc.Transaction.Work.{mine_nonce_finds_first}
use aether_sedc.Validation
use aether_sedc.Validation.{validate_pure}
use aether_sedc.Validation.Accepts.{validate_pure_iff}
use aether_sedc.Rpc.Faucet.{SigningKey, faucet_amount, faucet_addr, faucet_transaction, zeros}

-- A test that some number passes has a first one that passes.
first_below :
    (p : ℕ → Bool) (b : ℕ)
    → ((k : ℕ) → k < b → p k ≡ false)
      ⊎ ((n : ℕ) × (n < b) × (p n ≡ true) × ((k : ℕ) → k < n → p k ≡ false))
first_below p zero = inl (λ k lt. absurd (omega arith))
first_below p (suc b) = elim (first_below p b) [
  | inr (n, lt, hit, miss) ↦ inr (n, omega arith, hit, miss)
  | inl misses ↦ elim (Bool-cases (p b)) [
    | inl hit ↦ inr (b, omega arith, hit, misses)
    | inr miss ↦
        inl (λ k lt. elim (ℕ_discrete k b) [ yes e ↦ rw e miss | no ne ↦ misses k (omega arith) ])
  ]
]

-- What the crate ed25519_dalek documents of a key: it is 32 bytes and parses, its signatures parse
-- and verify.
pub record IsSigning (c : Crypto) (key : SigningKey) : Type 0 where
  pub long : length key.verifying_key ≡ 32
  pub parses : c.key_parses key.verifying_key ≡ true
  pub signs : (message : ℕ) → c.signature_parses (key.sign message) ≡ true
  pub verifies : (message : ℕ) → c.verify key.verifying_key message (key.sign message) ≡ true

module _ (fuel : ℕ) (c : Crypto) (key : SigningKey) (parents : ℕ × ℕ)
    (address timestamp account_nonce : ℕ) where
  abbrev blank : Transaction
  blank =
      Transaction.new c parents (faucet_addr key) address faucet_amount 1 timestamp 0 account_nonce
        (zeros 64) key.verifying_key

  abbrev signed : ℕ → Transaction
  signed nonce =
      let mined = record blank { nonce = nonce } in
      record mined { signature = key.sign (compute_signing_hash c mined) }

  -- The transaction is mined, signed and named by its hash.
  faucet_transaction_lem :
      (nonce : ℕ)
      → mine_nonce c fuel blank default_difficulty ≡ some nonce
      → faucet_transaction fuel c key parents address timestamp account_nonce
        ≡ some (record (signed nonce) { id = compute_hash c (signed nonce) })
  unfolding faucet_transaction
  faucet_transaction_lem nonce e = rw (e, faucet_transaction) refl

  unsigned_work :
      (nonce difficulty : ℕ)
      → verify_pow c (record (signed nonce) { id = compute_hash c (signed nonce) }) difficulty
        ≡ verify_pow c (record blank { nonce = nonce }) difficulty
  unfolding verify_pow calculate_pow_hash
  unsigned_work nonce difficulty = refl

  signature_verifies :
      IsSigning c key
      → (nonce : ℕ)
      → verify_transaction c (record (signed nonce) { id = compute_hash c (signed nonce) }) ≡ true
  unfolding verify_transaction Transaction.new compute_signing_hash
  signature_verifies h nonce = rw (h.parses, h.signs _, h.verifies _) refl

  sender_matches :
      IsSigning c key
      → (nonce : ℕ)
      → verify_sender_matches_public_key
          (record (signed nonce) { id = compute_hash c (signed nonce) })
        ≡ true
  unfolding verify_sender_matches_public_key Transaction.new
  sender_matches h nonce = ground (arith, h.long)

  hash_matches :
      (nonce : ℕ)
      → verify_hash c (record (signed nonce) { id = compute_hash c (signed nonce) }) ≡ true
  unfolding verify_hash compute_hash
  hash_matches nonce = ground arith

  sum_fits :
      (nonce : ℕ)
      → let tx = record (signed nonce) { id = compute_hash c (signed nonce) } in
        tx.amount + tx.fee < u64_mod
  unfolding Transaction.new
  sum_fits nonce = omega arith

  -- Where a 64-bit nonce below the number of rounds meets the default difficulty, the faucet makes a
  -- transaction, and it passes the checks on the transaction alone at that difficulty and is named by
  -- its hash, if the key parses and has 32 bytes and its signatures parse and verify.
  pub faucet_transaction-IsAuthentic :
      (some_nonce : ℕ)
      → IsSigning c key
      → some_nonce < fuel
      → some_nonce < u64_mod
      → verify_pow c (record blank { nonce = some_nonce }) default_difficulty ≡ true
      → (tx : Transaction) × (faucet_transaction fuel c key parents address timestamp account_nonce
          ≡ some tx)
        × (validate_pure c Validation.new tx ≡ ok tt)
        × (verify_hash c tx ≡ true)
  unfolding Validation.new
  faucet_transaction-IsAuthentic some_nonce signing lt fits works =
      let meets : ℕ → Bool = λ k. verify_pow c (record blank { nonce = k }) default_difficulty in
      elim (first_below meets (suc some_nonce)) [
        | inl misses ↦ absurd (ground (arith, misses some_nonce (omega arith)))
        | inr (nonce, le, hit, miss) ↦
            let mined =
              mine_nonce_finds_first c blank default_difficulty fuel nonce (omega arith)
                (omega arith) hit miss in
            (
              record (signed nonce) { id = compute_hash c (signed nonce) },
              faucet_transaction_lem nonce mined,
              (validate_pure_iff c Validation.new _).1 (
                unsigned_work nonce default_difficulty ∙ hit,
                signature_verifies signing nonce,
                sender_matches signing nonce,
                sum_fits nonce,
              ),
              hash_matches nonce,
            )
      ]
