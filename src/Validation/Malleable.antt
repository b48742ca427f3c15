-- ===== src/Validation/Malleable.antt =====
-- What the checks of src/validation.rs do not bind: the identifier, and what the signature of
-- src/wallet.rs leaves out.
use aether_sedc.Prelude.{ℕ, ◌≡◌, refl, false, ok}
use aether_sedc.Dict.{contains_key}
use aether_sedc.Ledger.{Ledger}
use aether_sedc.Transaction.{
  Transaction, Crypto, verify_pow, verify_transaction, verify_sender_matches_public_key,
  calculate_pow_hash, compute_signing_hash,
}
use aether_sedc.Dag.{Dag}
use aether_sedc.Validation.{TransactionValidator, validate_full}
use aether_sedc.Validation.Accepts.{validate_full_iff}

-- The signature covers neither the identifier, the parents, the fee, the time nor the nonce.
signature_ignores :
    (c : Crypto) (tx : Transaction) (id : ℕ) (parents : ℕ × ℕ) (fee timestamp nonce : ℕ)
    → verify_transaction c
        (record tx { id = id; parents = parents; fee = fee; timestamp = timestamp; nonce = nonce })
      ≡ verify_transaction c tx
unfolding verify_transaction compute_signing_hash
signature_ignores c tx id parents fee timestamp nonce = refl

-- The identifier is not bound to what it identifies: a transaction that the full validation accepts
-- is accepted under every identifier that the graph does not hold.
pub relabelled_is_accepted :
    (c : Crypto) (v : TransactionValidator) (tx : Transaction) (d : Dag) (l : Ledger)
    (min_fee id : ℕ)
    → validate_full c v tx d l min_fee ≡ ok tt
    → contains_key id d.transactions ≡ false
    → validate_full c v (record tx { id = id }) d l min_fee ≡ ok tt
unfolding verify_pow calculate_pow_hash verify_transaction compute_signing_hash
    verify_sender_matches_public_key
relabelled_is_accepted c v tx d l min_fee id h fresh =
    let (authentic, (_, first, second, parents, sender), funded) =
      (validate_full_iff c v tx d l min_fee).0 h in
    (validate_full_iff c v (record tx { id = id }) d l min_fee).1
      (authentic, (fresh, first, second, parents, sender), funded)
