-- ===== src/Validation.antt =====
-- `TransactionValidator` of src/validation.rs: the pure checks, the checks against the graph, and
-- the checks against the ledger, in the order of the source.
pub mod Accepts
pub mod Malleable
use aether_sedc.Prelude.{
  ℕ, zero, suc, Bool, List, [], ◌∷◌, Option, none, some, ltb, not, if◌then◌else◌, checked_add,
  add64, Result, ok, err, fail_if, ok_or, map_err, ◌>>=◌, ◌>>◌,
}
use aether_sedc.Dict.{contains_key}
use aether_sedc.Ledger.{Ledger, get_balance, get_nonce, validate_account_nonce}
use aether_sedc.Transaction.{
  Transaction, Crypto, default_difficulty, verify_pow, verify_transaction,
  verify_sender_matches_public_key,
}
use aether_sedc.Dag.{Dag, is_missing, has_transaction_with_parents, has_sender_conflict}

pub data ValidationError : Type 0 where
  invalid_pow : ℕ → ValidationError
  invalid_signature sender_public_key_mismatch : ValidationError
  duplicate_transaction : ℕ → ValidationError
  missing_parent : ℕ → ℕ → ValidationError
  double_spend sender_conflict overflow : ValidationError
  insufficient_balance invalid_nonce insufficient_fee : ℕ → ℕ → ValidationError

pub record TransactionValidator : Type 0 where
  pub difficulty : ℕ

unfoldable pub new : TransactionValidator
new = record { difficulty = default_difficulty }

unfoldable pub with_difficulty : ℕ → TransactionValidator
with_difficulty difficulty = record { difficulty = difficulty }

unfoldable pub validate_dag : Transaction → Dag → Result ValidationError (Unit {0})
validate_dag tx dag = do
  fail_if (contains_key tx.id dag.transactions) (duplicate_transaction tx.id)
  fail_if (is_missing dag tx.parents.0) (missing_parent 0 tx.parents.0)
  fail_if (is_missing dag tx.parents.1) (missing_parent 1 tx.parents.1)
  fail_if (has_transaction_with_parents dag tx.parents) double_spend
  fail_if (has_sender_conflict dag tx.sender tx.account_nonce) sender_conflict

unfoldable pub validate_ledger : Transaction → Ledger → ℕ → Result ValidationError (Unit {0})
validate_ledger tx ledger min_fee = do
  let sender_balance = get_balance ledger tx.sender
  required ← ok_or (checked_add tx.amount tx.fee) overflow
  fail_if (ltb sender_balance required) (insufficient_balance required sender_balance)
  map_err (λ _. invalid_nonce (add64 (get_nonce ledger tx.sender) 1) tx.account_nonce)
      (validate_account_nonce ledger tx.sender tx.account_nonce)
  fail_if (ltb tx.fee min_fee) (insufficient_fee min_fee tx.fee)

module _ (c : Crypto) where
  unfoldable pub validate_pure :
      TransactionValidator → Transaction → Result ValidationError (Unit {0})
  validate_pure v tx = do
    fail_if (not (verify_pow c tx v.difficulty)) (invalid_pow v.difficulty)
    fail_if (not (verify_transaction c tx)) invalid_signature
    fail_if (not (verify_sender_matches_public_key tx)) sender_public_key_mismatch
    sum ← ok_or (checked_add tx.amount tx.fee) overflow
    ok tt

  unfoldable pub validate_full :
      TransactionValidator → Transaction → Dag → Ledger → ℕ → Result ValidationError (Unit {0})
  validate_full v tx dag ledger min_fee = do
    validate_pure v tx
    validate_dag tx dag
    validate_ledger tx ledger min_fee
