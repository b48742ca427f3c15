-- ===== src/Validation/Accepts.antt =====
-- What src/validation.rs accepts, and what an accepted transaction means for the ledger
-- (src/ledger.rs) and the graph (src/parent_selection.rs).
use aether_sedc.Prelude.{ℕ, ◌+◌, ◌≤◌, ◌<◌, ◌≡◌, ◌↔◌, ◌⊎◌, true, false, arith, u64_mod, add64, ok}
use aether_sedc.Dict.{contains_key}
use aether_sedc.Ledger.{
  Ledger, faucet_address, get_balance, get_nonce, validate_account_nonce, transfer_internal,
  validate_and_commit_nonce_internal,
}
use aether_sedc.Ledger.Transfer.{BurnHasRoom, transfer_succeeds_iff, transfer_nonces}
use aether_sedc.Transaction.{
  Transaction, Crypto, verify_pow, verify_transaction, verify_sender_matches_public_key,
}
use aether_sedc.Dag.{
  Dag, is_missing, has_transaction_with_parents, has_sender_conflict, check_transaction,
}
use aether_sedc.Validation.{
  TransactionValidator, validate_pure, validate_dag, validate_ledger, validate_full,
}

-- The checks on the transaction alone.
abbrev pub IsAuthentic : Crypto → TransactionValidator → Transaction → Type 0
IsAuthentic c v tx =
    (verify_pow c tx v.difficulty ≡ true)
    × (verify_transaction c tx ≡ true)
    × (verify_sender_matches_public_key tx ≡ true)
    × (tx.amount + tx.fee < u64_mod)

-- The checks against the graph.
abbrev pub IsFresh : Transaction → Dag → Type 0
IsFresh tx d =
    (contains_key tx.id d.transactions ≡ false)
    × (is_missing d tx.parents.0 ≡ false)
    × (is_missing d tx.parents.1 ≡ false)
    × (has_transaction_with_parents d tx.parents ≡ false)
    × (has_sender_conflict d tx.sender tx.account_nonce ≡ false)

-- The checks against the ledger.
abbrev pub IsFunded : Transaction → Ledger → ℕ → Type 0
IsFunded tx l min_fee =
    (tx.amount + tx.fee < u64_mod)
    × (tx.amount + tx.fee ≤ get_balance l tx.sender)
    × ((tx.sender ≡ faucet_address) ⊎ (tx.account_nonce ≡ add64 (get_nonce l tx.sender) 1))
    × (min_fee ≤ tx.fee)

pub validate_pure_iff :
    (c : Crypto) (v : TransactionValidator) (tx : Transaction)
    → (validate_pure c v tx ≡ ok tt) ↔ IsAuthentic c v tx
unfolding validate_pure
validate_pure_iff c v tx = ground arith

pub validate_dag_iff : (tx : Transaction) (d : Dag) → (validate_dag tx d ≡ ok tt) ↔ IsFresh tx d
unfolding validate_dag
validate_dag_iff tx d = ground arith

pub validate_ledger_iff :
    (tx : Transaction) (l : Ledger) (min_fee : ℕ)
    → (validate_ledger tx l min_fee ≡ ok tt) ↔ IsFunded tx l min_fee
unfolding validate_ledger validate_account_nonce
validate_ledger_iff tx l min_fee = ground arith

-- The full validation accepts a transaction exactly when its proof of work, its signature and its
-- sender's key hold, the graph does not conflict with it, and the ledger covers it with a
-- sufficient fee and a nonce that is the successor of the sender's last one; of the faucet any nonce
-- is accepted, used ones too.
pub validate_full_iff :
    (c : Crypto) (v : TransactionValidator) (tx : Transaction) (d : Dag) (l : Ledger) (min_fee : ℕ)
    → (validate_full c v tx d l min_fee ≡ ok tt)
      ↔ (IsAuthentic c v tx × IsFresh tx d × IsFunded tx l min_fee)
unfolding validate_full
validate_full_iff c v tx d l min_fee =
    ground
      (arith, validate_pure_iff c v tx, validate_dag_iff tx d, validate_ledger_iff tx l min_fee)

-- The validator and the graph make the same decision: the graph takes exactly the transactions
-- that the validation against it accepts.
pub validate-check :
    (tx : Transaction) (d : Dag) → (validate_dag tx d ≡ ok tt) ↔ (check_transaction d tx ≡ ok tt)
unfolding validate_dag check_transaction
validate-check tx d = ground arith

-- On the ledger that a transaction was validated against, its transfer can only fail for want of
-- room at the receiver, the burn address or the counter of burned fees, and its nonce is then
-- committed without fail.
pub validated_applies :
    (tx : Transaction) (l : Ledger) (min_fee : ℕ)
    → validate_ledger tx l min_fee ≡ ok tt
    → (((transfer_internal l tx.sender tx.receiver tx.amount tx.fee).0 ≡ ok tt) ↔ (
        ((tx.sender ≡ tx.receiver) ⊎ (get_balance l tx.receiver + tx.amount < u64_mod))
        × BurnHasRoom l tx.fee))
      × ((validate_and_commit_nonce_internal
            (transfer_internal l tx.sender tx.receiver tx.amount tx.fee).1
            tx.sender
            tx.account_nonce).0
          ≡ ok tt)
unfolding validate_and_commit_nonce_internal
validated_applies tx l min_fee h =
    let funded = (validate_ledger_iff tx l min_fee).0 h in
    (
      ground (arith, (transfer_succeeds_iff l tx.sender tx.receiver tx.amount tx.fee).0),
      ground (arith, transfer_nonces l tx.sender tx.receiver tx.amount tx.fee),
    )
