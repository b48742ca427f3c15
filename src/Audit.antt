-- ===== src/Audit.antt =====
-- The detection of double spends of `SecurityAuditor` in src/security_audit.rs. The reputations, each
-- an `f64`, and the results of an audit are no part of the record.
pub mod Detects
pub mod Confirms
pub mod Chains
pub mod Misses
use aether_sedc.Prelude.{
  ℕ, Bool, true, false, List, [], ◌∷◌, ◌++◌, Option, none, some, ltb, ◌==◌, ◌&&◌, not,
  if◌then◌else◌, length, retain,
}
use aether_sedc.Dict.{Dict, lookup, insert}
use aether_sedc.Consensus.{IdSet}
use aether_sedc.Transaction.{Transaction}

pub record SecurityAuditor : Type 0 where
  pub pending_txs : Dict (List Transaction)
  pub confirmed_txs : IdSet

pub record DoubleSpendAttempt : Type 0 where
  pub tx_ids : ℕ × ℕ
  pub sender : ℕ
  pub amounts : ℕ × ℕ
  pub detected_at : ℕ

unfoldable pub new : SecurityAuditor
new = record { pending_txs = []; confirmed_txs = [] }

-- `entry(sender).or_insert_with(Vec::new)`
abbrev pub pending_of : ℕ → Dict (List Transaction) → List Transaction
pending_of sender d = elim (lookup sender d) [ none ↦ [] | some txs ↦ txs ]

unfoldable pub add_pending_transaction : SecurityAuditor → Transaction → SecurityAuditor
add_pending_transaction a tx = record a {
  pending_txs = insert tx.sender (pending_of tx.sender a.pending_txs ++ tx ∷ []) a.pending_txs;
}

abbrev pub retain_all : ℕ → Dict (List Transaction) → Dict (List Transaction)
retain_all id [] = []
retain_all id ((sender, txs) ∷ d) = (sender, retain (λ tx. not (tx.id == id)) txs) ∷ retain_all id d

unfoldable pub confirm_transaction : SecurityAuditor → ℕ → SecurityAuditor
confirm_transaction a id = record a {
  pending_txs = retain_all id a.pending_txs;
  confirmed_txs = insert id tt a.confirmed_txs;
}

abbrev pub conflicts : Transaction → Transaction → Bool
conflicts t u = t.sender == u.sender && not (t.receiver == u.receiver)

abbrev pub attempt : ℕ → Transaction → Transaction → DoubleSpendAttempt
attempt now t u = record {
  tx_ids = (t.id, u.id);
  sender = t.sender;
  amounts = (t.amount, u.amount);
  detected_at = now;
}

-- The inner loop: one transaction against the later ones.
abbrev pub attempts_with : ℕ → Transaction → List Transaction → List DoubleSpendAttempt
attempts_with now t [] = []
attempts_with now t (u ∷ txs) =
    let rest = attempts_with now t txs in if conflicts t u then attempt now t u ∷ rest else rest

-- Both loops over the transactions of one sender.
abbrev pub attempts_among : ℕ → List Transaction → List DoubleSpendAttempt
attempts_among now [] = []
attempts_among now (t ∷ txs) = attempts_with now t txs ++ attempts_among now txs

abbrev pub attempts_in : ℕ → Dict (List Transaction) → List DoubleSpendAttempt
attempts_in now [] = []
attempts_in now ((_, txs) ∷ d) =
    let rest = attempts_in now d in
    if ltb (length txs) 2 then rest else attempts_among now txs ++ rest

-- The time of the report is an argument.
unfoldable pub detect_double_spends : ℕ → SecurityAuditor → List DoubleSpendAttempt
detect_double_spends now a = attempts_in now a.pending_txs
