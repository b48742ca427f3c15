-- ===== src/Dag.antt =====
-- `DAG` of src/parent_selection.rs: the graph of transactions, with its children lists and tips.
pub mod Shape
pub mod Add
pub mod Remove
pub mod Walk
pub mod Ancestors
pub mod Children
pub mod Acyclic
pub mod Parents
use aether_sedc.Prelude.{
  ℕ, zero, suc, Bool, true, false, List, [], ◌∷◌, ◌++◌, Option, none, some, ◌==◌, not, ◌&&◌, ◌||◌,
  if◌then◌else◌, any, retain, Result, ok, err, fail_if, ◌>>◌,
}
use aether_sedc.Dict.{Dict, lookup, contains_key, insert, remove}
use aether_sedc.Consensus.{IdSet}
use aether_sedc.Ledger.{faucet_address}
use aether_sedc.Transaction.{Transaction}

pub record Dag : Type 0 where
  pub transactions : Dict Transaction
  pub children : Dict (List ℕ)
  pub tips : IdSet

-- The messages of `add_transaction_validated`.
pub data DagError : Type 0 where
  duplicate_transaction : ℕ → DagError
  parent_missing : ℕ → ℕ → DagError
  parents_already_used sender_conflict : DagError

unfoldable pub new : Dag
new = record { transactions = []; children = []; tips = [] }

-- `parent.iter().all(|&b| b == 0)`
abbrev pub is_zero : ℕ → Bool
is_zero id = id == 0

abbrev pub same_parents : ℕ × ℕ → ℕ × Transaction → Bool
same_parents parents (_, tx) = tx.parents.0 == parents.0 && tx.parents.1 == parents.1

unfoldable pub has_transaction_with_parents : Dag → ℕ × ℕ → Bool
has_transaction_with_parents d parents =
    if is_zero parents.0 && is_zero parents.1
    then false
    else any (same_parents parents) d.transactions

unfoldable pub has_pending_transaction_from_sender : Dag → ℕ → Bool
has_pending_transaction_from_sender d sender = any (λ e. (e.1).sender == sender) d.transactions

abbrev pub uses_nonce : ℕ → ℕ → ℕ × Transaction → Bool
uses_nonce sender nonce (_, tx) = tx.sender == sender && tx.account_nonce == nonce

unfoldable pub has_transaction_with_nonce : Dag → ℕ → ℕ → Bool
has_transaction_with_nonce d sender nonce = any (uses_nonce sender nonce) d.transactions

unfoldable pub has_sender_conflict : Dag → ℕ → ℕ → Bool
unfolding has_transaction_with_nonce
has_sender_conflict d sender nonce =
    if sender == faucet_address then false else has_transaction_with_nonce d sender nonce

-- A parent that is not the genesis and that the graph does not hold.
abbrev pub is_missing : Dag → ℕ → Bool
is_missing d parent = not (is_zero parent) && not (contains_key parent d.transactions)

-- The checks of `add_transaction_validated`, in order.
unfoldable pub check_transaction : Dag → Transaction → Result DagError (Unit {0})
unfolding has_transaction_with_parents has_sender_conflict
check_transaction d tx = do
  fail_if (contains_key tx.id d.transactions) (duplicate_transaction tx.id)
  fail_if (is_missing d tx.parents.0) (parent_missing 0 tx.parents.0)
  fail_if (is_missing d tx.parents.1) (parent_missing 1 tx.parents.1)
  fail_if (has_transaction_with_parents d tx.parents) parents_already_used
  fail_if (has_sender_conflict d tx.sender tx.account_nonce) sender_conflict

-- `children.get(&id).cloned().unwrap_or_default()`
abbrev pub children_of : Dag → ℕ → List ℕ
children_of d id = elim (lookup id d.children) [ none ↦ [] | some ids ↦ ids ]

-- `children.entry(parent).or_insert_with(Vec::new).push(id)`
abbrev pub push_child : ℕ → ℕ → Dag → Dag
push_child parent id d = record d {
  children = insert parent (children_of d parent ++ id ∷ []) d.children;
}

abbrev pub link_child : ℕ → ℕ → Dag → Dag
link_child parent id d =
    if is_zero parent
    then push_child parent id d
    else if contains_key parent d.transactions
    then push_child parent id d
    else d

abbrev pub drop_tip : ℕ → Dag → Dag
drop_tip parent d = if not (is_zero parent) then record d { tips = remove parent d.tips } else d

-- The writes of `add_transaction_validated`.
unfoldable pub insert_transaction : Dag → Transaction → Dag
insert_transaction d tx =
    let d1 = record d { transactions = insert tx.id tx d.transactions } in
    let d2 = link_child tx.parents.0 tx.id d1 in
    let d3 = link_child tx.parents.1 tx.id d2 in
    let d4 = record d3 { tips = insert tx.id tt d3.tips } in
    drop_tip tx.parents.1 (drop_tip tx.parents.0 d4)

unfoldable pub add_transaction_validated : Dag → Transaction → Result DagError (Unit {0}) × Dag
add_transaction_validated d tx = elim (check_transaction d tx) [
  | ok _ ↦ (ok tt, insert_transaction d tx)
  | err e ↦ (err e, d)
]

unfoldable pub get_transaction : Dag → ℕ → Option Transaction
get_transaction d id = lookup id d.transactions

-- `if let Some(children) = self.children.get_mut(parent) { children.retain(..) }`
abbrev pub unlink_child : ℕ → ℕ → Dag → Dag
unlink_child parent id d = elim (lookup parent d.children) [
  | none ↦ d
  | some ids ↦ record d { children = insert parent (retain (λ c. not (c == id)) ids) d.children }
]

abbrev pub restore_tip : ℕ → Dag → Dag
restore_tip parent d =
    if not (is_zero parent) then record d { tips = insert parent tt d.tips } else d

unfoldable pub remove_transaction : Dag → ℕ → Dag
remove_transaction d tx_id = elim (lookup tx_id d.transactions) [
  | none ↦ d
  | some tx ↦
      let d1 = record d { transactions = remove tx_id d.transactions } in
      let d2 = unlink_child tx.parents.1 tx_id (unlink_child tx.parents.0 tx_id d1) in
      let d3 = record d2 { tips = remove tx_id d2.tips } in
      restore_tip tx.parents.1 (restore_tip tx.parents.0 d3)
]

-- `rebuild_tips`: a transaction is a tip if the children map has no entry for it.
abbrev pub childless : Dict (List ℕ) → Dict Transaction → IdSet
childless children [] = []
childless children ((id, _) ∷ rest) =
    let others = childless children rest in
    if contains_key id children then others else insert id tt others

unfoldable pub rebuild_tips : Dag → Dag
rebuild_tips d = record d { tips = childless d.children d.transactions }
