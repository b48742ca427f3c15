-- ===== src/Node.antt =====
-- The start of the node in src/node.rs: the genesis balances are seeded, the graph is rebuilt from
-- the transactions of the database, and `--repair-ledger` replays it onto the genesis balances.
-- The transactions that dag.json spells, read only if the database has none, are an argument.
pub mod Rebuild
pub mod Restores
pub mod Restart
pub mod Repair
use aether_sedc.Prelude.{
  ℕ, zero, suc, ◌+◌, Bool, true, false, List, [], ◌∷◌, ◌++◌, Option, none, some, ltb, ◌==◌, ◌&&◌,
  ◌||◌, not, add64, if◌then◌else◌, length, any, map, Result, ok, err,
}
use aether_sedc.Dict.{Dict, lookup, contains_key, insert, remove}
use aether_sedc.Consensus.{IdSet}
use aether_sedc.Ledger
use aether_sedc.Ledger.{
  Ledger, LedgerError, insufficient_funds, faucet_address, fee_burn_address, fee_burn_balance,
}
use aether_sedc.Transaction.{Transaction}
use aether_sedc.Dag
use aether_sedc.Dag.{Dag, add_transaction_validated, rebuild_tips}
use aether_sedc.Storage.{Storage, values, get_all_transactions, get_all_orphans, put_entries}

-- `FOUNDER_ADDRESS` of src/genesis.rs
abbrev pub founder_address : ℕ
founder_address = 0x3d17ace653283dbd9aeba6e0d4684795a800e9da952cb682bb67cd970cbe1b3e

-- `GENESIS_LEDGER`, as `initial_balances` holds it.
abbrev pub genesis_ledger : Dict ℕ
genesis_ledger =
    (founder_address, 100_000_000_000) ∷ (faucet_address, 10_000_000_000_000_000_000) ∷ []

-- Each genesis balance is set where the balance is zero.
unfoldable pub seed_genesis : Dict ℕ → Ledger → Ledger
seed_genesis [] l = l
seed_genesis ((address, balance) ∷ rest) l =
    seed_genesis rest
      (if Ledger.get_balance l address == 0 then Ledger.set_balance l address balance else l)

-- The transactions of a list that no earlier one has the identifier of, behind the earlier ones.
unfoldable pub add_absent : List Transaction → List Transaction → List Transaction
add_absent all [] = all
add_absent all (tx ∷ txs) =
    add_absent (if any (λ t. t.id == tx.id) all then all else all ++ tx ∷ []) txs

-- What the graph is rebuilt from: the transactions and orphans of the database, or, if it has none,
-- those of dag.json.
unfoldable pub all_transactions : Storage → List Transaction → List Transaction
unfolding add_absent get_all_transactions get_all_orphans
all_transactions s legacy = elim (add_absent (get_all_transactions s) (get_all_orphans s)) [
  | [] ↦ add_absent [] legacy
  | tx ∷ txs ↦ tx ∷ txs
]

-- A parent that is the genesis or stored.
abbrev pub has_parent : Dag → ℕ → Bool
has_parent d parent = parent == 0 || contains_key parent d.transactions

abbrev pub is_ready : Dag → Transaction → Bool
is_ready d tx = has_parent d tx.parents.0 && has_parent d tx.parents.1

-- What a pass leaves: the graph, what is still pending, and whether a transaction was tried.
pub record Pass : Type 0 where
  pub dag : Dag
  pub pending : List Transaction
  pub progress : Bool

-- One round of the loop. A refused transaction is only logged, and counts as progress.
unfoldable pub rebuild_pass : Dag → List Transaction → Pass
rebuild_pass d [] = record { dag = d; pending = []; progress = false }
rebuild_pass d (tx ∷ txs) =
    let ready = is_ready d tx in
    let rest = rebuild_pass (if ready then (add_transaction_validated d tx).1 else d) txs in
    if ready then record rest { progress = true } else record rest { pending = tx ∷ rest.pending }

-- `while progress && !remaining.is_empty()`, for so many rounds at most.
unfoldable pub rebuild_loop : ℕ → Dag → List Transaction → Dag × List Transaction
unfolding rebuild_pass
rebuild_loop zero d remaining = (d, remaining)
rebuild_loop (suc rounds) d remaining =
    let pass = rebuild_pass d remaining in
    let rest = rebuild_loop rounds pass.dag pass.pending in
    if pass.progress then rest else (pass.dag, pass.pending)

-- The graph and the orphans of a start.
unfoldable pub rebuild : List Transaction → Dag × Dict Transaction
unfolding rebuild_loop
rebuild txs =
    let (d, left) = rebuild_loop (suc (length txs)) Dag.new txs in
    (rebuild_tips d, put_entries (map (λ tx. (tx.id, tx)) left) [])

-- `set_nonce`, if the nonce is higher.
abbrev pub raise_nonce : Ledger → Transaction → Ledger
raise_nonce l tx =
    if ltb (Ledger.get_nonce l tx.sender) tx.account_nonce
    then Ledger.set_nonce l tx.sender tx.account_nonce
    else l

-- `e.starts_with("Insufficient balance")`, of the errors of a transfer
abbrev pub is_insufficient : LedgerError → Bool
is_insufficient (insufficient_funds _ _ _ _) = true
is_insufficient _ = false

abbrev pub is_applied : IdSet → ℕ → Bool
is_applied applied parent = parent == 0 || contains_key parent applied

-- What a transaction does to a replay: applied, skipped for good, or left for the next pass.
pub data Fate : Type 0 where
  replayed skipped deferred : Fate

unfoldable pub fate : Ledger → IdSet → Transaction → Fate
fate l applied tx =
    if is_applied applied tx.parents.0 && is_applied applied tx.parents.1
    then elim ((Ledger.transfer_internal l tx.sender tx.receiver tx.amount tx.fee).0) [
      | ok _ ↦ replayed
      | err e ↦ if is_insufficient e then deferred else skipped
    ]
    else deferred

-- The state of the replay.
pub record Replay : Type 0 where
  pub ledger : Ledger
  pub applied : IdSet
  pub pending : List Transaction
  pub progress : Bool

-- The ledger and the applied identifiers after a transaction.
abbrev pub replay_ledger : Fate → Ledger → Transaction → Ledger
replay_ledger replayed l tx =
    raise_nonce (Ledger.transfer_internal l tx.sender tx.receiver tx.amount tx.fee).1 tx
replay_ledger _ l tx = l

abbrev pub replay_applied : Fate → IdSet → Transaction → IdSet
replay_applied deferred applied tx = applied
replay_applied _ applied tx = insert tx.id tt applied

abbrev pub note_fate : Fate → Transaction → Replay → Replay
note_fate replayed tx rest = record rest { progress = true }
note_fate skipped tx rest = rest
note_fate deferred tx rest = record rest { pending = tx ∷ rest.pending }

-- One round of the replay.
unfoldable pub replay_pass : Ledger → IdSet → List Transaction → Replay
unfolding fate
replay_pass l applied [] = record { ledger = l; applied = applied; pending = []; progress = false }
replay_pass l applied (tx ∷ txs) =
    let f = fate l applied tx in
    note_fate f tx (replay_pass (replay_ledger f l tx) (replay_applied f applied tx) txs)

-- `while progress && !pending.is_empty()`, for so many rounds at most.
unfoldable pub replay_loop : ℕ → Ledger → IdSet → List Transaction → Ledger × List Transaction
unfolding replay_pass
replay_loop zero l applied pending = (l, pending)
replay_loop (suc rounds) l applied pending =
    let pass = replay_pass l applied pending in
    let rest = replay_loop rounds pass.ledger pass.applied pass.pending in
    if pass.progress then rest else (pass.ledger, pass.pending)

-- Setting each balance of a list.
abbrev pub set_balances : Dict ℕ → Ledger → Ledger
set_balances [] l = l
set_balances ((address, balance) ∷ rest) l =
    set_balances rest (Ledger.set_balance l address balance)

-- The sum of the balances but the burned one, as `u64`s are added.
abbrev pub supply_of : Dict ℕ → ℕ
supply_of [] = 0
supply_of ((address, balance) ∷ rest) =
    if address == fee_burn_address then supply_of rest else add64 balance (supply_of rest)

-- `--repair-ledger`: what the ledger is cleared to, and the ledger after the replay.
unfoldable pub genesis : Ledger
genesis = set_balances genesis_ledger Ledger.new

unfoldable pub repair_ledger : Dag → Ledger
unfolding replay_loop genesis fee_burn_balance
repair_ledger d =
    let pending = values d.transactions in
    let l = (replay_loop (suc (length pending)) genesis [] pending).0 in
    record l { total_fees_burned = fee_burn_balance l; total_supply = supply_of l.balances }
