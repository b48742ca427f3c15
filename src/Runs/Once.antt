-- ===== src/Runs/Once.antt =====
-- Along a run of the node (src/rpc.rs) a transaction is accepted once at most, and so is a nonce of
-- a sender.
use mathlib.Core.Path.{subst}
use aether_sedc.Prelude.{ℕ, ◌≡◌, ◌≢◌, sym, inl, inr, true, arith, Option, some, ok}
use aether_sedc.Dict.{contains_key, lookup-insert, lookup-contains_key}
use aether_sedc.Ledger.{faucet_address}
use aether_sedc.Transaction.{Transaction, Crypto}
use aether_sedc.Dag.Shape.{transactions_added}
use aether_sedc.Mempool.{set_min_fee}
use aether_sedc.Validation
use aether_sedc.Processor.Safety.{refused_if_stored, success_writes}
use aether_sedc.Rpc.{Node, Call, process_transaction}
use aether_sedc.Rpc.Accepted.{processed_cases, ahead}
use aether_sedc.Runs.Steps.{RunOf, Run, IsOrdinary, Ordinary, submitted}
use aether_sedc.Runs.Keeps.{Stores, Run-Stores, Run-Holds}
use aether_sedc.Runs.Sound.{IsTidy, Run-IsTidy}

-- What other tasks do while the call waits are runs.
abbrev pub IsAmong : (Call → Transaction → Node → Type 0) → Crypto → Option ℕ → Call → Type 0
IsAmong Q c miner call =
    ((gap : ℕ) (m : Node) → RunOf Q c miner m (call.others gap m))
    × ((m : Node) → RunOf Q c miner m (record m { world = call.env.interleaved m.world }))

abbrev pub IsAmongRuns : Crypto → Option ℕ → Call → Type 0
IsAmongRuns = IsAmong Ordinary

module _ (c : Crypto) (miner : Option ℕ) (call : Call) (tx : Transaction) (n : Node) where
  accepted-Stores :
      (process_transaction c miner call tx n).0 ≡ ok tt
      → Stores tx.id tx (process_transaction c miner call tx n).1.world
  accepted-Stores h = elim (processed_cases c miner call tx n) [
    | inr ((e, p), _) ↦ absurd (ground arith)
    | inl (_, _, p) ↦
        let w = (ahead call n).world in
        let writes =
          success_writes c call.env Validation.new tx call.fee miner (some tx.id) w
            (ahead call n).state (ground arith) in
        let d = (call.env.interleaved w).dag in
        rw (p, writes.0, transactions_added d tx)
          (ground (arith, lookup-insert tx.id tx.id tx d.transactions))
  ]

  stored_is_refused :
      {Q : Call → Transaction → Node → Type 0}
      → IsAmong Q c miner call
      → contains_key tx.id n.world.dag.transactions ≡ true
      → (process_transaction c miner call tx n).0 ≢ ok tt
  unfolding set_min_fee
  stored_is_refused (others, _) held accepted = elim (processed_cases c miner call tx n) [
    | inr ((e, p), _) ↦ absurd (ground arith)
    | inl (_, _, p) ↦
        let n1 = call.others 0 n in
        let n2 = record n1 {
          world = record n1.world { mempool = set_min_fee n1.world.mempool call.fee };
        } in
        let waited = Run-Holds c miner tx.id (others 0 n) held in
        let there = Run-Holds c miner tx.id (others 1 n2) waited in
        let refused =
          refused_if_stored c call.env Validation.new tx call.fee miner (some tx.id)
            (ahead call n).world (ahead call n).state there in
        absurd (ground (arith, refused.0))
  ]

module _ (c : Crypto) (miner : Option ℕ) (call again : Call) (tx tx' : Transaction) (n m : Node)
    (accepted : (process_transaction c miner call tx n).0 ≡ ok tt)
    (Q : Call → Transaction → Node → Type 0)
    (run : RunOf Q c miner (process_transaction c miner call tx n).1 m)
    (among : IsAmong Q c miner again) where
  -- A transaction that a call has accepted is refused by every later call with its identifier,
  -- whatever transactions the node has run through in between and runs through while the later call
  -- waits, the genesis and those of the burn address included.
  pub accepted_once : tx'.id ≡ tx.id → (process_transaction c miner again tx' m).0 ≢ ok tt
  accepted_once same =
      let stored = Run-Stores c miner tx.id tx run (accepted-Stores c miner call tx n accepted) in
      stored_is_refused c miner again tx' m among (
        subst (λ id. contains_key id m.world.dag.transactions ≡ true) (sym same)
          (lookup-contains_key tx.id tx m.world.dag.transactions stored))

module _ (c : Crypto) (miner : Option ℕ) (call again : Call) (tx tx' : Transaction) (n m : Node)
    (accepted : (process_transaction c miner call tx n).0 ≡ ok tt)
    (run : Run c miner (process_transaction c miner call tx n).1 m)
    (among : IsAmongRuns c miner again) where
  -- No double spend: after a call has accepted a transaction, every later call with a transaction
  -- of the same sender and nonce is refused, whatever the node has run through in between and runs
  -- through while the calls wait. The sender is not the faucet, the transactions are not the
  -- genesis and spare the burn address, and before the first call the graph is well formed and
  -- holds whatever the mempool holds.
  pub no_double_spend :
      IsAmongRuns c miner call
      → IsOrdinary tx
      → IsOrdinary tx'
      → IsTidy n
      → tx'.sender ≡ tx.sender
      → tx'.account_nonce ≡ tx.account_nonce
      → tx.sender ≢ faucet_address
      → (process_transaction c miner again tx' m).0 ≢ ok tt
  no_double_spend first ordinary ordinary' tidy sender nonce not_faucet accepted' =
      let begun : Run c miner n (process_transaction c miner call tx n).1 =
        submitted call tx ordinary first.0 first.1 in
      let ended : Run c miner m (process_transaction c miner again tx' m).1 =
        submitted again tx' ordinary' among.0 among.1 in
      let (graph, _) =
        Run-IsTidy c miner ended (Run-IsTidy c miner run (Run-IsTidy c miner begun tidy)) in
      let stored =
        Run-Stores c miner tx.id tx ended
          (Run-Stores c miner tx.id tx run (accepted-Stores c miner call tx n accepted)) in
      let stored' = accepted-Stores c miner again tx' m accepted' in
      accepted_once c miner call again tx tx' n m accepted Ordinary run among
        (sym (
          graph.nonces_distinct tx.id tx'.id tx tx' stored stored' (sym sender) (sym nonce)
            not_faucet))
        accepted'
