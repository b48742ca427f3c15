-- ===== src/Runs/Keeps.antt =====
-- What no task of a run takes back: a transaction in the graph (src/parent_selection.rs), and a
-- block that was rewarded (src/consensus.rs).
use aether_sedc.Prelude.{
  ℕ, ◌≡◌, inl, inr, Bool, true, false, arith, Option, some, ok, Option-cases, Result-cases,
}
use aether_sedc.Dict.{
  lookup, contains_key, lookup-insert, lookup-contains_key, lookup-none-contains_key,
}
use aether_sedc.Transaction.{Transaction, Crypto}
use aether_sedc.Dag.{Dag, insert_transaction, check_transaction, add_transaction_validated}
use aether_sedc.Dag.Shape.{transactions_added}
use aether_sedc.Mempool.{set_min_fee, pop_front}
use aether_sedc.Consensus.Queue.{IsConsistent}
use aether_sedc.Validation
use aether_sedc.Processor.{World}
use aether_sedc.Processor.Steps.{taken, confirm_dag}
use aether_sedc.Processor.Safety.{process_cases}
use aether_sedc.Processor.Rewards.{process-IsConsistent}
use aether_sedc.Rpc.{Node, Call}
use aether_sedc.Rpc.Status.{mine_one}
use aether_sedc.Runs.Steps.{RunOf, Run, Ordinary}
use aether_sedc.Runs.Induction.{processed, run-respects}

-- The graph has the transaction under the identifier.
abbrev pub Stores : ℕ → Transaction → World → Type 0
Stores id tx w = lookup id w.dag.transactions ≡ some tx

check_absent :
    (d : Dag) (tx : Transaction)
    → check_transaction d tx ≡ ok tt
    → contains_key tx.id d.transactions ≡ false
unfolding check_transaction
check_absent d tx h = ground arith

-- An accepted transaction displaces no other.
pub insert_keeps :
    (id : ℕ) (u : Transaction) (d : Dag) (tx : Transaction)
    → check_transaction d tx ≡ ok tt
    → lookup id d.transactions ≡ some u
    → lookup id (insert_transaction d tx).transactions ≡ some u
insert_keeps id u d tx checked h = rw (transactions_added d tx) (
    ground (
      arith,
      lookup-insert id tx.id tx d.transactions,
      lookup-contains_key id u d.transactions,
      check_absent d tx checked,
    ))

Stores-mine_one :
    (id : ℕ) (u : Transaction) (readable : Bool) (n : Node)
    → Stores id u n.world
    → Stores id u (mine_one readable n).world
unfolding mine_one add_transaction_validated
Stores-mine_one id u readable n h = elim (Option-cases (pop_front n.world.mempool).0) [
  | inl e ↦ ground arith
  | inr (t, e) ↦ elim (Result-cases (check_transaction n.world.dag t)) [
    | inl (_, good) ↦ ground (arith, insert_keeps id u n.world.dag t)
    | inr (f, bad) ↦ ground arith
  ]
]

module _ (c : Crypto) (miner : Option ℕ) where
  Stores-processed :
      (id : ℕ) (u : Transaction) (call : Call) (tx : Transaction) (n : Node)
      → Stores id u n.world
      → Stores id u (call.env.interleaved n.world)
      → Stores id u (processed c miner call tx n).world
  Stores-processed id u call tx n h locked =
      elim (process_cases c call.env Validation.new tx call.fee miner (some tx.id) n.world
        n.state) [
          | inl (_, _, _, inl same, _) ↦ rw same h
          | inl (_, _, _, inr same, _) ↦ rw same locked
          | inr (_, _, checked, p) ↦
              let w = call.env.interleaved n.world in
              let t = taken call.env tx miner (some tx.id) w n.state in
              rw (p, confirm_dag call.env tx miner (some tx.id) w n.state w.ledger t)
                (insert_keeps id u w.dag tx checked locked)
        ]

  -- Whatever a run does, the graph keeps a transaction that it has.
  pub Run-Stores :
      (id : ℕ) (u : Transaction) {Q : Call → Transaction → Node → Type 0} {n m : Node}
      → RunOf Q c miner n m
      → Stores id u n.world
      → Stores id u m.world
  unfolding set_min_fee
  Run-Stores id u {Q} =
      run-respects Q c miner (λ n m. Stores id u n.world → Stores id u m.world)
        (record {
          stays = λ n h. h;
          joins = λ n m k r s h. s (r h);
          at_kept = λ n storage orphans same h. h;
          at_repriced = λ n fee h. h;
          at_mined = λ n readable. Stores-mine_one id u readable n;
          at_processed = λ call tx n admitted inter h. Stores-processed id u call tx n h (inter h);
        })

  pub Run-Holds :
      (id : ℕ) {Q : Call → Transaction → Node → Type 0} {n m : Node}
      → RunOf Q c miner n m
      → contains_key id n.world.dag.transactions ≡ true
      → contains_key id m.world.dag.transactions ≡ true
  Run-Holds id {Q} {n} {m} r h = elim (Option-cases (lookup id n.world.dag.transactions)) [
    | inl absent ↦ absurd (ground (arith, lookup-none-contains_key id n.world.dag.transactions))
    | inr (u, e) ↦ lookup-contains_key id u m.world.dag.transactions (Run-Stores id u r e)
  ]

  abbrev Follows : Node → Node → Type 0
  Follows n m =
      IsConsistent n.state
      → IsConsistent m.state
        × ((id : ℕ)
            → contains_key id n.state.rewarded_blocks ≡ true
            → contains_key id m.state.rewarded_blocks ≡ true)

  mine_one-state : (readable : Bool) (n : Node) → (mine_one readable n).state ≡ n.state
  unfolding mine_one
  mine_one-state readable n = elim (Option-cases (pop_front n.world.mempool).0) [
    | inl e ↦ ground arith
    | inr (t, e) ↦ ground arith
  ]

  -- A run keeps the consensus state consistent, and every rewarded block rewarded.
  pub Run-IsConsistent : {n m : Node} → Run c miner n m → Follows n m
  Run-IsConsistent = run-respects Ordinary c miner Follows (record {
    stays = λ n h. (h, λ id r. r);
    joins = λ n m k r s h. ((s (r h).0).0, λ id q. (s (r h).0).1 id ((r h).1 id q));
    at_kept = λ n storage orphans same h. (h, λ id r. r);
    at_repriced = λ n fee h. (h, λ id r. r);
    at_mined = λ n readable h. rw (mine_one-state readable n) (h, λ id r. r);
    at_processed = λ call tx n ordinary inter h.
        process-IsConsistent c call.env Validation.new tx call.fee miner (some tx.id) n.world
          n.state h;
  })
