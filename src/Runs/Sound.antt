-- ===== src/Runs/Sound.antt =====
-- The invariants of a node along a run (src/rpc.rs, src/transaction_processor.rs, src/node.rs): its
-- graph, its mempool, its money and its reward queue.
use aether_sedc.Prelude.{ℕ, ◌≤◌, ◌≡◌, refl, inl, inr, Bool, true, arith, Option, some, Option-cases}
use aether_sedc.Dict.{contains_key}
use aether_sedc.Reward.{max_supply}
use aether_sedc.Transaction.{Transaction, Crypto}
use aether_sedc.Dag.Shape.{IsWellFormed}
use aether_sedc.Mempool.{set_min_fee, pop_front}
use aether_sedc.Consensus.Queue.{IsConsistent}
use aether_sedc.Validation
use aether_sedc.Processor.Conservation.{Mints, process-Mints_rewards_only, process-IsWellFormed}
use aether_sedc.Rpc.{Node, Call}
use aether_sedc.Rpc.Status.{mine_one}
use aether_sedc.Rpc.Mining.{IsQueuedInGraph, processor_keeps, mine_one-dag}
use aether_sedc.Runs.Steps.{Run, Ordinary, IsOrdinary}
use aether_sedc.Runs.Induction.{processed, run-respects}
use aether_sedc.Runs.Keeps.{Run-Holds, Run-IsConsistent}

-- The graph is well formed, and holds whatever the mempool holds.
pub record IsSound (n : Node) : Type 0 where
  pub graph : IsWellFormed n.world.dag
  pub queued : IsQueuedInGraph n.world
  pub rewards : IsConsistent n.state
  pub capped : n.world.ledger.total_supply ≤ max_supply

-- The balances rise exactly with the recorded supply, which stays within its cap.
abbrev pub Pays : Node → Node → Type 0
Pays n m =
    n.world.ledger.total_supply ≤ max_supply
    → (Mints n.world.ledger m.world.ledger) × (m.world.ledger.total_supply ≤ max_supply)

abbrev pub IsTidy : Node → Type 0
IsTidy n = IsWellFormed n.world.dag × IsQueuedInGraph n.world

mine_one-ledger : (readable : Bool) (n : Node) → (mine_one readable n).world.ledger ≡ n.world.ledger
unfolding mine_one
mine_one-ledger readable n = elim (Option-cases (pop_front n.world.mempool).0) [
  | inl e ↦ ground arith
  | inr (t, e) ↦ ground arith
]

mine_one-IsTidy : (readable : Bool) (n : Node) → IsTidy n → IsTidy (mine_one readable n)
mine_one-IsTidy readable n (graph, queued) =
    let (same, still) = mine_one-dag readable n queued in (rw same graph, still)

module _ (c : Crypto) (miner : Option ℕ) where
  processed-Pays :
      (call : Call) (tx : Transaction) (n : Node)
      → IsOrdinary tx
      → Pays n (record n { world = call.env.interleaved n.world })
      → Pays n (processed c miner call tx n)
  processed-Pays call tx n (_, from, to) inter capped =
      let (before, capped') = inter capped in
      elim (process-Mints_rewards_only c call.env Validation.new tx call.fee miner (some tx.id)
        n.world n.state from to capped') [
          | inl same ↦ rw same (refl, capped)
          | inr (minted, still) ↦ (omega (arith, before, minted), still)
        ]

  -- A run creates no money but block rewards.
  pub Run-Pays : {n m : Node} → Run c miner n m → Pays n m
  unfolding set_min_fee
  Run-Pays = run-respects Ordinary c miner Pays (record {
    stays = λ n h. (refl, h);
    joins = λ n m k r s h.
        let (first, h') = r h in let (second, h'') = s h' in (omega (arith, first, second), h'');
    at_kept = λ n storage orphans same h. (refl, h);
    at_repriced = λ n fee h. (refl, h);
    at_mined = λ n readable h. rw (mine_one-ledger readable n) (refl, h);
    at_processed = processed-Pays;
  })

  processed-IsTidy :
      (call : Call) (tx : Transaction) (n : Node)
      → IsOrdinary tx
      → (IsTidy n → IsTidy (record n { world = call.env.interleaved n.world }))
      → IsTidy n
      → IsTidy (processed c miner call tx n)
  processed-IsTidy call tx n (nonzero, _, _) inter tidy =
      let locked = inter tidy in
      (
        process-IsWellFormed c call.env Validation.new tx call.fee miner (some tx.id) n.world
            n.state nonzero tidy.0 locked.0,
        processor_keeps c call.env tx call.fee miner n.world n.state tidy.1 locked.1,
      )

  pub Run-IsTidy : {n m : Node} → Run c miner n m → IsTidy n → IsTidy m
  unfolding set_min_fee
  Run-IsTidy =
      run-respects Ordinary c miner (λ n m. IsTidy n → IsTidy m)
        (record {
          stays = λ n h. h;
          joins = λ n m k r s h. s (r h);
          at_kept = λ n storage orphans same h. h;
          at_repriced = λ n fee h. h;
          at_mined = λ n readable. mine_one-IsTidy readable n;
          at_processed = processed-IsTidy;
        })

  -- Whatever calls of `process_transaction`, rounds of mining and writes of the database and the
  -- orphans a node runs through, one after the other or in the waits of each other, from a sound node they reach a sound one: the graph is
  -- well formed and holds whatever the mempool holds, no block is both queued for a reward and
  -- rewarded, and the supply is within its cap. The sum of all balances has grown by exactly what
  -- the recorded supply has grown, and no transaction has left the graph and no block the rewarded
  -- ones. The transactions of the calls are not the genesis and spare the burn address.
  pub Run-IsSound :
      {n m : Node}
      → Run c miner n m
      → IsSound n
      → IsSound m
        × (Mints n.world.ledger m.world.ledger)
        × ((id : ℕ)
            → contains_key id n.world.dag.transactions ≡ true
            → contains_key id m.world.dag.transactions ≡ true)
        × ((id : ℕ)
            → contains_key id n.state.rewarded_blocks ≡ true
            → contains_key id m.state.rewarded_blocks ≡ true)
  Run-IsSound r s =
      let (graph, queued) = Run-IsTidy r (s.graph, s.queued) in
      let (consistent, rewarded) = Run-IsConsistent c miner r s.rewards in
      let (pays, capped) = Run-Pays r s.capped in
      (
        record { graph = graph; queued = queued; rewards = consistent; capped = capped },
        pays,
        (λ id. Run-Holds c miner id r),
        rewarded,
      )
