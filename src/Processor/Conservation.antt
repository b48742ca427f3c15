-- ===== src/Processor/Conservation.antt =====
-- Money and the graph's shape across `process` (src/transaction_processor.rs).
use mathlib.Core.Path.{subst}
use aether_sedc.Prelude.{
  ℕ, ◌+◌, ◌≤◌, ◌≡◌, refl, sym, ap, ◌∙◌, ◌≢◌, ◌⊎◌, inl, inr, List, [], ◌∷◌, Option, none, some,
  arith, Result-cases,
}
use aether_sedc.Reward.{max_supply, calculate_reward}
use aether_sedc.Consensus
use aether_sedc.Consensus.{ConsensusState, PendingReward}
use aether_sedc.Ledger
use aether_sedc.Ledger.{Ledger, fee_burn_address, validate_and_commit_nonce_internal}
use aether_sedc.Ledger.Sums.{total}
use aether_sedc.Ledger.Transfer.{after, transfer_keeps_total, transfer_supply}
use aether_sedc.Ledger.Nonces.{committed, commit_keeps}
use aether_sedc.Ledger.Rewards.{block_reward_iff, supply_capped}
use aether_sedc.Transaction.{Transaction, Crypto}
use aether_sedc.Validation.{TransactionValidator}
use aether_sedc.Dag.Shape.{IsWellFormed}
use aether_sedc.Dag.Add.{added-IsWellFormed, check-IsAccepted}
use aether_sedc.Processor.{
  Environment, World, Outcome, block_id_or, mark_if_paid, settle_rewards, reward_miner, reward_step,
}
use aether_sedc.Processor.Steps.{taken, confirm_ledger, confirm_dag}
use aether_sedc.Processor.Safety.{outcome, locked, process_cases}

-- The balances rise exactly with the recorded supply.
abbrev pub Mints : Ledger → Ledger → Type 0
Mints l l' = total l'.balances + l.total_supply ≡ total l.balances + l'.total_supply

apply_block_reward-Mints :
    (l : Ledger) (validator id height : ℕ) (s : ConsensusState)
    → Mints l (Ledger.apply_block_reward l validator id height s).1
apply_block_reward-Mints l validator id height s =
    let (_, _, sum, supply, failed) = block_reward_iff l validator id height s in
    elim (Result-cases (Ledger.apply_block_reward l validator id height s).0) [
      | inl (_, e) ↦ omega (arith, sum e, supply e)
      | inr (_, e) ↦ rw (failed (λ p. ground arith)) refl
    ]

settle_rewards-Mints :
    (ps : List (ℕ × PendingReward)) (l : Ledger) (s : ConsensusState)
    → Mints l (settle_rewards ps l s).0
unfolding settle_rewards
settle_rewards-Mints [] l s = refl
settle_rewards-Mints ((id, p) ∷ ps) l s =
    let (paid, l') = Ledger.apply_block_reward l p.validator id p.block_height s in
    omega (
      arith,
      apply_block_reward-Mints l p.validator id p.block_height s,
      settle_rewards-Mints ps l' (mark_if_paid paid id s),
    )

settle_rewards-capped :
    (ps : List (ℕ × PendingReward)) (l : Ledger) (s : ConsensusState)
    → l.total_supply ≤ max_supply
    → (settle_rewards ps l s).0.total_supply ≤ max_supply
unfolding settle_rewards
settle_rewards-capped [] l s h = h
settle_rewards-capped ((id, p) ∷ ps) l s h =
    let (paid, l') = Ledger.apply_block_reward l p.validator id p.block_height s in
    settle_rewards-capped ps l' (mark_if_paid paid id s)
      (supply_capped l p.validator id p.block_height 0 s h).1

-- A reward step is a run of settlements, or leaves the ledger alone.
reward_step_cases :
    (tx : Transaction) (miner block_id : Option ℕ) (l : Ledger) (s : ConsensusState)
    → ((reward_step tx miner block_id l s).1 ≡ l)
      ⊎ ((ps : List (ℕ × PendingReward)) × (q : ConsensusState) × ((reward_step tx miner block_id l
              s).1
            ≡ (settle_rewards ps l q).0))
unfolding reward_step reward_miner
reward_step_cases tx none block_id l s = inl refl
reward_step_cases tx (some validator) block_id l s =
    let raised = Consensus.increment_height s in
    elim (Result-cases (
      Consensus.queue_pending_reward raised (block_id_or block_id tx.id) validator
        (calculate_reward raised.current_height) raised.current_height)) [
          | inl (q, e) ↦ inr (Consensus.finalized_pending_rewards q, q, ground arith)
          | inr (f, e) ↦ inl (ground arith)
        ]

charge-Mints :
    (l : Ledger) (tx : Transaction)
    → tx.sender ≢ fee_burn_address
    → tx.receiver ≢ fee_burn_address
    → let charged =
        committed (after l tx.sender tx.receiver tx.amount tx.fee) tx.sender tx.account_nonce in
      Mints l charged × (charged.total_supply ≡ l.total_supply)
charge-Mints l tx ns nr =
    let moved = after l tx.sender tx.receiver tx.amount tx.fee in
    let keeps = commit_keeps moved tx.sender tx.account_nonce in
    let supply = transfer_supply l tx.sender tx.receiver tx.amount tx.fee in
    (
      omega (
        arith,
        ap total keeps.0,
        keeps.1,
        supply,
        transfer_keeps_total l tx.sender tx.receiver tx.amount tx.fee ns nr,
      ),
      keeps.1 ∙ supply,
    )

reward_step-Mints :
    (tx : Transaction) (miner block_id : Option ℕ) (l : Ledger) (s : ConsensusState)
    → Mints l (reward_step tx miner block_id l s).1
      × (l.total_supply ≤ max_supply
          → (reward_step tx miner block_id l s).1.total_supply ≤ max_supply)
reward_step-Mints tx miner block_id l s = elim (reward_step_cases tx miner block_id l s) [
  | inl e ↦ rw e (refl, λ h. h)
  | inr (ps, q, e) ↦ rw e (settle_rewards-Mints ps l q, settle_rewards-capped ps l q)
]

-- What the steps after the graph may leave of the ledger.
minted :
    (l l' : Ledger) (tx : Transaction) (miner block_id : Option ℕ) (s : ConsensusState)
    → tx.sender ≢ fee_burn_address
    → tx.receiver ≢ fee_burn_address
    → l.total_supply ≤ max_supply
    → let charged =
        committed (after l tx.sender tx.receiver tx.amount tx.fee) tx.sender tx.account_nonce in
      (l' ≡ l) ⊎ (l' ≡ (reward_step tx miner block_id charged s).1)
      → Mints l l' × (l'.total_supply ≤ max_supply)
minted l l' tx miner block_id s ns nr capped (inl e) = rw e (refl, capped)
minted l l' tx miner block_id s ns nr capped (inr e) =
    let charged =
      committed (after l tx.sender tx.receiver tx.amount tx.fee) tx.sender tx.account_nonce in
    let charge = charge-Mints l tx ns nr in
    let rewards = reward_step-Mints tx miner block_id charged s in
    rw e (omega (arith, charge.0, rewards.0), rewards.1 (omega (arith, charge.1)))

module _ (c : Crypto) (env : Environment) (v : TransactionValidator) (tx : Transaction)
    (min_fee : ℕ) (miner block_id : Option ℕ) (w : World) (s : ConsensusState) where
  abbrev ended : World
  ended = (outcome c env v tx min_fee miner block_id w s).world

  abbrev start : Ledger
  start = (locked c env v tx min_fee miner block_id w s).ledger

  -- However a call ends, it creates no money but block rewards: unless what the locks guard is as
  -- it was before the call, the sum of all balances has grown since the locks were taken by
  -- exactly what the recorded supply has grown, and the supply is within its cap. Neither end of
  -- the transfer is the burn address, and the supply was within its cap at the locks.
  pub process-Mints_rewards_only :
      tx.sender ≢ fee_burn_address
      → tx.receiver ≢ fee_burn_address
      → start.total_supply ≤ max_supply
      → (ended ≡ w) ⊎ (Mints start ended.ledger × (ended.ledger.total_supply ≤ max_supply))
  process-Mints_rewards_only ns nr capped =
      elim (process_cases c env v tx min_fee miner block_id w s) [
        | inl (e, _, _, inl same, _) ↦ inl same
        | inl (e, _, _, inr same, _) ↦ inr (rw same (refl, capped))
        | inr (_, _, _, p) ↦
            let u = locked c env v tx min_fee miner block_id w s in
            let t = taken env tx miner block_id u s in
            inr (
              minted u.ledger ended.ledger tx miner block_id s ns nr capped (
                subst
                  (λ (o : Outcome).
                    (o.world.ledger ≡ u.ledger)
                    ⊎ (o.world.ledger ≡ (reward_step tx miner block_id t.ledger s).1))
                  (sym p) (confirm_ledger env tx miner block_id u s u.ledger t)))
      ]

  -- A call keeps the graph well formed, for a transaction whose identifier is not the genesis, if
  -- the graph is well formed before the call and again when the locks are taken.
  pub process-IsWellFormed :
      tx.id ≢ 0 → IsWellFormed w.dag → IsWellFormed (env.interleaved w).dag → IsWellFormed ended.dag
  process-IsWellFormed nonzero wf wf' = elim (process_cases c env v tx min_fee miner block_id w s) [
    | inl (e, _, _, inl same, _) ↦ rw same wf
    | inl (e, _, _, inr same, _) ↦ rw same wf'
    | inr (_, _, checked, p) ↦
        let u = locked c env v tx min_fee miner block_id w s in
        let t = taken env tx miner block_id u s in
        subst IsWellFormed
          (sym (
            ap (λ (o : Outcome). o.world.dag) p ∙ confirm_dag env tx miner block_id u s u.ledger t))
          (added-IsWellFormed u.dag tx wf' (check-IsAccepted u.dag tx checked) nonzero)
  ]
