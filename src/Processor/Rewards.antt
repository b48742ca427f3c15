-- ===== src/Processor/Rewards.antt =====
-- The reward queue and the rewarded blocks across `process` (src/transaction_processor.rs).
use mathlib.Core.Path.{subst}
use aether_sedc.Prelude.{
  ℕ, ◌≡◌, sym, ap, ◌∙◌, ◌⊎◌, inl, inr, true, List, [], ◌∷◌, Option, none, some, arith, Result, ok,
  err, Result-cases,
}
use aether_sedc.Dict.{contains_key, contains_key-insert}
use aether_sedc.Reward.{calculate_reward}
use aether_sedc.Consensus
use aether_sedc.Consensus.{ConsensusState, PendingReward}
use aether_sedc.Consensus.Queue.{IsConsistent, queue-IsConsistent, paid-IsConsistent}
use aether_sedc.Ledger
use aether_sedc.Ledger.{Ledger, LedgerError}
use aether_sedc.Transaction.{Transaction, Crypto}
use aether_sedc.Validation.{TransactionValidator}
use aether_sedc.Processor.{
  Environment, World, Outcome, block_id_or, mark_if_paid, settle_rewards, reward_miner, reward_step,
  enqueue, persist, confirm, process,
}
use aether_sedc.Processor.Steps.{taken}
use aether_sedc.Processor.Safety.{locked, process_cases}

-- The later state is consistent, and what was rewarded is rewarded.
abbrev pub Follows : ConsensusState → ConsensusState → Type 0
Follows s s' =
    IsConsistent s'
    × ((id : ℕ)
        → contains_key id s.rewarded_blocks ≡ true
        → contains_key id s'.rewarded_blocks ≡ true)

Follows-trans : (s t u : ConsensusState) → Follows s t → Follows t u → Follows s u
Follows-trans s t u (_, old) (c, new) = (c, λ id h. new id (old id h))

mark_if_paid-Follows :
    (paid : Result LedgerError (Unit {0})) (id : ℕ) (s : ConsensusState)
    → IsConsistent s
    → Follows s (mark_if_paid paid id s)
unfolding Consensus.settle_pending_reward Consensus.mark_block_rewarded
mark_if_paid-Follows (ok _) id s c =
    (paid-IsConsistent s id c, λ k h. ground (arith, contains_key-insert k id tt s.rewarded_blocks))
mark_if_paid-Follows (err _) id s c = (c, λ k h. h)

settle_rewards-Follows :
    (ps : List (ℕ × PendingReward)) (l : Ledger) (s : ConsensusState)
    → IsConsistent s
    → Follows s (settle_rewards ps l s).1
unfolding settle_rewards
settle_rewards-Follows [] l s c = (c, λ id h. h)
settle_rewards-Follows ((id, p) ∷ ps) l s c =
    let (paid, l') = Ledger.apply_block_reward l p.validator id p.block_height s in
    let marked = mark_if_paid-Follows paid id s c in
    Follows-trans s (mark_if_paid paid id s) (settle_rewards ps l' (mark_if_paid paid id s)).1
      marked (settle_rewards-Follows ps l' (mark_if_paid paid id s) marked.0)

raised-IsConsistent :
    (s : ConsensusState) → IsConsistent s → IsConsistent (Consensus.increment_height s)
unfolding Consensus.increment_height
raised-IsConsistent s c = record { keys = c.keys; apart = c.apart }

queue-Follows :
    (s s' : ConsensusState) (id validator reward height : ℕ)
    → IsConsistent s
    → Consensus.queue_pending_reward s id validator reward height ≡ ok s'
    → Follows s s'
unfolding Consensus.queue_pending_reward
queue-Follows s s' id validator reward height c e =
    (queue-IsConsistent s s' id validator reward height c e, λ k h. ground arith)

-- What a call of the miner's step leaves of the state: raised, or raised, queued and settled.
reward_miner_state :
    (l : Ledger) (s : ConsensusState) (id validator : ℕ)
    → let raised = Consensus.increment_height s in
      ((reward_miner l s id validator).2 ≡ raised)
      ⊎ ((q : ConsensusState) × (Consensus.queue_pending_reward raised id validator
              (calculate_reward raised.current_height)
              raised.current_height
            ≡ ok q)
          × ((reward_miner l s id validator).2
              ≡ (settle_rewards (Consensus.finalized_pending_rewards q) l q).1))
unfolding reward_miner
reward_miner_state l s id validator =
    let raised = Consensus.increment_height s in
    elim (Result-cases (
      Consensus.queue_pending_reward raised id validator (calculate_reward raised.current_height)
        raised.current_height)) [
          | inl (q, e) ↦ inr (q, e, ground arith)
          | inr (f, e) ↦ inl (ground arith)
        ]

raised-Follows : (s : ConsensusState) → IsConsistent s → Follows s (Consensus.increment_height s)
unfolding Consensus.increment_height
raised-Follows s c = (raised-IsConsistent s c, λ id h. h)

reward_miner-Follows :
    (l : Ledger) (s : ConsensusState) (id validator : ℕ)
    → IsConsistent s
    → Follows s (reward_miner l s id validator).2
reward_miner-Follows l s id validator c =
    let raised = Consensus.increment_height s in
    let up = raised-Follows s c in
    elim (reward_miner_state l s id validator) [
      | inl e ↦ rw e up
      | inr (q, queued, e) ↦
          let next =
            queue-Follows raised q id validator (calculate_reward raised.current_height)
              raised.current_height up.0 queued in
          let ps = Consensus.finalized_pending_rewards q in
          rw e (
            Follows-trans s raised (settle_rewards ps l q).1 up (
              Follows-trans raised q (settle_rewards ps l q).1 next
                (settle_rewards-Follows ps l q next.0)))
    ]

reward_step-Follows :
    (tx : Transaction) (miner block_id : Option ℕ) (l : Ledger) (s : ConsensusState)
    → IsConsistent s
    → Follows s (reward_step tx miner block_id l s).2
unfolding reward_step
reward_step-Follows tx none block_id l s c = (c, λ id h. h)
reward_step-Follows tx (some validator) block_id l s c =
    reward_miner-Follows l s (block_id_or block_id tx.id) validator c

confirm_state :
    (env : Environment) (tx : Transaction) (miner block_id : Option ℕ) (snapshot : Ledger)
    (u : World) (s : ConsensusState)
    → (confirm env tx miner block_id snapshot u s).state
      ≡ (reward_step tx miner block_id u.ledger s).2
unfolding confirm enqueue persist
confirm_state env tx miner block_id snapshot u s = ground arith

-- However a call ends, from a consistent consensus state it leaves a consistent one, in which every
-- block that was rewarded still is.
pub process-IsConsistent :
    (c : Crypto) (env : Environment) (v : TransactionValidator) (tx : Transaction) (min_fee : ℕ)
    (miner block_id : Option ℕ) (w : World) (s : ConsensusState)
    → IsConsistent s
    → let s' = (process c env v tx min_fee miner block_id w s).state in
      IsConsistent s'
      × ((id : ℕ)
          → contains_key id s.rewarded_blocks ≡ true
          → contains_key id s'.rewarded_blocks ≡ true)
process-IsConsistent c env v tx min_fee miner block_id w s h =
    elim (process_cases c env v tx min_fee miner block_id w s) [
      | inl (e, _, _, _, same) ↦ rw same (h, λ id r. r)
      | inr (_, _, _, p) ↦
          let u = locked c env v tx min_fee miner block_id w s in
          let t = taken env tx miner block_id u s in
          subst (Follows s)
            (sym
              (ap (λ (o : Outcome). o.state) p ∙ confirm_state env tx miner block_id u.ledger t s))
            (reward_step-Follows tx miner block_id t.ledger s h)
    ]
