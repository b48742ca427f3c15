-- ===== src/Processor/Once.antt =====
-- A transaction is processed once at most (src/transaction_processor.rs), and what the refusal of the
-- mempool leaves.
use aether_sedc.Prelude.{ℕ, ◌≡◌, ◌≢◌, inl, inr, Option, arith, ok, err}
use aether_sedc.Consensus.{ConsensusState}
use aether_sedc.Transaction.{Transaction, Crypto}
use aether_sedc.Validation.{TransactionValidator}
use aether_sedc.Mempool
use aether_sedc.Processor.{Environment, World, mempool_error, process}
use aether_sedc.Processor.Safety.{stored_unless-IsEarly, refused_if_stored, mempool_refusal}

-- A transaction that was processed is not processed again: a second call with it, on what the
-- first left and whatever its other arguments, fails and changes nothing.
pub processed_once :
    (c : Crypto) (env again : Environment) (v v' : TransactionValidator) (tx : Transaction)
    (min_fee min_fee' : ℕ) (miner block_id miner' block_id' : Option ℕ) (w : World)
    (s : ConsensusState)
    → let first = process c env v tx min_fee miner block_id w s in
      let second = process c again v' tx min_fee' miner' block_id' first.world first.state in
      first.result ≡ ok tt
      → (second.result ≢ ok tt) × (second.world ≡ first.world) × (second.state ≡ first.state)
processed_once c env again v v' tx min_fee min_fee' miner block_id miner' block_id' w s h =
    elim (stored_unless-IsEarly c env v tx min_fee miner block_id w s) [
      | inl (e, p, early) ↦ absurd (ground arith)
      | inr stored ↦ refused_if_stored c again v' tx min_fee' miner' block_id' _ _ stored
    ]

-- A transaction that the mempool refused is stranded: the ledger is as it was at the locks, and a
-- second call, on what the first left and whatever its other arguments, fails and writes nothing.
pub refused_by_mempool_is_stranded :
    (c : Crypto) (env again : Environment) (v v' : TransactionValidator) (tx : Transaction)
    (min_fee min_fee' : ℕ) (miner block_id miner' block_id' : Option ℕ) (w : World)
    (s : ConsensusState) (e : Mempool.RpcError)
    → let first = process c env v tx min_fee miner block_id w s in
      let second = process c again v' tx min_fee' miner' block_id' first.world first.state in
      first.result ≡ err (mempool_error e)
      → (first.world.ledger ≡ (env.interleaved w).ledger)
        × (second.result ≢ ok tt)
        × (second.world ≡ first.world)
        × (second.state ≡ first.state)
refused_by_mempool_is_stranded c env again v v' tx min_fee min_fee' miner block_id miner' block_id'
      w s e h =
    let refusal = mempool_refusal c env v tx min_fee miner block_id w s e h in
    let refused = refused_if_stored c again v' tx min_fee' miner' block_id' _ _ refusal.1 in
    (refusal.0, refused.0, refused.1, refused.2)
