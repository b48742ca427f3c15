-- ===== src/Tests/Chooses.antt =====
-- The choice of parents (src/parent_selection.rs) and the faucet (src/rpc.rs) at concrete inputs.
use aether_sedc.Prelude.{
  ℕ, ◌-◌, ◌/◌, ◌<◌, ◌≡◌, refl, ◌≢◌, ◌⊎◌, inl, inr, [], ◌∷◌, none, some, true, false, arith, ok, err,
  any, Result,
}
use aether_sedc.Transaction
use aether_sedc.Transaction.{
  Transaction, default_difficulty, verify_pow, meets_difficulty, verify_hash, mine_nonce,
  zero_prefix, compute_hash, compute_signing_hash, calculate_pow_hash, le_bytes, be_bytes,
  from_be_bytes,
}
use aether_sedc.Dag.{Dag, children_of, has_transaction_with_parents}
use aether_sedc.Dag.Shape.{IsKnown}
use aether_sedc.Dag.Children.{HasChildren}
use aether_sedc.Weight.{CumulativeWeightCache, get}
use aether_sedc.Selection.{
  ParentSelectionError, no_valid_tips, default, random_walk, select_parents,
  check_double_spend_conflict, is_fresh,
}
use aether_sedc.Selection.Tips
use aether_sedc.Selection.Tips.{get_tips}
use aether_sedc.Selection.Walk.{IsPositive, Trail, random_walk-Trail}
use aether_sedc.Selection.Conflicts.{siblings_conflict}
use aether_sedc.Selection.Parents.{select_parents-IsKnown}
use aether_sedc.Validation
use aether_sedc.Validation.{validate_pure}
use aether_sedc.Rpc.{Call, dag_locked, process_transaction}
use aether_sedc.Rpc.Faucet.{
  SigningKey, faucet_addr, faucet_amount, zeros, check_cooldown, faucet, faucet_parents,
  faucet_transaction, rate_limited, not_processed,
}
use aether_sedc.Rpc.Faucet.Authentic.{IsSigning, faucet_transaction-IsAuthentic}
use aether_sedc.Rpc.Faucet.Cooldown.{passes, AreApart, passes-AreApart, failed_request_locks_out}
use aether_sedc.Tests.{transaction, toy, bob}
use aether_sedc.Tests.Asks.{node, call}

-- A transaction with two that refer to it.
abbrev root : Transaction
root = transaction 100 (0, 0) 1

abbrev left : Transaction
left = transaction 101 (100, 0) 2

abbrev right : Transaction
right = record (transaction 102 (0, 100) 3) { sender = 8 }

abbrev fork : Dag
fork = record {
  transactions = (100, root) ∷ (101, left) ∷ (102, right) ∷ [];
  children = (0, 100 ∷ 101 ∷ 102 ∷ []) ∷ (100, 101 ∷ 102 ∷ []) ∷ [];
  tips = (101, tt) ∷ (102, tt) ∷ [];
}

fork-HasChildren : HasChildren fork
fork-HasChildren k c h = ground arith

uncached : IsPositive []
unfolding get
uncached id weight e = ground arith

random_walk-Trail_example :
    (id : ℕ) × (cache : CumulativeWeightCache) × (taken : ℕ) × (random_walk 20 default
        (λ step total. 0)
        fork
      ≡ some (id, cache))
    × IsPositive cache
    × Trail fork 0 taken id
    × ((taken ≡ 10) ⊎ ((taken < 10) × (children_of fork id ≡ [])))
random_walk-Trail_example =
    random_walk-Trail 20 fork (omega arith) (λ step total. 0) (λ step total h. h) default uncached

siblings_conflict_example : check_double_spend_conflict 101 102 fork ≡ true
siblings_conflict_example =
    siblings_conflict fork 101 102 left right root 100 refl refl refl (inl refl) (inr refl)

abbrev key : SigningKey
key = record { verifying_key = root.public_key; sign = λ message. 7 ∷ [] }

signing : IsSigning toy key
signing = record { long = refl; parses = refl; signs = λ m. refl; verifies = λ m. refl }

passes-AreApart_example :
    AreApart (some 1000) (passes ((6, 1000) ∷ []) 6 ((6, 2000) ∷ (7, 3000) ∷ (6, 61000) ∷ []))
passes-AreApart_example =
    passes-AreApart ((6, 2000) ∷ (7, 3000) ∷ (6, 61000) ∷ []) ((6, 1000) ∷ []) 6

-- What the faucet mines, before it is signed.
abbrev unsigned : Transaction
unsigned =
    Transaction.new toy (101, 102) (faucet_addr key) bob faucet_amount 1 5000 0 1 (zeros 64)
      key.verifying_key

unsigned_works : verify_pow toy unsigned default_difficulty ≡ true
unfolding Transaction.new verify_pow meets_difficulty zero_prefix calculate_pow_hash le_bytes
    be_bytes from_be_bytes
unsigned_works = refl

faucet_transaction-IsAuthentic_example :
    (tx : Transaction) × (faucet_transaction 3 toy key (101, 102) bob 5000 1 ≡ some tx)
    × (validate_pure toy Validation.new tx ≡ ok tt)
    × (verify_hash toy tx ≡ true)
unfolding Transaction.new
faucet_transaction-IsAuthentic_example =
    faucet_transaction-IsAuthentic 3 toy key (101, 102) bob 5000 1 0 signing (omega arith)
      (omega arith) unsigned_works

-- A call that finds the graph locked.
abbrev locked : Call
locked = record call { dag_readable = false }

begun :
    faucet 3 toy none key locked bob 1000 5 (λ n. n) (λ n. n) (node, [])
    ≡ some (err (not_processed dag_locked), (node, (bob, 1000) ∷ []))
unfolding faucet check_cooldown faucet_transaction faucet_parents process_transaction
    Transaction.new mine_nonce zero_prefix compute_hash compute_signing_hash calculate_pow_hash
    le_bytes be_bytes from_be_bytes
begun = refl

failed_request_locks_out_example :
    faucet 0 toy none key call bob 60999 64 (λ n. n) (λ n. n) (node, (bob, 1000) ∷ [])
    ≡ some (err (rate_limited (60 - (60999 - 1000) / 1000)), (node, (bob, 1000) ∷ []))
failed_request_locks_out_example =
    failed_request_locks_out 3 0 toy none key locked call bob 1000 60999 5 64 (λ n. n) (λ n. n)
      (λ n. n) (λ n. n) node node [] ((bob, 1000) ∷ []) dag_locked begun (omega arith)

select_parents-IsKnown_example :
    (result : Result ParentSelectionError (ℕ × ℕ)) × (cache : CumulativeWeightCache)
    × (select_parents 20 default (λ walk step total. 0) 1000 ((101, left) ∷ (102, right) ∷ []) fork
        ≡ some (result, cache))
    × (((Tips.is_empty ((101, left) ∷ (102, right) ∷ []) ≡ true) × (result ≡ ok (0, 0)))
        ⊎ (((Tips.is_empty ((101, left) ∷ (102, right) ∷ []) ≡ false)
              × (any (is_fresh 1000 60000) (get_tips ((101, left) ∷ (102, right) ∷ [])) ≡ false)
              × (result ≡ err no_valid_tips))
            ⊎ ((any (is_fresh 1000 60000) (get_tips ((101, left) ∷ (102, right) ∷ [])) ≡ true)
                × ((parent1 : ℕ) × (parent2 : ℕ) × (result ≡ ok (parent1, parent2))
                    × IsKnown fork parent1
                    × ((parent2 ≡ 0)
                        ⊎ ((parent2 ≢ parent1)
                            × (IsKnown fork parent2
                                × (has_transaction_with_parents fork (parent1, parent2) ≡ false)
                                × (check_double_spend_conflict parent1 parent2 fork ≡ false))))))))
select_parents-IsKnown_example =
    select_parents-IsKnown 20 fork (omega arith) fork-HasChildren (λ walk step total. 0)
      (λ walk step total h. h) default 1000 ((101, left) ∷ (102, right) ∷ []) uncached
