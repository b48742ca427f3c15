-- ===== src/Rpc/Waiting.antt =====
-- Which orphans `process_orphans` of src/rpc.rs keeps.
use aether_sedc.Prelude.{
  ℕ, ◌≡◌, ◌≢◌, refl, inl, inr, Bool, true, false, List, [], ◌∷◌, arith, ◌==◌, Option, some,
  Bool-cases, All, err,
}
use aether_sedc.Dict.{
  Dict, lookup, contains_key, insert, IsMap, insert-IsMap, lookup-insert, lookup-contains_key,
}
use aether_sedc.Transaction.{Transaction, Crypto, verify_pow, default_difficulty}
use aether_sedc.Dag.{Dag}
use aether_sedc.Storage.{get_all_orphans}
use aether_sedc.Validation
use aether_sedc.Validation.{invalid_pow}
use aether_sedc.Processor.{validation_failed, process}
use aether_sedc.Rpc.{
  Node, Call, refused, missing_of, process_transaction, is_resolved, resolved, load_orphans, submit,
  retry_orphan, retry_orphans, process_orphans,
}
use aether_sedc.Rpc.Orphans.{retry_orphan_keeps}

-- Reading the orphans back from disk changes none that is in memory.
load_orphans_keeps :
    (txs : List Transaction) (orphans : Dict Transaction) (id : ℕ) (tx : Transaction)
    → lookup id orphans ≡ some tx
    → IsMap orphans
    → (lookup id (load_orphans txs orphans) ≡ some tx) × IsMap (load_orphans txs orphans)
load_orphans_keeps [] orphans id tx e h = (e, h)
load_orphans_keeps (u ∷ txs) orphans id tx e h = elim (Bool-cases (contains_key u.id orphans)) [
  | inl there ↦ rw there (load_orphans_keeps txs orphans id tx e h)
  | inr absent ↦
      let known = lookup-contains_key id tx orphans e in
      rw absent (
        load_orphans_keeps txs (insert u.id u orphans) id tx
          (ground (arith, lookup-insert id u.id u orphans)) (insert-IsMap u.id u orphans h))
]

absent_stays :
    (d : Dag) (id : ℕ) (orphans : Dict Transaction)
    → contains_key id orphans ≡ false
    → All (λ e. e.0 ≢ id) (resolved d orphans)
absent_stays d id [] h = tt
absent_stays d id ((j, u) ∷ orphans) h =
    let rest = absent_stays d id orphans (ground arith) in
    elim (Bool-cases (is_resolved d u)) [
      | inl r ↦ rw r (λ p. ground arith, rest)
      | inr r ↦ rw r rest
    ]

-- An orphan that waits is not among those that are tried.
not_tried :
    (d : Dag) (id : ℕ) (tx : Transaction) (orphans : Dict Transaction)
    → IsMap orphans
    → lookup id orphans ≡ some tx
    → is_resolved d tx ≡ false
    → All (λ e. e.0 ≢ id) (resolved d orphans)
not_tried d id tx [] h e waits = tt
not_tried d id tx ((j, u) ∷ orphans) h e waits = elim (Bool-cases (j == id)) [
  | inl here ↦
      let same : u ≡ tx = ground arith in
      let gone = absent_stays d id orphans (ground (arith, h.0)) in
      let unresolved : is_resolved d u ≡ false = rw same waits in rw unresolved gone
  | inr there ↦
      let rest = not_tried d id tx orphans h.1 (ground arith) waits in
      elim (Bool-cases (is_resolved d u)) [
        | inl r ↦ rw r (λ p. ground arith, rest)
        | inr r ↦ rw r rest
      ]
]

module _ (c : Crypto) (miner : Option ℕ) (calls : ℕ → Call) (id : ℕ)
    (keep : (k gap : ℕ) (m : Node)
      → contains_key id m.orphans ≡ true
      → contains_key id ((calls k).others gap m).orphans ≡ true) where
  retry_orphans_keeps :
      (entries : Dict Transaction) (n : Node)
      → All (λ e. e.0 ≢ id) entries
      → contains_key id n.orphans ≡ true
      → contains_key id (retry_orphans c miner calls entries n).orphans ≡ true
  unfolding retry_orphans
  retry_orphans_keeps [] n apart h = h
  retry_orphans_keeps ((k, u) ∷ entries) n apart h =
      retry_orphans_keeps entries (retry_orphan c miner (calls k) k u n) apart.1
        (retry_orphan_keeps c miner (calls k) k u n id (keep k) h (inl apart.0))

  -- An orphan in memory, under one key, that has a missing parent stays in memory through a round
  -- over the orphans, if other tasks keep it.
  pub waiting_orphan_stays :
      (storage_readable : Bool) (others : Node → Node) (n : Node) (tx : Transaction)
      → ((m : Node) → contains_key id m.orphans ≡ true → contains_key id (others m).orphans ≡ true)
      → IsMap n.orphans
      → lookup id n.orphans ≡ some tx
      → is_resolved n.world.dag tx ≡ false
      → contains_key id (process_orphans c miner storage_readable others calls n).orphans ≡ true
  unfolding process_orphans
  waiting_orphan_stays storage_readable others n tx keep_others h e waits =
      elim (Bool-cases storage_readable) [
        | inl readable ↦
            let orphans' = load_orphans (get_all_orphans n.storage) n.orphans in
            let (e', h') = load_orphans_keeps (get_all_orphans n.storage) n.orphans id tx e h in
            rw readable (
              retry_orphans_keeps (resolved n.world.dag orphans')
                (others (record n { orphans = orphans' }))
                (not_tried n.world.dag id tx orphans' h' e' waits)
                (keep_others (record n { orphans = orphans' })
                  (lookup-contains_key id tx orphans' e')))
        | inr locked ↦ rw locked (
            retry_orphans_keeps (resolved n.world.dag n.orphans) (others n)
              (not_tried n.world.dag id tx n.orphans h e waits)
              (keep_others n (lookup-contains_key id tx n.orphans e)))
      ]

pub forged_refused :
    (c : Crypto) (miner : Option ℕ) (call : Call) (tx : Transaction) (n : Node)
    → verify_pow c tx default_difficulty ≡ false
    → missing_of n.world.dag tx ≡ []
    → call.dag_readable ≡ true
    → (process_transaction c miner call tx n).0
      ≡ err (refused (validation_failed (invalid_pow default_difficulty)))
unfolding process_transaction submit process Validation.validate_full Validation.validate_pure
    Validation.new
forged_refused c miner call tx n forged there free = ground arith

-- An orphan without proof of work whose parents are there is refused for it when it is tried, and
-- stays in memory, if the graph can be read and other tasks keep the orphan.
pub forged_orphan_stays :
    (c : Crypto) (miner : Option ℕ) (call : Call) (id : ℕ) (tx : Transaction) (n : Node)
    → verify_pow c tx default_difficulty ≡ false
    → missing_of n.world.dag tx ≡ []
    → call.dag_readable ≡ true
    → ((gap : ℕ) (m : Node)
        → contains_key id m.orphans ≡ true
        → contains_key id (call.others gap m).orphans ≡ true)
    → contains_key id n.orphans ≡ true
    → ((process_transaction c miner call tx n).0
        ≡ err (refused (validation_failed (invalid_pow default_difficulty))))
      × (contains_key id (retry_orphan c miner call id tx n).orphans ≡ true)
forged_orphan_stays c miner call id tx n forged there free keep h =
    let e = forged_refused c miner call tx n forged there free in
    (e, retry_orphan_keeps c miner call id tx n id keep h (inr (rw e refl)))
