-- ===== src/Node/Restores.antt =====
-- What the rebuilding of the graph (src/node.rs) keeps on its way back to a graph that was stored.
use aether_sedc.Prelude.{
  ℕ, zero, suc, ◌≡◌, refl, ◌≢◌, ◌⊎◌, inl, inr, Bool, true, false, List, [], ◌∷◌, some, arith, ◌==◌,
  if◌then◌else◌, any, Has, ok, Bool-cases, Option-cases,
}
use aether_sedc.Dict.{
  Dict, lookup, contains_key, IsMap, insert-IsMap, lookup-insert, lookup-contains_key,
  lookup-none-contains_key,
}
use aether_sedc.Ledger.{faucet_address}
use aether_sedc.Transaction.{Transaction}
use aether_sedc.Dag.{
  Dag, same_parents, uses_nonce, check_transaction, has_transaction_with_parents,
  has_transaction_with_nonce, has_sender_conflict, insert_transaction, add_transaction_validated,
}
use aether_sedc.Dag.Shape.{IsWellFormed, transactions_added}
use aether_sedc.Dag.Parents.{ParentsDistinct, IsChild}
use aether_sedc.Node.{is_ready, rebuild_pass, rebuild_loop}

-- A test that no looked-up entry passes, no entry passes.
lookup-any :
    (test : ℕ × Transaction → Bool) (m : Dict Transaction)
    → IsMap m
    → ((k : ℕ) (u : Transaction) → lookup k m ≡ some u → test (k, u) ≡ false)
    → any test m ≡ false
lookup-any test [] h all = refl
lookup-any test ((j, u) ∷ m) h all =
    let here = all j u (ground arith) in
    let later =
      lookup-any test m h.1 (λ k v e. all k v (ground (arith, lookup-contains_key k v m e))) in
    ground arith

module _ (d0 : Dag) (wf : IsWellFormed d0) (distinct : ParentsDistinct d0) where
  -- A graph on the way back to `d0`: what it holds is right, and what it lacks is still to come,
  -- among `txs` or elsewhere.
  pub record Restores (elsewhere : Transaction → Type 0) (d : Dag) (txs : List Transaction)
      : Type 0 where
    pub sub :
        (k : ℕ) (tx : Transaction)
        → lookup k d.transactions ≡ some tx
        → lookup k d0.transactions ≡ some tx
    pub own : (tx : Transaction) → Has tx txs → lookup tx.id d0.transactions ≡ some tx
    pub cover :
        (k : ℕ) (tx : Transaction)
        → lookup k d0.transactions ≡ some tx
        → (lookup k d.transactions ≡ some tx) ⊎ (Has tx txs ⊎ elsewhere tx)
    pub keys : IsMap d.transactions

  -- A ready transaction that the graph lacks passes every check.
  passes :
      (d : Dag) (tx : Transaction)
      → ((k : ℕ) (u : Transaction)
          → lookup k d.transactions ≡ some u
          → lookup k d0.transactions ≡ some u)
      → IsMap d.transactions
      → lookup tx.id d0.transactions ≡ some tx
      → is_ready d tx ≡ true
      → contains_key tx.id d.transactions ≡ false
      → check_transaction d tx ≡ ok tt
  unfolding check_transaction has_transaction_with_parents has_sender_conflict
      has_transaction_with_nonce
  passes d tx sub keys own ready fresh =
      let differs : (k : ℕ) (u : Transaction) → lookup k d.transactions ≡ some u → k ≢ tx.id =
        (λ k u e p. absurd (ground (arith, lookup-contains_key k u d.transactions e))) in
      let parents : IsChild tx → any (same_parents tx.parents) d.transactions ≡ false = (λ child.
        lookup-any (same_parents tx.parents) d.transactions keys
          (λ k u e. ground (arith, differs k u e, distinct tx.id k tx u own (sub k u e)))) in
      let nonces : tx.sender ≢ faucet_address
          → any (uses_nonce tx.sender tx.account_nonce) d.transactions ≡ false =
        (λ nf. lookup-any (uses_nonce tx.sender tx.account_nonce) d.transactions keys (λ k u e.
          ground (arith, differs k u e, wf.nonces_distinct tx.id k tx u own (sub k u e)))) in
      ground (arith, parents, nonces)

  -- After a ready transaction was tried, the graph holds it and what it held.
  tried :
      (elsewhere : Transaction → Type 0) (d : Dag) (tx : Transaction) (txs : List Transaction)
      → Restores elsewhere d (tx ∷ txs)
      → is_ready d tx ≡ true
      → ((k : ℕ)
          → lookup k (add_transaction_validated d tx).1.transactions
            ≡ (if tx.id == k then some tx else lookup k d.transactions))
        × IsMap (add_transaction_validated d tx).1.transactions
  unfolding add_transaction_validated check_transaction
  tried elsewhere d tx txs h ready =
      let own = h.own tx (inl refl) in
      elim (Option-cases (lookup tx.id d.transactions)) [
        | inr (u, e) ↦
            let known = lookup-contains_key tx.id u d.transactions e in
            let same = h.sub tx.id u e in
            let kept : (add_transaction_validated d tx).1 ≡ d = ground (arith, known) in
            (λ k. ground (arith, kept, own, same, e), rw kept h.keys)
        | inl e ↦
            let passed =
              passes d tx h.sub h.keys own ready
                (lookup-none-contains_key tx.id d.transactions e) in
            let there : (add_transaction_validated d tx).1 ≡ insert_transaction d tx =
              ground (arith, passed) in
            (
              λ k. rw (there, transactions_added d tx) (lookup-insert k tx.id tx d.transactions),
              rw (there, transactions_added d tx) (insert-IsMap tx.id tx d.transactions h.keys),
            )
      ]

  try_ready :
      (elsewhere : Transaction → Type 0) (d : Dag) (tx : Transaction) (txs : List Transaction)
      → Restores elsewhere d (tx ∷ txs)
      → is_ready d tx ≡ true
      → Restores elsewhere (add_transaction_validated d tx).1 txs
  try_ready elsewhere d tx txs h ready =
      let (now, keys) = tried elsewhere d tx txs h ready in
      let own = h.own tx (inl refl) in
      record {
        sub = λ k u e. ground (arith, now k, own, h.sub k u);
        own = λ u m. h.own u (inr m);
        cover = λ k u e. elim (h.cover k u e) [
          | inl held ↦ inl (ground (arith, now k, own))
          | inr (inl (inl same)) ↦ inl (let name = wf.named k u e in ground (arith, now k))
          | inr (inl (inr later)) ↦ inr (inl later)
          | inr (inr other) ↦ inr (inr other)
        ];
        keys = keys;
      }

  rebuild_pass-Restores :
      (txs : List Transaction) (elsewhere : Transaction → Type 0) (d : Dag)
      → Restores elsewhere d txs
      → Restores elsewhere (rebuild_pass d txs).dag (rebuild_pass d txs).pending
  unfolding rebuild_pass
  rebuild_pass-Restores [] elsewhere d h = h
  rebuild_pass-Restores (tx ∷ txs) elsewhere d h = elim (Bool-cases (is_ready d tx)) [
    | inl ready ↦
        let next = (add_transaction_validated d tx).1 in
        rw ready (rebuild_pass-Restores txs elsewhere next (try_ready elsewhere d tx txs h ready))
    | inr waits ↦
        let rest =
          rebuild_pass-Restores txs (λ u. (tx ≡ u) ⊎ elsewhere u) d
            (record {
              sub = h.sub;
              own = λ u m. h.own u (inr m);
              cover = λ k u e. elim (h.cover k u e) [
                | inl held ↦ inl held
                | inr (inl (inl same)) ↦ inr (inr (inl same))
                | inr (inl (inr later)) ↦ inr (inl later)
                | inr (inr other) ↦ inr (inr (inr other))
              ];
              keys = h.keys;
            }) in
        rw waits (record {
          sub = rest.sub;
          own = λ u m. elim m [ inl same ↦ h.own u (inl same) | inr later ↦ rest.own u later ];
          cover = λ k u e. elim (rest.cover k u e) [
            | inl held ↦ inl held
            | inr (inl later) ↦ inr (inl (inr later))
            | inr (inr (inl same)) ↦ inr (inl (inl same))
            | inr (inr (inr other)) ↦ inr (inr other)
          ];
          keys = rest.keys;
        })
  ]

  pub rebuild_loop-Restores :
      (rounds : ℕ) (elsewhere : Transaction → Type 0) (d : Dag) (txs : List Transaction)
      → Restores elsewhere d txs
      → Restores elsewhere (rebuild_loop rounds d txs).0 (rebuild_loop rounds d txs).1
  unfolding rebuild_loop
  rebuild_loop-Restores zero elsewhere d txs h = h
  rebuild_loop-Restores (suc rounds) elsewhere d txs h =
      let pass = rebuild_pass d txs in
      let next = rebuild_pass-Restores txs elsewhere d h in
      elim (Bool-cases pass.progress) [
        | inl more ↦ rw more (rebuild_loop-Restores rounds elsewhere pass.dag pass.pending next)
        | inr done ↦ rw done next
      ]
