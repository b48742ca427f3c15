-- ===== src/Dag/Add.antt =====
-- `add_transaction_validated` of src/parent_selection.rs keeps the graph well formed.
use aether_sedc.Prelude.{
  ℕ, ◌≡◌, refl, sym, ◌∙◌, ◌≢◌, ◌↔◌, ◌⊎◌, inl, inr, true, false, [], some, arith, ◌==◌,
  if◌then◌else◌, ok, Result-cases,
}
use aether_sedc.Dict.{lookup, contains_key, lookup-insert, contains_key-insert}
use aether_sedc.Ledger.{faucet_address}
use aether_sedc.Transaction.{Transaction}
use aether_sedc.Dag.{
  Dag, new, children_of, uses_nonce, check_transaction, has_transaction_with_nonce,
  add_transaction_validated,
}
use aether_sedc.Dag.Shape.{
  IsKnown, IsWellFormed, any-lookup, added, transactions_added, children_added, tips_added,
  appended_empty,
}

-- What the checks of an accepted transaction give.
pub record IsAccepted (d : Dag) (tx : Transaction) : Type 0 where
  pub fresh : contains_key tx.id d.transactions ≡ false
  pub parent0 : IsKnown d tx.parents.0
  pub parent1 : IsKnown d tx.parents.1
  pub unused :
      (tx.sender ≡ faucet_address)
      ⊎ (has_transaction_with_nonce d tx.sender tx.account_nonce ≡ false)

pub check-IsAccepted :
    (d : Dag) (tx : Transaction) → check_transaction d tx ≡ ok tt → IsAccepted d tx
unfolding check_transaction
check-IsAccepted d tx h = record {
  fresh = ground arith;
  parent0 = ground arith;
  parent1 = ground arith;
  unused = ground arith;
}

module _ (d : Dag) (tx : Transaction) (wf : IsWellFormed d) (acc : IsAccepted d tx)
    (nonzero : tx.id ≢ 0) where
  lookup-added :
      (k : ℕ)
      → lookup k (added d tx).transactions
        ≡ (if tx.id == k then some tx else lookup k d.transactions)
  lookup-added k = rw (transactions_added d tx) (lookup-insert k tx.id tx d.transactions)

  contains_added :
      (k : ℕ)
      → contains_key k (added d tx).transactions
        ≡ (if tx.id == k then true else contains_key k d.transactions)
  contains_added k = rw (transactions_added d tx) (contains_key-insert k tx.id tx d.transactions)

  added_cases :
      (k : ℕ) (u : Transaction)
      → lookup k (added d tx).transactions ≡ some u
      → ((k ≡ tx.id) × (u ≡ tx)) ⊎ (lookup k d.transactions ≡ some u)
  added_cases k u e = ground (arith, lookup-added k)

  no_children_added :
      (k : ℕ)
      → (children_of (added d tx) k ≡ [])
        ↔ ((children_of d k ≡ []) × ((tx.parents.0 == k) ≡ false) × ((tx.parents.1 == k) ≡ false))
  no_children_added k =
      rw (children_added d tx k acc.parent0 acc.parent1)
        (appended_empty (children_of d k) (tx.parents.0 == k) (tx.parents.1 == k) tx.id)

  IsKnown-added : (p : ℕ) → IsKnown d p → IsKnown (added d tx) p
  IsKnown-added p (inl e) = inl e
  IsKnown-added p (inr h) = inr (ground (arith, contains_added p))

  named_added : (k : ℕ) (u : Transaction) → lookup k (added d tx).transactions ≡ some u → u.id ≡ k
  named_added k u e = ground (arith, lookup-added k, wf.named k u)

  closed_added :
      (k : ℕ) (u : Transaction)
      → lookup k (added d tx).transactions ≡ some u
      → IsKnown (added d tx) u.parents.0 × IsKnown (added d tx) u.parents.1
  closed_added k u e = elim (added_cases k u e) [
    | inl (_, same) ↦
        rw same (IsKnown-added tx.parents.0 acc.parent0, IsKnown-added tx.parents.1 acc.parent1)
    | inr old ↦
        let known = wf.closed k u old in
        (IsKnown-added u.parents.0 known.0, IsKnown-added u.parents.1 known.1)
  ]

  unborn_added :
      (k : ℕ)
      → contains_key k (added d tx).transactions ≡ false
      → k ≢ 0
      → children_of (added d tx) k ≡ []
  unborn_added k h ne =
      ground (arith, contains_added k, no_children_added k, wf.unborn k, acc.parent0, acc.parent1)

  tips_exact_added :
      (k : ℕ)
      → (contains_key k (added d tx).tips ≡ true)
        ↔ ((contains_key k (added d tx).transactions ≡ true) × (children_of (added d tx) k ≡ []))
  tips_exact_added k = ground (
    arith,
    tips_added d tx k,
    contains_added k,
    no_children_added k,
    wf.tips_exact k,
    wf.no_genesis,
    wf.unborn k,
    acc.fresh,
    acc.parent0,
    acc.parent1,
  )

  -- The sender of the new transaction has no stored transaction with its nonce.
  nonce_unused :
      (k : ℕ) (u : Transaction)
      → lookup k d.transactions ≡ some u
      → tx.sender ≢ faucet_address
      → u.sender ≡ tx.sender
      → u.account_nonce ≢ tx.account_nonce
  unfolding has_transaction_with_nonce
  nonce_unused k u e nf es en =
      ground
        (arith, acc.unused, any-lookup (uses_nonce tx.sender tx.account_nonce) k u d.transactions)

  nonce_cases :
      (j k : ℕ) (t u : Transaction)
      → (((j ≡ tx.id) × (t ≡ tx)) ⊎ (lookup j d.transactions ≡ some t))
      → (((k ≡ tx.id) × (u ≡ tx)) ⊎ (lookup k d.transactions ≡ some u))
      → t.sender ≡ u.sender
      → t.account_nonce ≡ u.account_nonce
      → t.sender ≢ faucet_address
      → j ≡ k
  nonce_cases j k t u (inl (ej, et)) (inl (ek, eu)) es en nf = ej ∙ sym ek
  nonce_cases j k t u (inl (ej, et)) (inr old) es en nf = ground (arith, nonce_unused k u old)
  nonce_cases j k t u (inr old) (inl (ek, eu)) es en nf = ground (arith, nonce_unused j t old)
  nonce_cases j k t u (inr old_t) (inr old_u) es en nf =
      wf.nonces_distinct j k t u old_t old_u es en nf

  nonces_distinct_added :
      (j k : ℕ) (t u : Transaction)
      → lookup j (added d tx).transactions ≡ some t
      → lookup k (added d tx).transactions ≡ some u
      → t.sender ≡ u.sender
      → t.account_nonce ≡ u.account_nonce
      → t.sender ≢ faucet_address
      → j ≡ k
  nonces_distinct_added j k t u ej ek es en nf =
      nonce_cases j k t u (added_cases j t ej) (added_cases k u ek) es en nf

  pub added-IsWellFormed : IsWellFormed (added d tx)
  added-IsWellFormed = record {
    named = named_added;
    closed = closed_added;
    no_genesis = ground (arith, contains_added 0, wf.no_genesis);
    unborn = unborn_added;
    tips_exact = tips_exact_added;
    nonces_distinct = nonces_distinct_added;
  }

-- Adding a transaction keeps the graph well formed, whether it is accepted or refused: the parents
-- are stored, the tips are exactly the transactions with no children, and the nonces of a sender
-- other than the faucet are distinct. Its identifier must not be the genesis identifier.
pub add-IsWellFormed :
    (d : Dag) (tx : Transaction)
    → IsWellFormed d
    → tx.id ≢ 0
    → IsWellFormed (add_transaction_validated d tx).1
unfolding add_transaction_validated
add-IsWellFormed d tx wf nonzero = elim (Result-cases (check_transaction d tx)) [
  | inl (_, e) ↦
      rw (e, add_transaction_validated)
        (added-IsWellFormed d tx wf (check-IsAccepted d tx e) nonzero)
  | inr (_, e) ↦ rw (e, add_transaction_validated) wf
]

pub new-IsWellFormed : IsWellFormed new
unfolding new
new-IsWellFormed = record {
  named = λ k tx e. ground arith;
  closed = λ k tx e. absurd (ground arith);
  no_genesis = refl;
  unborn = λ k h ne. refl;
  tips_exact = λ k. ground arith;
  nonces_distinct = λ j k t u ej. ground arith;
}
