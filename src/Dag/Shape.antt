-- ===== src/Dag/Shape.antt =====
-- The well-formedness of the graph (src/parent_selection.rs) and reading after each write.
use aether_sedc.Prelude.{
  ℕ, ◌≡◌, ◌≢◌, ◌↔◌, ◌⊎◌, inl, inr, Bool, true, false, List, [], ◌∷◌, ◌++◌, some, arith, ◌==◌,
  if◌then◌else◌, any,
}
use mathlib.Core.List.{append-nil}
use aether_sedc.Dict.{
  Dict, lookup, contains_key, insert, remove, lookup-insert, contains_key-insert,
  contains_key-remove,
}
use aether_sedc.Ledger.{faucet_address}
use aether_sedc.Transaction.{Transaction}
use aether_sedc.Dag.{Dag, children_of, push_child, link_child, insert_transaction}

-- An identifier that a transaction may name as a parent.
abbrev pub IsKnown : Dag → ℕ → Type 0
IsKnown d id = (id ≡ 0) ⊎ (contains_key id d.transactions ≡ true)

pub record IsWellFormed (d : Dag) : Type 0 where
  -- A transaction is stored under its own identifier.
  pub named : (k : ℕ) (tx : Transaction) → lookup k d.transactions ≡ some tx → tx.id ≡ k
  -- Both parents of a stored transaction are stored or are the genesis.
  pub closed :
      (k : ℕ) (tx : Transaction)
      → lookup k d.transactions ≡ some tx
      → IsKnown d tx.parents.0 × IsKnown d tx.parents.1
  -- The genesis identifier is not stored.
  pub no_genesis : contains_key 0 d.transactions ≡ false
  -- What is not stored, and is not the genesis, has no children.
  pub unborn : (k : ℕ) → contains_key k d.transactions ≡ false → k ≢ 0 → children_of d k ≡ []
  -- The tips are the stored transactions with no children.
  pub tips_exact :
      (k : ℕ)
      → (contains_key k d.tips ≡ true)
        ↔ ((contains_key k d.transactions ≡ true) × (children_of d k ≡ []))
  -- Except for the faucet, a sender's nonces are distinct.
  pub nonces_distinct :
      (j k : ℕ) (t u : Transaction)
      → lookup j d.transactions ≡ some t
      → lookup k d.transactions ≡ some u
      → t.sender ≡ u.sender
      → t.account_nonce ≡ u.account_nonce
      → t.sender ≢ faucet_address
      → j ≡ k

abbrev stored : Dag → Transaction → Dag
stored d tx = record d { transactions = insert tx.id tx d.transactions }

-- What a test that no entry passes says of each entry.
pub any-lookup :
    (test : ℕ × Transaction → Bool) (k : ℕ) (tx : Transaction) (m : Dict Transaction)
    → any test m ≡ false
    → lookup k m ≡ some tx
    → test (k, tx) ≡ false
any-lookup test k tx [] h e = ground arith
any-lookup test k tx ((j, u) ∷ m) h e = ground (arith, any-lookup test k tx m)

children_of-push :
    (d : Dag) (p id k : ℕ)
    → children_of (push_child p id d) k ≡ children_of d k ++ (if p == k then id ∷ [] else [])
children_of-push d p id k =
    ground (
      arith,
      lookup-insert k p (children_of d p ++ id ∷ []) d.children,
      append-nil (children_of d k),
    )

link-push : (d : Dag) (p id : ℕ) → IsKnown d p → link_child p id d ≡ push_child p id d
link-push d p id h = ground arith

IsKnown-after : (d : Dag) (tx : Transaction) (p : ℕ) → IsKnown d p → IsKnown (stored d tx) p
IsKnown-after d tx p (inl e) = inl e
IsKnown-after d tx p (inr h) = inr (ground (arith, contains_key-insert p tx.id tx d.transactions))

pub appended_empty :
    (xs : List ℕ) (b c : Bool) (x : ℕ)
    → (((xs ++ (if b then x ∷ [] else [])) ++ (if c then x ∷ [] else [])) ≡ [])
      ↔ ((xs ≡ []) × (b ≡ false) × (c ≡ false))
appended_empty [] b c x = ground arith
appended_empty (y ∷ xs) b c x = ground arith

module _ (d : Dag) (tx : Transaction) where
  abbrev pub added : Dag
  added = insert_transaction d tx

  -- The transactions after an insertion.
  pub transactions_added : added.transactions ≡ insert tx.id tx d.transactions
  unfolding insert_transaction
  transactions_added = ground arith

  pub children_added :
      (k : ℕ)
      → IsKnown d tx.parents.0
      → IsKnown d tx.parents.1
      → children_of added k
        ≡ (children_of d k ++ (if tx.parents.0 == k then tx.id ∷ [] else []))
          ++ (if tx.parents.1 == k then tx.id ∷ [] else [])
  unfolding insert_transaction
  children_added k k0 k1 =
      let d1 = stored d tx in
      let d2 = push_child tx.parents.0 tx.id d1 in
      ground (
        arith,
        link-push d1 tx.parents.0 tx.id (IsKnown-after d tx tx.parents.0 k0),
        link-push d2 tx.parents.1 tx.id (IsKnown-after d tx tx.parents.1 k1),
        children_of-push d1 tx.parents.0 tx.id k,
        children_of-push d2 tx.parents.1 tx.id k,
      )

  pub tips_added :
      (k : ℕ)
      → contains_key k added.tips ≡ (
          if k == 0
          then (if tx.id == 0 then true else contains_key 0 d.tips)
          else if tx.parents.0 == k
          then false
          else if tx.parents.1 == k
          then false
          else if tx.id == k
          then true
          else contains_key k d.tips)
  unfolding insert_transaction
  tips_added k = ground (
    arith,
    contains_key-insert k tx.id tt d.tips,
    contains_key-remove k tx.parents.0 (insert tx.id tt d.tips),
    contains_key-remove k tx.parents.1 (insert tx.id tt d.tips),
    contains_key-remove k tx.parents.1 (remove tx.parents.0 (insert tx.id tt d.tips)),
  )
