-- ===== src/Runs/Mirrors.antt =====
-- The transactions that the database has of the graph (step 9b of src/transaction_processor.rs).
use mathlib.Core.Path.{subst}
use aether_sedc.Prelude.{
  ℕ, ◌≡◌, ◌≢◌, ◌==◌, refl, sym, ◌∙◌, inl, inr, List, [], ◌∷◌, ◌++◌, arith, some, ok, All, Has,
  Bool-cases,
}
use aether_sedc.Dict.{Dict, lookup, insert, IsMap, insert-IsMap, lookup-insert, lookup-contains_key}
use aether_sedc.Transaction.{Transaction}
use aether_sedc.Dag.{Dag, new, insert_transaction, check_transaction, add_transaction_validated}
use aether_sedc.Dag.Shape.{transactions_added}
use aether_sedc.Dag.Remove.{grow, grown-IsWellFormed}
use aether_sedc.Storage.{Storage, values}

-- The graph has grown from the empty one, and the database has its transactions.
pub record Mirrors (d : Dag) (s : Storage) : Type 0 where
  pub order : List Transaction
  pub nonzero : All (λ tx. tx.id ≢ 0) order
  pub grown : d ≡ grow new order
  pub stored : (k : ℕ) → lookup k s.transactions ≡ lookup k d.transactions
  pub keys : IsMap s.transactions

grow-snoc :
    (d : Dag) (txs : List Transaction) (tx : Transaction)
    → grow d (txs ++ tx ∷ []) ≡ (add_transaction_validated (grow d txs) tx).1
unfolding grow
grow-snoc d [] tx = refl
grow-snoc d (u ∷ txs) tx = grow-snoc (add_transaction_validated d u).1 txs tx

pub All-snoc :
    (P : Transaction → Type 0) (txs : List Transaction) (tx : Transaction)
    → All P txs
    → P tx
    → All P (txs ++ tx ∷ [])
All-snoc P [] tx h p = (p, tt)
All-snoc P (u ∷ txs) tx h p = (h.0, All-snoc P txs tx h.1 p)

-- An accepted transaction of a mirrored graph, and the database once it has it.
pub Mirrors-added :
    (d : Dag) (s s' : Storage) (tx : Transaction)
    → tx.id ≢ 0
    → check_transaction d tx ≡ ok tt
    → s'.transactions ≡ insert tx.id tx s.transactions
    → Mirrors d s
    → Mirrors (insert_transaction d tx) s'
unfolding add_transaction_validated
Mirrors-added d s s' tx nonzero checked same m = record {
  order = m.order ++ tx ∷ [];
  nonzero = All-snoc (λ t. t.id ≢ 0) m.order tx m.nonzero nonzero;
  grown = ground (arith, grow-snoc new m.order tx, m.grown, checked);
  stored = λ k.
      rw (same, transactions_added d tx)
        (ground (
          arith,
          lookup-insert k tx.id tx s.transactions,
          lookup-insert k tx.id tx d.transactions,
          m.stored k,
        ));
  keys = rw same (insert-IsMap tx.id tx s.transactions m.keys);
}

pub Mirrors-same :
    (d : Dag) (s s' : Storage) → s'.transactions ≡ s.transactions → Mirrors d s → Mirrors d s'
Mirrors-same d s s' same m = record {
  order = m.order;
  nonzero = m.nonzero;
  grown = m.grown;
  stored = λ k. rw same (m.stored k);
  keys = rw same m.keys;
}

Has-values :
    (d : Dict Transaction) (k : ℕ) (tx : Transaction) → lookup k d ≡ some tx → Has tx (values d)
Has-values [] k tx e = absurd (ground arith)
Has-values ((j, u) ∷ d) k tx e = elim (Bool-cases (j == k)) [
  | inl here ↦ inl (ground arith)
  | inr there ↦ inr (Has-values d k tx (ground arith))
]

values-lookup :
    (d : Dict Transaction) (tx : Transaction)
    → IsMap d
    → Has tx (values d)
    → (k : ℕ) × (lookup k d ≡ some tx)
values-lookup [] tx m h = elim h [ ]
values-lookup ((j, u) ∷ d) tx m (inl e) = (j, ground arith)
values-lookup ((j, u) ∷ d) tx m (inr h) =
    let (k, e) = values-lookup d tx m.1 h in (k, ground (arith, m.0, lookup-contains_key k tx d e))

module _ (d : Dag) (s : Storage) (m : Mirrors d s) where
  pub named : (k : ℕ) (tx : Transaction) → lookup k d.transactions ≡ some tx → tx.id ≡ k
  named k tx e =
      (grown-IsWellFormed m.order m.nonzero).0.named k tx
        (subst (λ d'. lookup k d'.transactions ≡ some tx) m.grown e)

  -- The values of the database are the transactions of the graph.
  pub mirrored_lists :
      ((tx : Transaction) → Has tx (values s.transactions) → lookup tx.id d.transactions ≡ some tx)
      × ((k : ℕ) (tx : Transaction)
          → lookup k d.transactions ≡ some tx
          → Has tx (values s.transactions))
  mirrored_lists = (
    (λ tx h.
        let (k, e) = values-lookup s.transactions tx m.keys h in
        let e' = sym (m.stored k) ∙ e in
        subst (λ j. lookup j d.transactions ≡ some tx) (sym (named k tx e')) e'),
    (λ k tx e. Has-values s.transactions k tx (m.stored k ∙ e)),
  )
