-- ===== src/Runs/Forged.antt =====
-- An orphan on disk at a start of the node (src/rpc.rs, src/node.rs).
use mathlib.Core.Path.{subst}
use aether_sedc.Prelude.{
  ℕ, ◌≡◌, ◌≢◌, ◌⊎◌, refl, sym, ap, inl, inr, true, false, List, [], ◌∷◌, ◌++◌, arith, Option, none,
  some, ok, err, Has, any, ◌==◌, Bool-cases, List-cases, List-cases,
}
use aether_sedc.Dict.{lookup, insert, contains_key-lookup, lookup-insert}
use aether_sedc.Transaction.{Transaction, Crypto, verify_pow, default_difficulty}
use aether_sedc.Dag.{Dag, insert_transaction, check_transaction}
use aether_sedc.Dag.Shape.{transactions_added}
use aether_sedc.Runs.Keeps.{insert_keeps}
use aether_sedc.Storage.{Storage, values, get_all_transactions, get_all_orphans, put_transaction}
use aether_sedc.Validation.{invalid_pow}
use aether_sedc.Processor.{validation_failed}
use aether_sedc.Rpc.{Node, Call, refused, missing_of, process_transaction}
use aether_sedc.Rpc.Waiting.{forged_refused}
use aether_sedc.Node.{add_absent, all_transactions, rebuild}
use aether_sedc.Node.Restart.{rebuild-grown}
use aether_sedc.Runs.Mirrors.{Mirrors, Mirrors-added, mirrored_lists}

any-absent :
    (txs : List Transaction) (id : ℕ)
    → ((u : Transaction) → Has u txs → u.id ≢ id)
    → any (λ t. t.id == id) txs ≡ false
any-absent [] id h = refl
any-absent (t ∷ txs) id h = ground (arith, h t (inl refl), any-absent txs id (λ u m. h u (inr m)))

Has-append :
    (txs : List Transaction) (tx u : Transaction) → (Has u txs ⊎ (tx ≡ u)) → Has u (txs ++ tx ∷ [])
Has-append [] tx u (inl h) = elim h [ ]
Has-append [] tx u (inr e) = inl e
Has-append (t ∷ txs) tx u (inl (inl e)) = inl e
Has-append (t ∷ txs) tx u (inl (inr m)) = inr (Has-append txs tx u (inl m))
Has-append (t ∷ txs) tx u (inr e) = inr (Has-append txs tx u (inr e))

Has-append_cases :
    (txs : List Transaction) (tx u : Transaction) → Has u (txs ++ tx ∷ []) → Has u txs ⊎ (tx ≡ u)
Has-append_cases [] tx u (inl e) = inr e
Has-append_cases [] tx u (inr h) = elim h [ ]
Has-append_cases (t ∷ txs) tx u (inl e) = inl (inl e)
Has-append_cases (t ∷ txs) tx u (inr m) = elim (Has-append_cases txs tx u m) [
  | inl there ↦ inl (inr there)
  | inr e ↦ inr e
]

-- A start reads the orphan behind the transactions, whose identifiers are others.
reads_orphan :
    (s : Storage) (tx : Transaction)
    → s.orphans ≡ (tx.id, tx) ∷ []
    → any (λ t. t.id == tx.id) (values s.transactions) ≡ false
    → all_transactions s [] ≡ values s.transactions ++ tx ∷ []
unfolding all_transactions add_absent get_all_transactions get_all_orphans
reads_orphan s tx e absent =
    let added : add_absent (values s.transactions) (values s.orphans)
        ≡ values s.transactions ++ tx ∷ [] =
      ground arith in
    elim (List-cases (values s.transactions)) [
      | inl none_there ↦ ground arith
      | inr (t, ts, there) ↦ ground arith
    ]

checked_absent :
    (d : Dag) (tx : Transaction)
    → check_transaction d tx ≡ ok tt
    → (lookup tx.id d.transactions ≡ none) × (missing_of d tx ≡ [])
unfolding check_transaction missing_of
checked_absent d tx h = (contains_key-lookup tx.id d.transactions (ground arith), ground arith)

module _ (d : Dag) (s : Storage) (tx : Transaction) (m : Mirrors d s) (nonzero : tx.id ≢ 0)
    (checked : check_transaction d tx ≡ ok tt) (alone : s.orphans ≡ (tx.id, tx) ∷ []) where
  -- The identifier of an accepted orphan is none of the database's.
  others_listed : (u : Transaction) → Has u (values s.transactions) → u.id ≢ tx.id
  others_listed u listed same =
      let (only, _) = mirrored_lists d s m in
      let (fresh, _) = checked_absent d tx checked in
      absurd (ground (arith, ap (λ k. lookup k d.transactions) same, only u listed))

  accepted_listed :
      (u : Transaction)
      → Has u (values s.transactions ++ tx ∷ [])
      → lookup u.id (insert_transaction d tx).transactions ≡ some u
  accepted_listed u h = elim (Has-append_cases (values s.transactions) tx u h) [
    | inl listed ↦ insert_keeps u.id u d tx checked ((mirrored_lists d s m).0 u listed)
    | inr e ↦
        subst (λ v. lookup v.id (insert_transaction d tx).transactions ≡ some v) e
          (rw (transactions_added d tx)
            (ground (arith, lookup-insert tx.id tx.id tx d.transactions)))
  ]

  listed_accepted :
      (k : ℕ) (u : Transaction)
      → lookup k (insert_transaction d tx).transactions ≡ some u
      → Has u (values s.transactions ++ tx ∷ [])
  listed_accepted k u e =
      let e' : lookup k (insert tx.id tx d.transactions) ≡ some u =
        subst (λ ts. lookup k ts ≡ some u) (transactions_added d tx) e in
      let read = lookup-insert k tx.id tx d.transactions in
      elim (Bool-cases (tx.id == k)) [
        | inl here ↦ Has-append (values s.transactions) tx u (inr (ground (arith, read)))
        | inr there ↦
            Has-append (values s.transactions) tx u
              (inl ((mirrored_lists d s m).1 k u (ground (arith, read))))
      ]

  -- A start puts the orphan into the graph.
  pub restart_admits_orphan :
      (k : ℕ)
      → lookup k (rebuild (all_transactions s [])).0.transactions
        ≡ lookup k (insert_transaction d tx).transactions
  unfolding put_transaction
  restart_admits_orphan k =
      let txs = values s.transactions ++ tx ∷ [] in
      let with_orphan = Mirrors-added d s (put_transaction s tx) tx nonzero checked refl m in
      rw (reads_orphan s tx alone (any-absent (values s.transactions) tx.id others_listed)) (
        subst
          (λ g.
            ((u : Transaction) → Has u txs → lookup u.id g.transactions ≡ some u)
            → ((j : ℕ) (u : Transaction) → lookup j g.transactions ≡ some u → Has u txs)
            → lookup k (rebuild txs).0.transactions ≡ lookup k g.transactions)
          (sym with_orphan.grown)
          (λ only all. (rebuild-grown with_orphan.order txs with_orphan.nonzero only all).0 k)
          accepted_listed listed_accepted)

-- A start lets in what a call refuses: an orphan on disk without proof of work is refused for it by
-- every call, if the graph accepts it and can be read, but a start with it puts it into the graph.
-- The database has the transactions of the graph, which has grown from the empty one, the orphan is
-- the only one on disk and is not the genesis, and no dag.json is there.
pub forged_orphan_enters :
    (c : Crypto) (miner : Option ℕ) (call : Call) (n : Node) (tx : Transaction)
    → Mirrors n.world.dag n.storage
    → tx.id ≢ 0
    → check_transaction n.world.dag tx ≡ ok tt
    → n.storage.orphans ≡ (tx.id, tx) ∷ []
    → call.dag_readable ≡ true
    → verify_pow c tx default_difficulty ≡ false
    → ((process_transaction c miner call tx n).0
        ≡ err (refused (validation_failed (invalid_pow default_difficulty))))
      × (lookup tx.id (rebuild (all_transactions n.storage [])).0.transactions ≡ some tx)
forged_orphan_enters c miner call n tx m nonzero checked alone free forged =
    let (_, there) = checked_absent n.world.dag tx checked in
    (
      forged_refused c miner call tx n forged there free,
      rw
          (
            restart_admits_orphan n.world.dag n.storage tx m nonzero checked alone tx.id,
            transactions_added n.world.dag tx,
          )
          (ground (arith, lookup-insert tx.id tx.id tx n.world.dag.transactions)),
    )
