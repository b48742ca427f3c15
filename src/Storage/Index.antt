-- ===== src/Storage/Index.antt =====
-- The address index of src/storage.rs, and the order of the writes of a batch.
use native.Mathlib.Decide.{ℕ_discrete}
use mathlib.Core.Path.{subst}
use aether_sedc.Prelude.{
  sym, ℕ, ◌<◌, ◌≡◌, refl, ◌⊎◌, inl, inr, true, List, [], ◌∷◌, some, arith, Has, Option-cases,
  Bool-cases,
}
use aether_sedc.Dict.{Dict, lookup, insert, lookup-insert, lookup-remove}
use aether_sedc.Transaction.{Transaction}
use aether_sedc.Storage.{
  Storage, BatchOperation, put_tx, put_bal, delete_tx, index_key, has_prefix, id_mod,
  put_transaction, put_balance, delete_transaction, found_at, get_transactions_by_address,
}

-- Every stored transaction stands under its identifier, of 32 bytes, and has both index entries.
pub record IsIndexed (s : Storage) : Type 0 where
  pub named : (k : ℕ) (tx : Transaction) → lookup k s.transactions ≡ some tx → tx.id ≡ k
  pub small : (k : ℕ) (tx : Transaction) → lookup k s.transactions ≡ some tx → k < id_mod
  pub by_sender :
      (k : ℕ) (tx : Transaction)
      → lookup k s.transactions ≡ some tx
      → lookup (index_key tx.sender k) s.address_index ≡ some k
  pub by_receiver :
      (k : ℕ) (tx : Transaction)
      → lookup k s.transactions ≡ some tx
      → lookup (index_key tx.receiver k) s.address_index ≡ some k

-- Two keys are the same only for the same address and identifier.
index_key_injective :
    (a b j k : ℕ) → j < id_mod → k < id_mod → index_key a j ≡ index_key b k → (a ≡ b) × (j ≡ k)
index_key_injective a b j k hj hk e = (omega arith, omega arith)

-- Writing an entry for `id` leaves alone what an entry for another identifier reads.
lookup-index :
    (a b j k : ℕ) (d : Dict ℕ)
    → j < id_mod
    → k < id_mod
    → lookup (index_key a j) d ≡ some j
    → lookup (index_key a j) (insert (index_key b k) k d) ≡ some j
lookup-index a b j k d hj hk h =
    ground
      (arith, lookup-insert (index_key a j) (index_key b k) k d, index_key_injective b a k j hk hj)

-- The scan finds the transaction behind an entry with the address for its prefix.
-- One entry adds nothing, or the stored transaction that it leads to.
found_at_cases :
    (txs : Dict Transaction) (address key id : ℕ) (index : Dict ℕ)
    → (found_at txs address ((key, id) ∷ index) ≡ found_at txs address index)
      ⊎ ((u : Transaction) × (found_at txs address ((key, id) ∷ index)
            ≡ u ∷ found_at txs address index)
          × (has_prefix address key ≡ true)
          × (lookup id txs ≡ some u))
found_at_cases txs address key id index = elim (Bool-cases (has_prefix address key)) [
  | inr other ↦ inl (ground arith)
  | inl same ↦ elim (Option-cases (lookup id txs)) [
    | inl e ↦ inl (ground arith)
    | inr (u, e) ↦ inr (u, ground arith, same, e)
  ]
]

found_at-cons :
    (txs : Dict Transaction) (address key id : ℕ) (tx : Transaction) (index : Dict ℕ)
    → Has tx (found_at txs address index)
    → Has tx (found_at txs address ((key, id) ∷ index))
found_at-cons txs address key id tx index h = elim (found_at_cases txs address key id index) [
  | inl e ↦ subst (Has tx) (sym e) h
  | inr (u, e, _, _) ↦ subst (Has tx) (sym e) (inr h)
]

-- The scan finds the transaction behind an entry with the address for its prefix.
found_at-Has :
    (txs : Dict Transaction) (address key id : ℕ) (tx : Transaction) (index : Dict ℕ)
    → has_prefix address key ≡ true
    → lookup id txs ≡ some tx
    → lookup key index ≡ some id
    → Has tx (found_at txs address index)
found_at-Has txs address key id tx [] p e h = absurd (ground arith)
found_at-Has txs address key id tx ((j, i) ∷ index) p e h = elim (ℕ_discrete j key) [
  | no there ↦
      found_at-cons txs address j i tx index
        (found_at-Has txs address key id tx index p e (ground arith))
  | yes here ↦
      let whole : found_at txs address ((j, i) ∷ index) ≡ tx ∷ found_at txs address index =
        ground arith in
      subst (Has tx) (sym whole) (inl refl)
]

-- A listing by address holds every stored transaction that the address sent or received.
pub listed_by_address :
    (s : Storage) (k address : ℕ) (tx : Transaction)
    → IsIndexed s
    → lookup k s.transactions ≡ some tx
    → (address ≡ tx.sender) ⊎ (address ≡ tx.receiver)
    → Has tx (get_transactions_by_address s address)
unfolding get_transactions_by_address
listed_by_address s k address tx h e (inl p) =
    let small = h.small k tx e in
    found_at-Has s.transactions address (index_key tx.sender k) k tx s.address_index (ground arith)
      e (h.by_sender k tx e)
listed_by_address s k address tx h e (inr p) =
    let small = h.small k tx e in
    found_at-Has s.transactions address (index_key tx.receiver k) k tx s.address_index
      (ground arith) e (h.by_receiver k tx e)

-- After the writes of a transaction, the entry of an address that led to an identifier still does.
kept_entry :
    (s : Storage) (tx : Transaction) (address k : ℕ)
    → tx.id < id_mod
    → k < id_mod
    → lookup (index_key address k) s.address_index ≡ some k
    → lookup (index_key address k) (put_transaction s tx).address_index ≡ some k
unfolding put_transaction
kept_entry s tx address k small small' h =
    lookup-index address tx.receiver k tx.id
      (insert (index_key tx.sender tx.id) tx.id s.address_index) small' small
      (lookup-index address tx.sender k tx.id s.address_index small' small h)

new_entries :
    (s : Storage) (tx : Transaction)
    → tx.id < id_mod
    → (lookup (index_key tx.sender tx.id) (put_transaction s tx).address_index ≡ some tx.id)
      × (lookup (index_key tx.receiver tx.id) (put_transaction s tx).address_index ≡ some tx.id)
unfolding put_transaction
new_entries s tx small =
    let first = insert (index_key tx.sender tx.id) tx.id s.address_index in
    let from =
      lookup-insert (index_key tx.sender tx.id) (index_key tx.receiver tx.id) tx.id first in
    let here =
      lookup-insert (index_key tx.sender tx.id) (index_key tx.sender tx.id) tx.id s.address_index in
    let to =
      lookup-insert (index_key tx.receiver tx.id) (index_key tx.receiver tx.id) tx.id first in
    (ground (arith, from, here), ground (arith, to))

put_cases :
    (s : Storage) (tx u : Transaction) (k : ℕ)
    → lookup k (put_transaction s tx).transactions ≡ some u
    → ((k ≡ tx.id) × (u ≡ tx)) ⊎ (lookup k s.transactions ≡ some u)
unfolding put_transaction
put_cases s tx u k e = ground (arith, lookup-insert k tx.id tx s.transactions)

pub put-IsIndexed :
    (s : Storage) (tx : Transaction)
    → tx.id < id_mod
    → IsIndexed s
    → IsIndexed (put_transaction s tx)
put-IsIndexed s tx small h = record {
  named = λ k u e. elim (put_cases s tx u k e) [
    | inl (p, q) ↦ rw (p, q) refl
    | inr old ↦ h.named k u old
  ];
  small =
      λ k u e. elim (put_cases s tx u k e) [ inl (p, q) ↦ rw p small | inr old ↦ h.small k u old ];
  by_sender = λ k u e. elim (put_cases s tx u k e) [
    | inl (p, q) ↦ rw (p, q) ((new_entries s tx small).0)
    | inr old ↦ kept_entry s tx u.sender k small (h.small k u old) (h.by_sender k u old)
  ];
  by_receiver = λ k u e. elim (put_cases s tx u k e) [
    | inl (p, q) ↦ rw (p, q) ((new_entries s tx small).1)
    | inr old ↦ kept_entry s tx u.receiver k small (h.small k u old) (h.by_receiver k u old)
  ];
}

still_there :
    (s : Storage) (id k : ℕ) (u : Transaction)
    → lookup k (delete_transaction s id).transactions ≡ some u
    → lookup k s.transactions ≡ some u
unfolding delete_transaction
still_there s id k u e = ground (arith, lookup-remove k id s.transactions)

pub delete-IsIndexed : (s : Storage) (id : ℕ) → IsIndexed s → IsIndexed (delete_transaction s id)
unfolding delete_transaction
delete-IsIndexed s id h = record {
  named = λ k u e. h.named k u (still_there s id k u e);
  small = λ k u e. h.small k u (still_there s id k u e);
  by_sender = λ k u e. h.by_sender k u (still_there s id k u e);
  by_receiver = λ k u e. h.by_receiver k u (still_there s id k u e);
}

-- The operations carried out one by one.
abbrev pub run_writes : Storage → List BatchOperation → Storage
run_writes s [] = s
run_writes s (put_tx tx ∷ ops) = run_writes (put_transaction s tx) ops
run_writes s (delete_tx id ∷ ops) = run_writes (delete_transaction s id) ops
run_writes s (put_bal address balance ∷ ops) = run_writes (put_balance s address balance) ops

-- Every transaction that is written has an identifier of 32 bytes.
abbrev pub SmallIds : List BatchOperation → Type 0
SmallIds [] = Unit
SmallIds (put_tx tx ∷ ops) = (tx.id < id_mod) × SmallIds ops
SmallIds (delete_tx id ∷ ops) = SmallIds ops
SmallIds (put_bal address balance ∷ ops) = SmallIds ops

put_balance-IsIndexed :
    (s : Storage) (address balance : ℕ) → IsIndexed s → IsIndexed (put_balance s address balance)
unfolding put_balance
put_balance-IsIndexed s address balance h = record {
  named = h.named;
  small = h.small;
  by_sender = h.by_sender;
  by_receiver = h.by_receiver;
}

run_writes-IsIndexed :
    (s : Storage) (ops : List BatchOperation)
    → SmallIds ops
    → IsIndexed s
    → IsIndexed (run_writes s ops)
run_writes-IsIndexed s [] small h = h
run_writes-IsIndexed s (put_tx tx ∷ ops) small h =
    run_writes-IsIndexed (put_transaction s tx) ops small.1 (put-IsIndexed s tx small.0 h)
run_writes-IsIndexed s (delete_tx id ∷ ops) small h =
    run_writes-IsIndexed (delete_transaction s id) ops small (delete-IsIndexed s id h)
run_writes-IsIndexed s (put_bal address balance ∷ ops) small h =
    run_writes-IsIndexed (put_balance s address balance) ops small
      (put_balance-IsIndexed s address balance h)

-- After any run of single writes, of transactions with identifiers of 32 bytes, to a storage whose
-- index is complete, a listing by address holds every stored transaction that the address sent or
-- received.
pub run_writes_listed :
    (s : Storage) (ops : List BatchOperation) (k address : ℕ) (tx : Transaction)
    → SmallIds ops
    → IsIndexed s
    → lookup k (run_writes s ops).transactions ≡ some tx
    → (address ≡ tx.sender) ⊎ (address ≡ tx.receiver)
    → Has tx (get_transactions_by_address (run_writes s ops) address)
run_writes_listed s ops k address tx small h =
    listed_by_address (run_writes s ops) k address tx (run_writes-IsIndexed s ops small h)
