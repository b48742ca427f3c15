-- ===== src/P2p/Pages.antt =====
-- The pages of transactions that two nodes exchange (src/p2p.rs): what they hold and how long they
-- are.
use mathlib.Core.Path.{subst}
use mathlib.Core.List.{append-nil, append_assoc}
use aether_sedc.Prelude.{
  ℕ, zero, suc, ◌≤◌, ◌≡◌, refl, sym, ◌∙◌, ◌⊎◌, inl, inr, Bool, true, false, List, [], ◌∷◌, ◌++◌,
  some, arith, ◌==◌, leb, length, member, retain, Has, Bool-cases, Option-cases,
}
use aether_sedc.Dict.{Dict, lookup, contains_key}
use aether_sedc.Transaction.{Transaction, take}
use aether_sedc.P2p.{
  Codec, P2PNetwork, View, keys_of, found_bytes, unseen, insert_by_time, sort_by_time, send_all,
  send, mark_seen, network,
}

pub take_whole : (n : ℕ) (xs : List ℕ) → length xs ≤ n → take n xs ≡ xs
take_whole zero [] h = refl
take_whole zero (x ∷ xs) h = absurd (omega arith)
take_whole (suc n) [] h = refl
take_whole (suc n) (x ∷ xs) h = rw (take_whole n xs (omega arith)) refl

pub length-take : (n : ℕ) (xs : List ℕ) → length (take n xs) ≤ n
length-take zero xs = omega arith
length-take (suc n) [] = omega arith
length-take (suc n) (x ∷ xs) = omega (arith, length-take n xs)

pub member-keys : (id : ℕ) (d : Dict Transaction) → member id (keys_of d) ≡ contains_key id d
member-keys id [] = refl
member-keys id ((j, u) ∷ d) = ground (arith, member-keys id d)

pub Has-keys :
    (id : ℕ) (tx : Transaction) (d : Dict Transaction) → lookup id d ≡ some tx → Has id (keys_of d)
Has-keys id tx [] e = absurd (ground arith)
Has-keys id tx ((j, u) ∷ d) e = elim (Bool-cases (j == id)) [
  | inl here ↦ inl (ground arith)
  | inr there ↦ inr (Has-keys id tx d (ground arith))
]

pub Has-retain :
    (keep : ℕ → Bool) (id : ℕ) (xs : List ℕ) → keep id ≡ true → Has id xs → Has id (retain keep xs)
Has-retain keep id [] k h = h
Has-retain keep id (x ∷ xs) k (inl e) = rw (subst (λ y. keep y ≡ true) (sym e) k) (inl e)
Has-retain keep id (x ∷ xs) k (inr h) =
    let rest = Has-retain keep id xs k h in
    elim (Bool-cases (keep x)) [ inl e ↦ rw e (inr rest) | inr e ↦ rw e rest ]

module _ (c : Codec) (v : View) where
  pub Has-found_bytes :
      (id : ℕ) (tx : Transaction) (hashes : List ℕ)
      → v.readable ≡ true
      → lookup id v.dag.transactions ≡ some tx
      → Has id hashes
      → Has (c.serialize tx) (found_bytes c v hashes)
  Has-found_bytes id tx [] r e h = elim h [ ]
  Has-found_bytes id tx (x ∷ hashes) r e (inl same) =
      let there : lookup x v.dag.transactions ≡ some tx =
        subst (λ y. lookup y v.dag.transactions ≡ some tx) (sym same) e in
      ground (arith, r, there)
  Has-found_bytes id tx (x ∷ hashes) r e (inr h) =
      let rest = Has-found_bytes id tx hashes r e h in
      elim (Option-cases (lookup x v.dag.transactions)) [
        | inl e' ↦ ground (arith, rest)
        | inr (u, e') ↦ ground (arith, rest)
      ]

  pub length-found_bytes : (hashes : List ℕ) → length (found_bytes c v hashes) ≤ length hashes
  length-found_bytes [] = omega arith
  length-found_bytes (x ∷ hashes) = ground (arith, length-found_bytes hashes)

  pub Has-unseen :
      (n : P2PNetwork) (tx : Transaction) (bytes : List ℕ)
      → c.deserialize (c.serialize tx) ≡ some tx
      → contains_key (c.serialize tx) n.seen_transactions ≡ false
      → Has (c.serialize tx) bytes
      → Has tx (unseen c n bytes)
  Has-unseen n tx [] reads_back new h = elim h [ ]
  Has-unseen n tx (x ∷ bytes) reads_back new (inl same) = rw (same, new, reads_back) (inl refl)
  Has-unseen n tx (x ∷ bytes) reads_back new (inr h) =
      let rest = Has-unseen n tx bytes reads_back new h in
      elim (Bool-cases (contains_key x n.seen_transactions)) [
        | inl old ↦ rw old rest
        | inr fresh ↦ elim (Option-cases (c.deserialize x)) [
          | inl e ↦ rw (fresh, e) rest
          | inr (u, e) ↦ rw (fresh, e) (inr rest)
        ]
      ]

  pub length-unseen : (n : P2PNetwork) (bytes : List ℕ) → length (unseen c n bytes) ≤ length bytes
  length-unseen n [] = omega arith
  length-unseen n (x ∷ bytes) = ground (arith, length-unseen n bytes)

  pub send_all-sent :
      (now : ℕ) (txs : List Transaction) (n : P2PNetwork)
      → (send_all c now txs n).sent ≡ n.sent ++ txs
  send_all-sent now [] n = sym (append-nil n.sent)
  send_all-sent now (tx ∷ txs) n =
      send_all-sent now txs (send tx (mark_seen network now (c.serialize tx) n))
      ∙ append_assoc n.sent (tx ∷ []) txs

pub Has-insert_by_time :
    (tx u : Transaction) (us : List Transaction)
    → ((tx ≡ u) ⊎ Has u us)
    → Has u (insert_by_time tx us)
Has-insert_by_time tx u [] h = h
Has-insert_by_time tx u (w ∷ us) h = elim (Bool-cases (leb tx.timestamp w.timestamp)) [
  | inl e ↦ rw e h
  | inr e ↦ rw e (elim h [
    | inl same ↦ inr (Has-insert_by_time tx u us (inl same))
    | inr (inl same) ↦ inl same
    | inr (inr m) ↦ inr (Has-insert_by_time tx u us (inr m))
  ])
]

pub Has-sort_by_time :
    (u : Transaction) (txs : List Transaction) → Has u txs → Has u (sort_by_time txs)
Has-sort_by_time u [] h = h
Has-sort_by_time u (tx ∷ txs) (inl e) = Has-insert_by_time tx u (sort_by_time txs) (inl e)
Has-sort_by_time u (tx ∷ txs) (inr h) =
    Has-insert_by_time tx u (sort_by_time txs) (inr (Has-sort_by_time u txs h))

pub length-insert_by_time :
    (tx : Transaction) (us : List Transaction) → length (insert_by_time tx us) ≡ suc (length us)
length-insert_by_time tx [] = refl
length-insert_by_time tx (w ∷ us) = ground (arith, length-insert_by_time tx us)

pub length-sort_by_time : (txs : List Transaction) → length (sort_by_time txs) ≡ length txs
length-sort_by_time [] = refl
length-sort_by_time (tx ∷ txs) =
    ground (arith, length-sort_by_time txs, length-insert_by_time tx (sort_by_time txs))

pub Has-appended : (xs ys : List Transaction) (u : Transaction) → Has u ys → Has u (xs ++ ys)
Has-appended [] ys u h = h
Has-appended (x ∷ xs) ys u h = inr (Has-appended xs ys u h)
