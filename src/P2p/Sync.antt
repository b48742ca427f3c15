-- ===== src/P2p/Sync.antt =====
-- An exchange of two nodes (src/p2p.rs): the inventory of one, the request of the other, and the page
-- that answers it.
use mathlib.Core.Path.{subst}
use mathlib.Core.List.{append-nil}
use aether_sedc.Prelude.{
  ℕ, ◌≤◌, ◌≡◌, refl, sym, ap, ◌∙◌, true, false, List, [], ◌∷◌, ◌++◌, some, arith, not, length,
  member, retain, Has,
}
use aether_sedc.Dict.{lookup, contains_key}
use aether_sedc.Transaction.{Transaction, take}
use aether_sedc.P2p.{
  Codec, P2PNetwork, P2PMessage, get_data, sync_request, sync_response, View, get_dag_hashes,
  page_size, found_bytes, unless_empty, page, unseen, sort_by_time, send_all, handle,
}
use aether_sedc.P2p.Pages.{
  take_whole, length-take, member-keys, Has-keys, Has-retain, Has-found_bytes, length-found_bytes,
  Has-unseen, length-unseen, send_all-sent, Has-sort_by_time, length-sort_by_time, Has-appended,
}

-- The messages one after the other, and all replies.
abbrev pub answer_all :
    Codec → View → ℕ → List P2PMessage → P2PNetwork → P2PNetwork × List P2PMessage
answer_all c v now [] n = (n, [])
answer_all c v now (m ∷ ms) n =
    let (n', replies, _) = handle c v now m n in
    let (n'', rest) = answer_all c v now ms n' in (n'', replies ++ rest)

-- The hashes of an inventory that a node asks for.
abbrev pub wanted : View → View → List ℕ
wanted ours theirs = retain (λ h. not (member h (get_dag_hashes ours))) (get_dag_hashes theirs)

module _ (c : Codec) (ours theirs : View) (now : ℕ) (a b : P2PNetwork) where
  -- What becomes of `a` when it has asked `b` for its inventory, for what it lacks of it, and has
  -- taken the answer.
  abbrev pub exchange : P2PNetwork
  exchange =
      let (b1, listed) = answer_all c theirs now (sync_request ∷ []) b in
      let (a1, asked) = answer_all c ours now listed a in
      let (b2, pages) = answer_all c theirs now asked b1 in (answer_all c ours now pages a1).0

  abbrev offered : List ℕ
  offered = found_bytes c theirs (take page_size (wanted ours theirs))

  answer_asked :
      (hashes : List ℕ)
      → answer_all c theirs now (unless_empty get_data hashes ++ []) b ≡ (b, page c theirs hashes)
  unfolding handle page
  answer_asked [] = refl
  answer_asked (h ∷ hashes) = rw (append-nil (page c theirs (h ∷ hashes)), page) refl

  answer_page :
      (bytes : List ℕ)
      → (answer_all c ours now (unless_empty sync_response bytes) a).0
        ≡ send_all c now (sort_by_time (unseen c a bytes)) a
  unfolding handle
  answer_page [] = refl
  answer_page (x ∷ bytes) = refl

  exchange_sends : exchange ≡ send_all c now (sort_by_time (unseen c a offered)) a
  unfolding handle page
  exchange_sends =
      ap (λ (r : P2PNetwork × List P2PMessage). (answer_all c ours now r.1 a).0)
        (answer_asked (wanted ours theirs))
      ∙ answer_page offered

module _ (c : Codec) (ours theirs : View) (now : ℕ) (a b : P2PNetwork) where
  -- An exchange brings a transaction over: if it is read back as it was written, both graphs can be read, the other node has the
  -- transaction under the hash, this one has none under it, has not seen its bytes, and lacks at
  -- most a page of what the other one lists, then the transaction has been sent to the node.
  pub exchange_delivers :
      (id : ℕ) (tx : Transaction)
      → c.deserialize (c.serialize tx) ≡ some tx
      → ours.readable ≡ true
      → theirs.readable ≡ true
      → lookup id theirs.dag.transactions ≡ some tx
      → contains_key id ours.dag.transactions ≡ false
      → contains_key (c.serialize tx) a.seen_transactions ≡ false
      → length (wanted ours theirs) ≤ page_size
      → Has tx (exchange c ours theirs now a b).sent
  exchange_delivers id tx reads_back ro rt there absent new fits =
      let listed = Has-keys id tx theirs.dag.transactions there in
      let lacked : not (member id (get_dag_hashes ours)) ≡ true =
        ground (arith, ro, absent, member-keys id ours.dag.transactions) in
      let listed' : Has id (get_dag_hashes theirs) = rw rt listed in
      let asked =
        Has-retain (λ h. not (member h (get_dag_hashes ours))) id (get_dag_hashes theirs) lacked
          listed' in
      let on_page = subst (Has id) (sym (take_whole page_size (wanted ours theirs) fits)) asked in
      let found =
        Has-found_bytes c theirs id tx (take page_size (wanted ours theirs)) rt there on_page in
      let arrived = Has-unseen c ours a tx (offered c ours theirs now a b) reads_back new found in
      let txs = sort_by_time (unseen c a (offered c ours theirs now a b)) in
      subst (Has tx)
        (sym (
          ap (λ (n : P2PNetwork). n.sent) (exchange_sends c ours theirs now a b)
          ∙ send_all-sent c ours now txs a))
        (Has-appended a.sent txs tx
          (Has-sort_by_time tx (unseen c a (offered c ours theirs now a b)) arrived))

  -- An exchange sends a page of transactions to the node at most, however many it lacks, and all
  -- that it had been sent before stays.
  pub exchange-page_size :
      (txs : List Transaction) × ((exchange c ours theirs now a b).sent ≡ a.sent ++ txs)
      × (length txs ≤ page_size)
  exchange-page_size =
      let bytes = offered c ours theirs now a b in
      let txs = sort_by_time (unseen c a bytes) in
      (
        txs,
        ap (λ (n : P2PNetwork). n.sent) (exchange_sends c ours theirs now a b)
            ∙ send_all-sent c ours now txs a,
        omega (
          arith,
          length-sort_by_time (unseen c a bytes),
          length-unseen c ours a bytes,
          length-found_bytes c theirs (take page_size (wanted ours theirs)),
          length-take page_size (wanted ours theirs),
        ),
      )
