-- ===== src/Node/Restart.antt =====
-- A start of the node (src/node.rs) brings back the graph whose transactions the database holds.
use aether_sedc.Prelude.{
  ℕ, zero, suc, ◌<◌, ◌≡◌, refl, sym, ◌∙◌, ◌≢◌, ◌⊎◌, inl, inr, true, false, List, [], ◌∷◌, some,
  arith, length, All, Has, Option-cases,
}
use aether_sedc.Dict.{lookup, lookup-contains_key, lookup-none-contains_key}
use aether_sedc.Transaction.{Transaction}
use aether_sedc.Dag.{Dag, new, rebuild_tips}
use aether_sedc.Dag.Shape.{IsKnown, IsWellFormed}
use aether_sedc.Dag.Add.{new-IsWellFormed}
use aether_sedc.Dag.Remove.{grow, grown-IsWellFormed}
use aether_sedc.Dag.Parents.{ParentsDistinct, grow-IsSound}
use aether_sedc.Dag.Acyclic.{IsRanked, grow-HasRank}
use aether_sedc.Node.{has_parent, is_ready, rebuild_loop, rebuild}
use aether_sedc.Node.Rebuild.{rebuild_loop-settles}
use aether_sedc.Node.Restores.{Restores, rebuild_loop-Restores}

All-Has :
    (P : Transaction → Type 0) (tx : Transaction) (txs : List Transaction)
    → All P txs
    → Has tx txs
    → P tx
All-Has P tx [] h m = elim m [ ]
All-Has P tx (t ∷ txs) h (inl e) = rw (← e) (h.0)
All-Has P tx (t ∷ txs) h (inr m) = All-Has P tx txs h.1 m

empty_or_Has : (txs : List Transaction) → (txs ≡ []) ⊎ ((tx : Transaction) × Has tx txs)
empty_or_Has [] = inl refl
empty_or_Has (tx ∷ txs) = inr (tx, inl refl)

module _ (d0 : Dag) (wf : IsWellFormed d0) (distinct : ParentsDistinct d0) (rank : ℕ → ℕ)
    (ranked : IsRanked d0 rank) (d : Dag) (left : List Transaction)
    (h : Restores d0 wf distinct (λ tx. ⊥) d left)
    (idle : All (λ tx. is_ready d tx ≡ false) left) where
  -- A known parent of lower rank is there, if all stored transactions of lower rank are.
  parent_held :
      (n p : ℕ)
      → ((k : ℕ) (tx : Transaction)
          → rank k < n
          → lookup k d0.transactions ≡ some tx
          → lookup k d.transactions ≡ some tx)
      → rank p < n
      → IsKnown d0 p
      → has_parent d p ≡ true
  parent_held n p ih below known = elim (Option-cases (lookup p d0.transactions)) [
    | inl e ↦ ground (arith, known, lookup-none-contains_key p d0.transactions e)
    | inr (u, e) ↦ ground (arith, lookup-contains_key p u d.transactions (ih p u below e))
  ]

  held :
      (n k : ℕ) (tx : Transaction)
      → rank k < n
      → lookup k d0.transactions ≡ some tx
      → lookup k d.transactions ≡ some tx
  held zero k tx below e = absurd (omega arith)
  held (suc n) k tx below e = elim (h.cover k tx e) [
    | inl there ↦ there
    | inr (inr none_left) ↦ absurd none_left
    | inr (inl m) ↦
        let waits = All-Has (λ t. is_ready d t ≡ false) tx left idle m in
        let (known0, known1) = wf.closed k tx e in
        let (less0, less1) = ranked k tx e in
        let p0 = parent_held n tx.parents.0 (held n) (omega arith) known0 in
        let p1 = parent_held n tx.parents.1 (held n) (omega arith) known1 in absurd (ground arith)
  ]

  nothing_left : left ≡ []
  nothing_left = elim (empty_or_Has left) [
    | inl e ↦ e
    | inr (tx, m) ↦
        let waits = All-Has (λ t. is_ready d t ≡ false) tx left idle m in
        let e = h.own tx m in
        let (known0, known1) = wf.closed tx.id tx e in
        let p0 =
          parent_held (suc (rank tx.parents.0)) tx.parents.0 (held (suc (rank tx.parents.0)))
            (omega arith) known0 in
        let p1 =
          parent_held (suc (rank tx.parents.1)) tx.parents.1 (held (suc (rank tx.parents.1)))
            (omega arith) known1 in
        absurd (ground arith)
  ]

  same : (k : ℕ) → lookup k d.transactions ≡ lookup k d0.transactions
  same k = elim (Option-cases (lookup k d0.transactions)) [
    | inr (tx, e) ↦ held (suc (rank k)) k tx (omega arith) e ∙ sym e
    | inl e ↦ elim (Option-cases (lookup k d.transactions)) [
      | inl e' ↦ e' ∙ sym e
      | inr (u, e') ↦ absurd (ground (arith, h.sub k u e'))
    ]
  ]

-- From the transactions of a graph that additions have filled from empty, none of them the genesis,
-- a start rebuilds a graph that holds exactly them, and leaves no orphan, in whatever order and
-- however often the database lists them.
pub rebuild-grown :
    (order txs : List Transaction)
    → All (λ tx. tx.id ≢ 0) order
    → ((tx : Transaction) → Has tx txs → lookup tx.id (grow new order).transactions ≡ some tx)
    → ((k : ℕ) (tx : Transaction) → lookup k (grow new order).transactions ≡ some tx → Has tx txs)
    → let (d, orphans) = rebuild txs in
      ((k : ℕ) → lookup k d.transactions ≡ lookup k (grow new order).transactions) × (orphans ≡ [])
unfolding rebuild rebuild_tips new
rebuild-grown order txs nz stored complete =
    let d0 = grow new order in
    let wf = (grown-IsWellFormed order nz).0 in
    let sound = grow-IsSound new order ((λ j k t u e. absurd (ground arith)), tt) in
    let (rank, ranked) =
      grow-HasRank new order nz new-IsWellFormed ((λ x. 0), λ j t e. absurd (ground arith)) in
    let rounds = suc (length txs) in
    let (d, left) = rebuild_loop rounds new txs in
    let restores =
      rebuild_loop-Restores d0 wf sound.0 rounds (λ tx. ⊥) new txs
        (record {
          sub = λ k tx e. absurd (ground arith);
          own = stored;
          cover = λ k tx e. inr (inl (complete k tx e));
          keys = tt;
        }) in
    let idle = rebuild_loop-settles rounds new txs (omega arith) in
    (
      same d0 wf sound.0 rank ranked d left restores idle,
      rw (nothing_left d0 wf sound.0 rank ranked d left restores idle) refl,
    )
