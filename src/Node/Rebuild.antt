-- ===== src/Node/Rebuild.antt =====
-- The graph that a start of the node rebuilds (src/node.rs).
use aether_sedc.Prelude.{
  ℕ, zero, suc, ◌+◌, ◌≤◌, ◌<◌, ◌≡◌, refl, sym, ap, ◌∙◌, ◌≢◌, inl, inr, true, false, List, [], ◌∷◌,
  ◌++◌, arith, length, All, Bool-cases,
}
use aether_sedc.Transaction.{Transaction}
use aether_sedc.Dag.{Dag, new, add_transaction_validated}
use aether_sedc.Dag.Shape.{IsWellFormed}
use aether_sedc.Dag.Remove.{grow, grown-IsWellFormed}
use aether_sedc.Node.{is_ready, rebuild_pass, rebuild_loop}

-- A pass with no progress leaves everything as it was, and nothing of it ready.
idle_pass :
    (d : Dag) (txs : List Transaction)
    → (rebuild_pass d txs).progress ≡ false
    → ((rebuild_pass d txs).dag ≡ d)
      × ((rebuild_pass d txs).pending ≡ txs)
      × All (λ tx. is_ready d tx ≡ false) txs
unfolding rebuild_pass
idle_pass d [] h = (refl, refl, tt)
idle_pass d (tx ∷ txs) h = elim (Bool-cases (is_ready d tx)) [
  | inl r ↦ absurd (ground arith)
  | inr r ↦
      let rest = idle_pass d txs (ground arith) in
      (ground (arith, rest.0), ground (arith, rest.1), (r, rest.2))
]

-- A pass with progress leaves less.
length-pending :
    (d : Dag) (txs : List Transaction)
    → (length (rebuild_pass d txs).pending ≤ length txs)
      × ((rebuild_pass d txs).progress ≡ true → length (rebuild_pass d txs).pending < length txs)
unfolding rebuild_pass
length-pending d [] = (omega arith, λ h. absurd (ground arith))
length-pending d (tx ∷ txs) = elim (Bool-cases (is_ready d tx)) [
  | inl r ↦
      let rest = length-pending (add_transaction_validated d tx).1 txs in
      (ground (arith, rest.0), λ h. ground (arith, rest.0))
  | inr r ↦ let rest = length-pending d txs in (ground (arith, rest.0), λ h. ground (arith, rest.1))
]

pub rebuild_loop-settles :
    (rounds : ℕ) (d : Dag) (txs : List Transaction)
    → length txs < rounds
    → let (d', left) = rebuild_loop rounds d txs in All (λ tx. is_ready d' tx ≡ false) left
unfolding rebuild_loop
rebuild_loop-settles zero d txs lt = absurd (omega arith)
rebuild_loop-settles (suc rounds) d txs lt =
    let pass = rebuild_pass d txs in
    elim (Bool-cases pass.progress) [
      | inl more ↦
          let less = (length-pending d txs).1 more in
          rw more (rebuild_loop-settles rounds pass.dag pass.pending (omega arith))
      | inr done ↦ let (e, e', idle) = idle_pass d txs done in rw (done, e, e') idle
    ]

All-append :
    (P : Transaction → Type 0) (xs ys : List Transaction) → All P xs → All P ys → All P (xs ++ ys)
All-append P [] ys p q = q
All-append P (x ∷ xs) ys p q = (p.0, All-append P xs ys p.1 q)

grow-append : (d : Dag) (xs ys : List Transaction) → grow d (xs ++ ys) ≡ grow (grow d xs) ys
unfolding grow
grow-append d [] ys = refl
grow-append d (x ∷ xs) ys = grow-append (add_transaction_validated d x).1 xs ys

-- What a pass and the loop leave is grown from the graph by additions of what they were given.
rebuild_pass-grow :
    (P : Transaction → Type 0) (d : Dag) (txs : List Transaction)
    → All P txs
    → ((added : List Transaction) × ((rebuild_pass d txs).dag ≡ grow d added) × All P added)
      × All P (rebuild_pass d txs).pending
unfolding rebuild_pass grow
rebuild_pass-grow P d [] h = (([], refl, tt), tt)
rebuild_pass-grow P d (tx ∷ txs) (p, h) = elim (Bool-cases (is_ready d tx)) [
  | inl r ↦
      let ((added, e, q), left) = rebuild_pass-grow P (add_transaction_validated d tx).1 txs h in
      rw r ((tx ∷ added, e, (p, q)), left)
  | inr r ↦
      let ((added, e, q), left) = rebuild_pass-grow P d txs h in rw r ((added, e, q), (p, left))
]

rebuild_loop-grow :
    (P : Transaction → Type 0) (rounds : ℕ) (d : Dag) (txs : List Transaction)
    → All P txs
    → (added : List Transaction) × ((rebuild_loop rounds d txs).0 ≡ grow d added) × All P added
unfolding rebuild_loop grow
rebuild_loop-grow P zero d txs h = ([], refl, tt)
rebuild_loop-grow P (suc rounds) d txs h =
    let pass = rebuild_pass d txs in
    let ((added, e, q), left) = rebuild_pass-grow P d txs h in
    elim (Bool-cases pass.progress) [
      | inl more ↦
          let (later, e', q') = rebuild_loop-grow P rounds pass.dag pass.pending left in
          rw more (
            added ++ later,
            e' ∙ (ap (λ (x : Dag). grow x later) e ∙ sym (grow-append d added later)),
            All-append P added later q q',
          )
      | inr done ↦ rw done (added, e, q)
    ]

-- More rounds than there are transactions change nothing.
rebuild_loop-enough :
    (rounds more : ℕ) (d : Dag) (txs : List Transaction)
    → length txs < rounds
    → rebuild_loop (rounds + more) d txs ≡ rebuild_loop rounds d txs
unfolding rebuild_loop
rebuild_loop-enough zero more d txs lt = absurd (omega arith)
rebuild_loop-enough (suc rounds) more d txs lt =
    let pass = rebuild_pass d txs in
    let e : suc rounds + more ≡ suc (rounds + more) = omega arith in
    elim (Bool-cases pass.progress) [
      | inl again ↦
          let less = (length-pending d txs).1 again in
          rw (e, again) (rebuild_loop-enough rounds more pass.dag pass.pending (omega arith))
      | inr done ↦ rw (e, done) refl
    ]

-- Rebuilding ends: from any list of transactions, none of them the genesis, given one round for
-- each and one more, the graph is well formed and every transaction that is left over lacks a
-- parent in it; further rounds would change nothing.
pub rebuild_loop-ends :
    (txs : List Transaction) (more : ℕ)
    → All (λ tx. tx.id ≢ 0) txs
    → let (d, left) = rebuild_loop (suc (length txs)) new txs in
      IsWellFormed d
      × All (λ tx. is_ready d tx ≡ false) left
      × (rebuild_loop (suc (length txs) + more) new txs ≡ (d, left))
rebuild_loop-ends txs more nz =
    let (added, e, q) = rebuild_loop-grow (λ tx. tx.id ≢ 0) (suc (length txs)) new txs nz in
    (
      rw e ((grown-IsWellFormed added q).0),
      rebuild_loop-settles (suc (length txs)) new txs (omega arith),
      rebuild_loop-enough (suc (length txs)) more new txs (omega arith),
    )
