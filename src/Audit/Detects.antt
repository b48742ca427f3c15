-- ===== src/Audit/Detects.antt =====
-- Which double spends src/security_audit.rs reports.
use mathlib.Core.Path.{subst}
use aether_sedc.Prelude.{
  ℕ, ◌≡◌, refl, sym, ◌⊎◌, ◌↔◌, inl, inr, true, false, List, [], ◌∷◌, ◌++◌, arith, ltb, length, Has,
  Bool-cases,
}
use aether_sedc.Dict.{Dict}
use aether_sedc.Transaction.{Transaction}
use aether_sedc.Audit.{
  SecurityAuditor, DoubleSpendAttempt, conflicts, attempt, attempts_with, attempts_among,
  attempts_in, detect_double_spends,
}

-- One transaction stands before another.
abbrev pub Before : Transaction → Transaction → List Transaction → Type 0
Before t u [] = ⊥
Before t u (x ∷ txs) = ((x ≡ t) × Has u txs) ⊎ Before t u txs

-- A list of a tree of pending transactions.
abbrev pub HasPending : (List Transaction → Type 0) → Dict (List Transaction) → Type 0
HasPending P [] = ⊥
HasPending P ((sender, txs) ∷ d) = P txs ⊎ HasPending P d

Has-append : {A : Type 0} (x : A) (xs ys : List A) → Has x (xs ++ ys) ↔ (Has x xs ⊎ Has x ys)
Has-append x [] ys = (λ h. inr h, λ h. elim h [ inl m ↦ elim m [ ] | inr m ↦ m ])
Has-append x (y ∷ xs) ys =
    let ih = Has-append x xs ys in
    (
      λ h. elim h [
        | inl e ↦ inl (inl e)
        | inr m ↦ elim (ih.0 m) [ inl p ↦ inl (inr p) | inr q ↦ inr q ]
      ],
      λ h. elim h [
        | inl (inl e) ↦ inl e
        | inl (inr p) ↦ inr (ih.1 (inl p))
        | inr q ↦ inr (ih.1 (inr q))
      ],
    )

with_sound :
    (now : ℕ) (t : Transaction) (a : DoubleSpendAttempt) (txs : List Transaction)
    → Has a (attempts_with now t txs)
    → (u : Transaction) × Has u txs × (conflicts t u ≡ true) × (a ≡ attempt now t u)
with_sound now t a [] h = elim h [ ]
with_sound now t a (u ∷ txs) h = elim (Bool-cases (conflicts t u)) [
  | inr no_conflict ↦
      let same : attempts_with now t (u ∷ txs) ≡ attempts_with now t txs = ground arith in
      let (v, m, c, e) = with_sound now t a txs (subst (Has a) same h) in (v, inr m, c, e)
  | inl conflict ↦
      let same : attempts_with now t (u ∷ txs) ≡ attempt now t u ∷ attempts_with now t txs =
        ground arith in
      let h' : Has a (attempt now t u ∷ attempts_with now t txs) = subst (Has a) same h in
      elim h' [
        | inl e ↦ (u, inl refl, conflict, sym e)
        | inr m ↦ let (v, m', c, e) = with_sound now t a txs m in (v, inr m', c, e)
      ]
]

with_complete :
    (now : ℕ) (t u : Transaction) (txs : List Transaction)
    → Has u txs
    → conflicts t u ≡ true
    → Has (attempt now t u) (attempts_with now t txs)
with_complete now t u [] m c = elim m [ ]
with_complete now t u (v ∷ txs) m c = elim (Bool-cases (conflicts t v)) [
  | inl there ↦
      rw there (elim m [ inl e ↦ inl (rw e refl) | inr m' ↦ inr (with_complete now t u txs m' c) ])
  | inr absent ↦
      rw absent (elim m [ inl e ↦ absurd (ground arith) | inr m' ↦ with_complete now t u txs m' c ])
]

-- A pair of a list that conflicts, and its report.
abbrev pub Reports : ℕ → DoubleSpendAttempt → List Transaction → Type 0
Reports now a txs =
    (t : Transaction) × (u : Transaction) × Before t u txs
    × (conflicts t u ≡ true)
    × (a ≡ attempt now t u)

among_sound :
    (now : ℕ) (a : DoubleSpendAttempt) (txs : List Transaction)
    → Has a (attempts_among now txs)
    → Reports now a txs
among_sound now a [] h = elim h [ ]
among_sound now a (t ∷ txs) h =
    elim ((Has-append a (attempts_with now t txs) (attempts_among now txs)).0 h) [
      | inl m ↦ let (u, later, c, e) = with_sound now t a txs m in (t, u, inl (refl, later), c, e)
      | inr m ↦ let (v, u, before, c, e) = among_sound now a txs m in (v, u, inr before, c, e)
    ]

among_complete :
    (now : ℕ) (t u : Transaction) (txs : List Transaction)
    → Before t u txs
    → conflicts t u ≡ true
    → Has (attempt now t u) (attempts_among now txs)
among_complete now t u [] b c = elim b [ ]
among_complete now t u (x ∷ txs) (inl (e, later)) c =
    (Has-append (attempt now t u) (attempts_with now x txs) (attempts_among now txs)).1
      (inl (rw e (with_complete now t u txs later c)))
among_complete now t u (x ∷ txs) (inr before) c =
    (Has-append (attempt now t u) (attempts_with now x txs) (attempts_among now txs)).1
      (inr (among_complete now t u txs before c))

-- A list with a pair has two elements at least.
Before-length :
    (t u : Transaction) (txs : List Transaction) → Before t u txs → ltb (length txs) 2 ≡ false
Before-length t u [] b = elim b [ ]
Before-length t u (x ∷ []) (inl (e, m)) = elim m [ ]
Before-length t u (x ∷ []) (inr m) = elim m [ ]
Before-length t u (x ∷ y ∷ txs) b = ground arith

in_sound :
    (now : ℕ) (a : DoubleSpendAttempt) (d : Dict (List Transaction))
    → Has a (attempts_in now d)
    → HasPending (Reports now a) d
in_sound now a [] h = elim h [ ]
in_sound now a ((sender, txs) ∷ d) h = elim (Bool-cases (ltb (length txs) 2)) [
  | inl short ↦
      let same : attempts_in now ((sender, txs) ∷ d) ≡ attempts_in now d = ground arith in
      inr (in_sound now a d (subst (Has a) same h))
  | inr long ↦
      let same : attempts_in now ((sender, txs) ∷ d) ≡ attempts_among now txs ++ attempts_in now d =
        ground arith in
      elim ((Has-append a (attempts_among now txs) (attempts_in now d)).0 (subst (Has a) same h)) [
        | inl m ↦ inl (among_sound now a txs m)
        | inr m ↦ inr (in_sound now a d m)
      ]
]

in_complete :
    (now : ℕ) (a : DoubleSpendAttempt) (d : Dict (List Transaction))
    → HasPending (Reports now a) d
    → Has a (attempts_in now d)
in_complete now a [] h = elim h [ ]
in_complete now a ((sender, txs) ∷ d) (inl (t, u, before, c, e)) =
    let long = Before-length t u txs before in
    rw (long, e)
      ((Has-append (attempt now t u) (attempts_among now txs) (attempts_in now d)).1
        (inl (among_complete now t u txs before c)))
in_complete now a ((sender, txs) ∷ d) (inr h) =
    let rest = in_complete now a d h in
    elim (Bool-cases (ltb (length txs) 2)) [
      | inl short ↦ rw short rest
      | inr long ↦
          rw long ((Has-append a (attempts_among now txs) (attempts_in now d)).1 (inr rest))
    ]

-- The reports are exactly the pairs of transactions pending under one sender's name, in the order
-- of their arrival, of the same sender and with different receivers.
pub detect_double_spends_iff :
    (now : ℕ) (auditor : SecurityAuditor) (a : DoubleSpendAttempt)
    → Has a (detect_double_spends now auditor) ↔ HasPending (Reports now a) auditor.pending_txs
unfolding detect_double_spends
detect_double_spends_iff now auditor a =
    (in_sound now a auditor.pending_txs, in_complete now a auditor.pending_txs)
