-- ===== src/Audit/Confirms.antt =====
-- A confirmed transaction leaves the reports of src/security_audit.rs, and no other.
use mathlib.Core.Path.{subst}
use aether_sedc.Prelude.{
  ℕ, ◌≢◌, ◌↔◌, inl, inr, Bool, not, List, [], ◌∷◌, arith, ◌==◌, Has, retain, Bool-cases,
}
use aether_sedc.Dict.{Dict}
use aether_sedc.Transaction.{Transaction}
use aether_sedc.Audit.{
  SecurityAuditor, DoubleSpendAttempt, retain_all, confirm_transaction, attempt,
  detect_double_spends,
}
use aether_sedc.Audit.Detects.{Before, HasPending, Reports, detect_double_spends_iff}

module _ (id : ℕ) where
  abbrev keep : Transaction → Bool
  keep tx = not (tx.id == id)

  Has-retain :
      (u : Transaction) (txs : List Transaction)
      → Has u (retain keep txs) ↔ (Has u txs × (u.id ≢ id))
  Has-retain u [] = (λ h. elim h [ ], λ h. h.0)
  Has-retain u (x ∷ txs) =
      let ih = Has-retain u txs in
      elim (Bool-cases (keep x)) [
        | inl kept ↦ rw kept (
          λ h. elim h [
            | inl e ↦ (inl e, λ p. ground arith)
            | inr m ↦ (inr ((ih.0 m).0), (ih.0 m).1)
          ],
          λ h. elim (h.0) [ inl e ↦ inl e | inr m ↦ inr (ih.1 (m, h.1)) ],
        )
        | inr gone ↦ rw gone (
          λ h. (inr ((ih.0 h).0), (ih.0 h).1),
          λ h. elim (h.0) [ inl e ↦ absurd (h.1 (ground arith)) | inr m ↦ ih.1 (m, h.1) ],
        )
      ]

  Before-retain :
      (t u : Transaction) (txs : List Transaction)
      → Before t u (retain keep txs) ↔ (Before t u txs × (t.id ≢ id) × (u.id ≢ id))
  Before-retain t u [] = (λ h. elim h [ ], λ h. h.0)
  Before-retain t u (x ∷ txs) =
      let ih = Before-retain t u txs in
      let has = Has-retain u txs in
      elim (Bool-cases (keep x)) [
        | inl kept ↦ rw kept (
          λ h. elim h [
            | inl (e, m) ↦ (inl (e, (has.0 m).0), (λ p. ground arith), (has.0 m).1)
            | inr b ↦ let (b', p, q) = ih.0 b in (inr b', p, q)
          ],
          λ h. elim (h.0) [
            | inl (e, m) ↦ inl (e, has.1 (m, h.2))
            | inr b ↦ inr (ih.1 (b, h.1, h.2))
          ],
        )
        | inr gone ↦ rw gone (
          λ h. let (b', p, q) = ih.0 h in (inr b', p, q),
          λ h. elim (h.0) [ inl (e, m) ↦ absurd (h.1 (ground arith)) | inr b ↦ ih.1 (b, h.1, h.2) ],
        )
      ]

  abbrev Spared : DoubleSpendAttempt → Type 0
  Spared a = (a.tx_ids.0 ≢ id) × (a.tx_ids.1 ≢ id)

  pending-retain :
      (now : ℕ) (a : DoubleSpendAttempt) (d : Dict (List Transaction))
      → HasPending (Reports now a) (retain_all id d) ↔ (HasPending (Reports now a) d × Spared a)
  pending-retain now a [] = (λ h. elim h [ ], λ h. h.0)
  pending-retain now a ((sender, txs) ∷ d) =
      let ih = pending-retain now a d in
      (
        λ h. elim h [
          | inl (t, u, b, c, e) ↦
              let (b', p, q) = (Before-retain t u txs).0 b in (inl (t, u, b', c, e), rw e (p, q))
          | inr m ↦ let (m', p) = ih.0 m in (inr m', p)
        ],
        λ h. elim (h.0) [
          | inl (t, u, b, c, e) ↦
              let spared : Spared (attempt now t u) = subst Spared e h.1 in
              inl (t, u, (Before-retain t u txs).1 (b, spared.0, spared.1), c, e)
          | inr m ↦ inr (ih.1 (m, h.1))
        ],
      )

-- After a transaction is confirmed, the reports are those from before that do not name it.
pub detect_double_spends-confirm_transaction :
    (now id : ℕ) (auditor : SecurityAuditor) (a : DoubleSpendAttempt)
    → Has a (detect_double_spends now (confirm_transaction auditor id))
      ↔ (Has a (detect_double_spends now auditor) × (a.tx_ids.0 ≢ id) × (a.tx_ids.1 ≢ id))
unfolding confirm_transaction
detect_double_spends-confirm_transaction now id auditor a =
    let after = detect_double_spends_iff now (confirm_transaction auditor id) a in
    let before = detect_double_spends_iff now auditor a in
    let kept = pending-retain id now a auditor.pending_txs in
    (
      λ h. let (m, p) = kept.0 (after.0 h) in (before.1 m, p.0, p.1),
      λ h. after.1 (kept.1 (before.0 h.0, (h.1, h.2))),
    )
