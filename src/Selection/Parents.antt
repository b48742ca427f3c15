-- ===== src/Selection/Parents.antt =====
-- The parents that src/parent_selection.rs selects.
use mathlib.Core.Path.{subst}
use aether_sedc.Prelude.{
  ℕ, zero, suc, ◌≡◌, ◌≢◌, refl, sym, ◌⊎◌, inl, inr, true, false, arith, some, ok, err, ◌==◌, ◌||◌,
  any, Result, Bool-cases,
}
use aether_sedc.Dag.{Dag, has_transaction_with_parents}
use aether_sedc.Dag.Shape.{IsKnown}
use aether_sedc.Dag.Children.{HasChildren}
use aether_sedc.Weight.{CumulativeWeightCache}
use aether_sedc.Selection.{
  ParentSelectionAlgorithm, ParentSelectionError, no_valid_tips, Draws, random_walk,
  check_double_spend_conflict, is_fresh, seek, or_genesis, select_parents,
}
use aether_sedc.Selection.Tips
use aether_sedc.Selection.Tips.{TipSet, get_tips}
use aether_sedc.Selection.Walk.{IsPositive, IsInRange, IsEnough, Trail, random_walk-Trail}

Trail-IsKnown :
    (d : Dag) (from steps to : ℕ)
    → HasChildren d
    → IsKnown d from
    → Trail d from steps to
    → IsKnown d to
Trail-IsKnown d from zero to h known trail = subst (IsKnown d) trail known
Trail-IsKnown d from (suc steps) to h known (c, m, trail) =
    Trail-IsKnown d c steps to h (inr (h from c m)) trail

module _ (parent1 parent2 : ℕ) where
  or_genesis-same : parent2 ≡ parent1 → or_genesis parent1 parent2 ≡ 0
  or_genesis-same e = ground arith

  or_genesis-apart : parent2 ≢ parent1 → or_genesis parent1 parent2 ≡ parent2
  or_genesis-apart ne = ground arith

select_found :
    (fuel : ℕ) (a : ParentSelectionAlgorithm) (draws : Draws) (now : ℕ) (tips : TipSet) (d : Dag)
    (parent1 parent2 : ℕ) (cache cache' : CumulativeWeightCache)
    → Tips.is_empty tips ≡ false
    → any (is_fresh now a.max_tip_age_ms) (get_tips tips) ≡ true
    → random_walk fuel a (draws 0) d ≡ some (parent1, cache)
    → seek 10 fuel (record a { weight_cache = cache }) draws d parent1 ≡ some (parent2, cache')
    → select_parents fuel a draws now tips d
      ≡ some (ok (parent1, or_genesis parent1 parent2), cache')
unfolding select_parents
select_found fuel a draws now tips d parent1 parent2 cache cache' some_tip fresh first second =
    ground arith

module _ (fuel : ℕ) (d : Dag) (enough : IsEnough fuel d) (children : HasChildren d) (draws : Draws)
    (in_range : (walk : ℕ) → IsInRange (draws walk)) where
  -- A parent that is not the first one is known, unused together with the first, and not in
  -- conflict with it.
  abbrev IsSecond : ℕ → ℕ → Type 0
  IsSecond parent1 parent2 =
      IsKnown d parent2
      × (has_transaction_with_parents d (parent1, parent2) ≡ false)
      × (check_double_spend_conflict parent1 parent2 d ≡ false)

  walk-IsKnown :
      (a : ParentSelectionAlgorithm) (walk : ℕ)
      → IsPositive a.weight_cache
      → (id : ℕ) × (cache : CumulativeWeightCache) × (random_walk fuel a (draws walk) d
          ≡ some (id, cache))
        × IsPositive cache
        × IsKnown d id
  walk-IsKnown a walk positive =
      let (id, cache, taken, found, positive', trail, _) =
        random_walk-Trail fuel d enough (draws walk) (in_range walk) a positive in
      (id, cache, found, positive', Trail-IsKnown d 0 taken id children (inl refl) trail)

  seek_lem :
      (attempts : ℕ) (a : ParentSelectionAlgorithm) (parent1 : ℕ)
      → IsPositive a.weight_cache
      → (parent2 : ℕ) × (cache : CumulativeWeightCache) × (seek attempts fuel a draws d parent1
          ≡ some (parent2, cache))
        × IsPositive cache
        × ((parent2 ≡ parent1) ⊎ ((parent2 ≢ parent1) × IsSecond parent1 parent2))
  unfolding seek
  seek_lem zero a parent1 positive = (parent1, a.weight_cache, refl, positive, inl refl)
  seek_lem (suc attempts) a parent1 positive =
      let (candidate, cache, found, positive', known) = walk-IsKnown a (suc attempts) positive in
      let (parent2, cache', rest, positive'', ih) =
        seek_lem attempts (record a { weight_cache = cache }) parent1 positive' in
      elim (Bool-cases (has_transaction_with_parents d (parent1, candidate))) [
        | inl used ↦ (parent2, cache', ground arith, positive'', ih)
        | inr unused ↦
            elim (Bool-cases
              (candidate == parent1 || check_double_spend_conflict parent1 candidate d)) [
                | inl no_good ↦ (parent2, cache', ground arith, positive'', ih)
                | inr good ↦ (
                  candidate,
                  cache,
                  ground arith,
                  positive',
                  inr (ground arith, (known, unused, ground arith)),
                )
              ]
      ]

  -- The parents of a selection, and that it ends. Without tips both are the genesis; if no tip is
  -- fresh, the selection fails; otherwise both parents are stored or the genesis, and the second is
  -- the genesis, or differs from the first, is in no conflict with it, and no transaction has the
  -- two for its parents. The children lists name stored transactions only, the rounds are enough
  -- for the weights, no cached weight is zero, and the draws are within their range.
  pub select_parents-IsKnown :
      (a : ParentSelectionAlgorithm) (now : ℕ) (tips : TipSet)
      → IsPositive a.weight_cache
      → (result : Result ParentSelectionError (ℕ × ℕ)) × (cache : CumulativeWeightCache)
        × (select_parents fuel a draws now tips d ≡ some (result, cache))
        × (((Tips.is_empty tips ≡ true) × (result ≡ ok (0, 0)))
            ⊎ (((Tips.is_empty tips ≡ false)
                  × (any (is_fresh now a.max_tip_age_ms) (get_tips tips) ≡ false)
                  × (result ≡ err no_valid_tips))
                ⊎ ((any (is_fresh now a.max_tip_age_ms) (get_tips tips) ≡ true)
                    × ((parent1 : ℕ) × (parent2 : ℕ) × (result ≡ ok (parent1, parent2))
                        × IsKnown d parent1
                        × ((parent2 ≡ 0) ⊎ ((parent2 ≢ parent1) × IsSecond parent1 parent2))))))
  unfolding select_parents
  select_parents-IsKnown a now tips positive = elim (Bool-cases (Tips.is_empty tips)) [
    | inl e ↦ (ok (0, 0), a.weight_cache, ground arith, inl (e, refl))
    | inr e ↦ elim (Bool-cases (any (is_fresh now a.max_tip_age_ms) (get_tips tips))) [
      | inr stale ↦ (err no_valid_tips, a.weight_cache, ground arith, inr (inl (e, stale, refl)))
      | inl fresh ↦
          let (parent1, cache, found, positive', known) = walk-IsKnown a 0 positive in
          let (parent2, cache', found', _, which) =
            seek_lem 10 (record a { weight_cache = cache }) parent1 positive' in
          (
            ok (parent1, or_genesis parent1 parent2),
            cache',
            select_found fuel a draws now tips d parent1 parent2 cache cache' e fresh found found',
            inr (
                inr (
                  fresh,
                  (
                    parent1,
                    or_genesis parent1 parent2,
                    refl,
                    known,
                    elim which [
                      | inl same ↦ inl (or_genesis-same parent1 parent2 same)
                      | inr (apart, second) ↦ inr (
                          subst (λ p. (p ≢ parent1) × IsSecond parent1 p)
                            (sym (or_genesis-apart parent1 parent2 apart)) (apart, second))
                    ],
                  ),
                )),
          )
    ]
  ]
