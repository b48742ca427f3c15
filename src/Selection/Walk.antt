-- ===== src/Selection/Walk.antt =====
-- The random walk of src/parent_selection.rs: where it ends, and that it does.
use aether_sedc.Prelude.{
  ℕ, zero, suc, ◌+◌, ◌-◌, ◌<◌, ◌≡◌, refl, ◌⊎◌, inl, inr, true, List, [], ◌∷◌, arith, some, leb, ltb,
  length, All, Has, Bool-cases, Option-cases, List-cases, All-mono,
}
use aether_sedc.Dict.{contains_key, lookup-insert}
use aether_sedc.Consensus.{IdSet}
use aether_sedc.Dag.{Dag, children_of}
use aether_sedc.Weight.{CumulativeWeightCache, get, set, calculate_cumulative_weight}
use aether_sedc.Weight.Counts.{unpushed, here, calculate_cumulative_weight-Covers}
use aether_sedc.Selection.{
  ParentSelectionAlgorithm, weigh_children, insert_by_weight, sort_by_weight, total_weight, pick,
  walk_from, random_walk,
}

-- No weight in the cache is zero.
abbrev pub IsPositive : CumulativeWeightCache → Type 0
IsPositive cache = (id weight : ℕ) → get cache id ≡ some weight → 0 < weight

-- `gen_range` answers below its bound.
abbrev pub IsInRange : (ℕ → ℕ → ℕ) → Type 0
IsInRange draw = (step total : ℕ) → 0 < total → draw step total < total

-- Rounds for the weight of any transaction.
abbrev pub IsEnough : ℕ → Dag → Type 0
IsEnough fuel d = unpushed [] d.children + 1 < fuel

-- `to` is so many children down from `from`.
abbrev pub Trail : Dag → ℕ → ℕ → ℕ → Type 0
Trail d from zero to = from ≡ to
Trail d from (suc steps) to = (c : ℕ) × Has c (children_of d from) × Trail d c steps to

occupied : (id : ℕ) (seen : IdSet) → contains_key id seen ≡ true → 0 < length seen
occupied id [] h = absurd (ground arith)
occupied id (e ∷ seen) h = omega arith

module _ (fuel : ℕ) (d : Dag) (enough : IsEnough fuel d) where
  weight_lem :
      (cache : CumulativeWeightCache) (id : ℕ)
      → IsPositive cache
      → (weight : ℕ) × (cache' : CumulativeWeightCache) × (calculate_cumulative_weight fuel cache id
            d
          ≡ some (weight, cache'))
        × (0 < weight)
        × IsPositive cache'
  unfolding calculate_cumulative_weight get set
  weight_lem cache id positive = elim (Option-cases (get cache id)) [
    | inr (weight, e) ↦ (weight, cache, ground arith, positive id weight e, positive)
    | inl e ↦
        let (seen, (keys, covers), found, _) =
          calculate_cumulative_weight-Covers fuel cache id d e enough in
        let nonempty = occupied id seen ((covers id).1 here) in
        (
          length seen,
          set cache id (length seen),
          found,
          nonempty,
          λ j weight e'.
              ground (arith, nonempty, lookup-insert j id (length seen) cache, positive j weight),
        )
  ]

  weigh_children_lem :
      (cache : CumulativeWeightCache) (children : List ℕ)
      → IsPositive cache
      → (weighted : List (ℕ × ℕ)) × (cache' : CumulativeWeightCache) × (weigh_children fuel d cache
            children
          ≡ some (weighted, cache'))
        × All (λ e. Has e.0 children × (0 < e.1)) weighted
        × (length weighted ≡ length children)
        × IsPositive cache'
  unfolding weigh_children
  weigh_children_lem cache [] positive = ([], cache, refl, tt, refl, positive)
  weigh_children_lem cache (child ∷ children) positive =
      let (weight, cache', found, above, positive') = weight_lem cache child positive in
      let (weighted, cache'', rest, all, long, positive'') =
        weigh_children_lem cache' children positive' in
      (
        (child, weight) ∷ weighted,
        cache'',
        ground arith,
        (
          (inl refl, above),
          All-mono (λ e. Has e.0 children × (0 < e.1)) _ weighted (λ e h. (inr h.0, h.1)) all,
        ),
        omega (arith, long),
        positive'',
      )

All-insert :
    (P : ℕ × ℕ → Type 0) (e : ℕ × ℕ) (es : List (ℕ × ℕ))
    → P e
    → All P es
    → All P (insert_by_weight e es)
All-insert P e [] p h = (p, tt)
All-insert P e (f ∷ es) p h = elim (Bool-cases (leb f.1 e.1)) [
  | inl c ↦ rw c (p, h)
  | inr c ↦ rw c (h.0, All-insert P e es p h.1)
]

All-sort : (P : ℕ × ℕ → Type 0) (es : List (ℕ × ℕ)) → All P es → All P (sort_by_weight es)
All-sort P [] h = tt
All-sort P (e ∷ es) h = All-insert P e (sort_by_weight es) h.0 (All-sort P es h.1)

total_weight-insert :
    (e : ℕ × ℕ) (es : List (ℕ × ℕ)) → total_weight (insert_by_weight e es) ≡ e.1 + total_weight es
total_weight-insert e [] = refl
total_weight-insert e (f ∷ es) = ground (arith, total_weight-insert e es)

total_weight-sort : (es : List (ℕ × ℕ)) → total_weight (sort_by_weight es) ≡ total_weight es
total_weight-sort [] = refl
total_weight-sort (e ∷ es) =
    ground (arith, total_weight-sort es, total_weight-insert e (sort_by_weight es))

-- A draw below the sum falls into the share of an entry.
pick-All :
    (P : ℕ → Type 0) (current draw : ℕ) (es : List (ℕ × ℕ))
    → All (λ e. P e.0) es
    → draw < total_weight es
    → P (pick current draw es)
pick-All P current draw [] h lt = absurd (omega arith)
pick-All P current draw ((c, weight) ∷ es) h lt = elim (Bool-cases (ltb draw weight)) [
  | inl inside ↦ rw inside h.0
  | inr outside ↦ rw outside (pick-All P current (draw - weight) es h.1 (ground arith))
]

total_weight-positive : (e : ℕ × ℕ) (es : List (ℕ × ℕ)) → 0 < e.1 → 0 < total_weight (e ∷ es)
total_weight-positive e es h = omega arith

module _ (fuel : ℕ) (d : Dag) (enough : IsEnough fuel d) (draw : ℕ → ℕ → ℕ)
    (in_range : IsInRange draw) where
  step_lem :
      (left current c : ℕ) (cs : List ℕ) (weighted : List (ℕ × ℕ))
      → All (λ e. Has e.0 (c ∷ cs) × (0 < e.1)) weighted
      → length weighted ≡ length (c ∷ cs)
      → let sorted = sort_by_weight weighted in
        Has (pick current (draw left (total_weight sorted)) sorted) (c ∷ cs)
  step_lem left current c cs [] all long = absurd (omega (arith, long))
  step_lem left current c cs (e ∷ weighted) all long =
      let sorted = sort_by_weight (e ∷ weighted) in
      pick-All (λ id. Has id (c ∷ cs)) current (draw left (total_weight sorted)) sorted
        (All-mono (λ f. Has f.0 (c ∷ cs) × (0 < f.1)) (λ f. Has f.0 (c ∷ cs)) sorted (λ f h. h.0)
          (All-sort (λ f. Has f.0 (c ∷ cs) × (0 < f.1)) (e ∷ weighted) all))
        (in_range left (total_weight sorted) (
          omega
            (arith, total_weight-sort (e ∷ weighted), total_weight-positive e weighted all.0.1)))

  -- A walk ends after its steps, or early where nothing refers to where it stands.
  walk_from-Trail :
      (steps current : ℕ) (cache : CumulativeWeightCache)
      → IsPositive cache
      → (id : ℕ) × (cache' : CumulativeWeightCache) × (taken : ℕ) × (walk_from steps fuel draw d
            current cache
          ≡ some (id, cache'))
        × IsPositive cache'
        × Trail d current taken id
        × ((taken ≡ steps) ⊎ ((taken < steps) × (children_of d id ≡ [])))
  unfolding walk_from
  walk_from-Trail zero current cache positive = (current, cache, 0, refl, positive, refl, inl refl)
  walk_from-Trail (suc steps) current cache positive = elim (List-cases (children_of d current)) [
    | inl e ↦ (current, cache, 0, ground arith, positive, refl, inr (omega arith, e))
    | inr (c, cs, e) ↦
        let (weighted, cache', found, all, long, positive') =
          weigh_children_lem fuel d enough cache (c ∷ cs) positive in
        let sorted = sort_by_weight weighted in
        let next = pick current (draw steps (total_weight sorted)) sorted in
        let (id, cache'', taken, ended, positive'', trail, why) =
          walk_from-Trail steps next cache' positive' in
        (
          id,
          cache'',
          suc taken,
          ground arith,
          positive'',
          (next, rw e (step_lem steps current c cs weighted all long), trail),
          elim why [
            | inl same ↦ inl (omega (arith, same))
            | inr (less, tip) ↦ inr (omega (arith, less), tip)
          ],
        )
  ]

  -- A random walk ends, given enough rounds for the weights, draws within their range, and no zero
  -- among the cached weights, which it keeps so. It ends the depth of the walk below the genesis,
  -- each step to a child of the last, or at a lesser depth where there are no children: after the
  -- whole depth it may stand on a transaction that is no tip.
  pub random_walk-Trail :
      (a : ParentSelectionAlgorithm)
      → IsPositive a.weight_cache
      → (id : ℕ) × (cache' : CumulativeWeightCache) × (taken : ℕ) × (random_walk fuel a draw d
          ≡ some (id, cache'))
        × IsPositive cache'
        × Trail d 0 taken id
        × ((taken ≡ a.walk_depth) ⊎ ((taken < a.walk_depth) × (children_of d id ≡ [])))
  unfolding random_walk
  random_walk-Trail a positive = walk_from-Trail a.walk_depth 0 a.weight_cache positive
