-- ===== src/Selection.antt =====
-- The choice of parents in src/parent_selection.rs: `ParentSelectionAlgorithm` over the graph. The
-- clock and the draws of the random generator are arguments, and so is the fuel of the weights;
-- what the walk and the weights sum up stays far below 2 ^ 64. The fields `min_weight` and
-- `diversity_factor`, which nothing reads, are left out.
pub mod Tips
pub mod Walk
pub mod Conflicts
pub mod Parents
use aether_sedc.Prelude.{
  ℕ, zero, suc, ◌+◌, ◌-◌, Bool, true, false, List, [], ◌∷◌, Option, none, some, ltb, leb, ◌==◌,
  ◌&&◌, not, if◌then◌else◌, any, length, Result, ok, err, saturating_sub, retain,
}
use aether_sedc.Dict.{lookup}
use aether_sedc.Consensus.{IdSet}
use aether_sedc.Transaction.{Transaction}
use aether_sedc.Dag.{Dag, children_of, get_transaction, has_transaction_with_parents}
use aether_sedc.Dag.Ancestors.{get_ancestors}
use aether_sedc.Weight.{CumulativeWeightCache, calculate_cumulative_weight}
use aether_sedc.Selection.Tips
use aether_sedc.Selection.Tips.{TipSet, get_tips}

pub record ParentSelectionAlgorithm : Type 0 where
  pub max_tip_age_ms : ℕ
  pub weight_cache : CumulativeWeightCache
  pub walk_depth : ℕ

pub data ParentSelectionError : Type 0 where
  no_valid_tips dag_empty weight_calculation_failed : ParentSelectionError

abbrev pub default : ParentSelectionAlgorithm
default = record { max_tip_age_ms = 60000; weight_cache = []; walk_depth = 10 }

-- `gen_range(0..total)`, by the number of the walk and of the step.
abbrev pub Draws : Type 0
Draws = ℕ → ℕ → ℕ → ℕ

-- The children with their weights, and the cache that this leaves.
unfoldable pub weigh_children :
    ℕ → Dag → CumulativeWeightCache → List ℕ → Option (List (ℕ × ℕ) × CumulativeWeightCache)
weigh_children fuel d cache [] = some ([], cache)
weigh_children fuel d cache (child ∷ children) =
    elim (calculate_cumulative_weight fuel cache child d) [
      | none ↦ none
      | some (weight, cache') ↦ elim (weigh_children fuel d cache' children) [
        | none ↦ none
        | some (weighted, cache'') ↦ some ((child, weight) ∷ weighted, cache'')
      ]
    ]

-- `sort_by(|a, b| b.1.cmp(&a.1))`, which is stable.
abbrev pub insert_by_weight : ℕ × ℕ → List (ℕ × ℕ) → List (ℕ × ℕ)
insert_by_weight e [] = e ∷ []
insert_by_weight e (f ∷ rest) =
    let later = f ∷ insert_by_weight e rest in if leb f.1 e.1 then e ∷ f ∷ rest else later

abbrev pub sort_by_weight : List (ℕ × ℕ) → List (ℕ × ℕ)
sort_by_weight [] = []
sort_by_weight (e ∷ rest) = insert_by_weight e (sort_by_weight rest)

abbrev pub total_weight : List (ℕ × ℕ) → ℕ
total_weight [] = 0
total_weight ((_, weight) ∷ rest) = weight + total_weight rest

-- The child whose share of the weights the draw falls into.
abbrev pub pick : ℕ → ℕ → List (ℕ × ℕ) → ℕ
pick current random_weight [] = current
pick current random_weight ((child_id, weight) ∷ rest) =
    let further = pick current (random_weight - weight) rest in
    if ltb random_weight weight then child_id else further

-- The steps of a walk from `current`, for so many at most.
unfoldable pub walk_from :
    ℕ → ℕ → (ℕ → ℕ → ℕ) → Dag → ℕ → CumulativeWeightCache → Option (ℕ × CumulativeWeightCache)
unfolding weigh_children
walk_from zero fuel draw d current cache = some (current, cache)
walk_from (suc steps) fuel draw d current cache = elim (children_of d current) [
  | [] ↦ some (current, cache)
  | c ∷ cs ↦ elim (weigh_children fuel d cache (c ∷ cs)) [
    | none ↦ none
    | some (weighted, cache') ↦
        let sorted = sort_by_weight weighted in
        walk_from steps fuel draw d (pick current (draw steps (total_weight sorted)) sorted) cache'
  ]
]

unfoldable pub random_walk :
    ℕ → ParentSelectionAlgorithm → (ℕ → ℕ → ℕ) → Dag → Option (ℕ × CumulativeWeightCache)
unfolding walk_from
random_walk fuel a draw d = walk_from a.walk_depth fuel draw d 0 a.weight_cache

abbrev pub spent_by : Dag → ℕ → ℕ × Unit {0} → Bool
spent_by d sender (id, _) = elim (get_transaction d id) [
  | none ↦ false
  | some other ↦ sender == other.sender
]

abbrev pub spends_with : Dag → IdSet → ℕ × Unit {0} → Bool
spends_with d ancestors (id, _) = elim (get_transaction d id) [
  | none ↦ false
  | some tx ↦ any (spent_by d tx.sender) ancestors
]

unfoldable pub check_double_spend_conflict : ℕ → ℕ → Dag → Bool
unfolding get_transaction get_ancestors
check_double_spend_conflict tip1 tip2 d = elim (get_transaction d tip1) [
  | none ↦ false
  | some tx1 ↦ elim (get_transaction d tip2) [
    | none ↦ false
    | some tx2 ↦
        if tx1.sender == tx2.sender
        then true
        else any (spends_with d (get_ancestors d tip2 10)) (get_ancestors d tip1 10)
  ]
]

abbrev pub is_fresh : ℕ → ℕ → Transaction → Bool
is_fresh now max_age tx = leb (saturating_sub now tx.timestamp) max_age

-- The attempts at a second parent, so many at most; the first parent where none succeeds.
unfoldable pub seek :
    ℕ → ℕ → ParentSelectionAlgorithm → Draws → Dag → ℕ → Option (ℕ × CumulativeWeightCache)
unfolding random_walk check_double_spend_conflict has_transaction_with_parents
seek zero fuel a draws d parent1 = some (parent1, a.weight_cache)
seek (suc attempts) fuel a draws d parent1 = elim (random_walk fuel a (draws (suc attempts)) d) [
  | none ↦ none
  | some (candidate, cache) ↦
      let next = seek attempts fuel (record a { weight_cache = cache }) draws d parent1 in
      if has_transaction_with_parents d (parent1, candidate)
      then next
      else if not (candidate == parent1) && not (check_double_spend_conflict parent1 candidate d)
      then some (candidate, cache)
      else next
]

-- The genesis in place of a second parent that was not found.
abbrev pub or_genesis : ℕ → ℕ → ℕ
or_genesis parent1 parent2 = if parent2 == parent1 then 0 else parent2

-- The parents, or why there are none, and the cache.
unfoldable pub select_parents :
    ℕ
    → ParentSelectionAlgorithm
    → Draws
    → ℕ
    → TipSet
    → Dag
    → Option (Result ParentSelectionError (ℕ × ℕ) × CumulativeWeightCache)
unfolding seek get_tips Tips.is_empty
select_parents fuel a draws now tips d =
    if Tips.is_empty tips
    then some (ok (0, 0), a.weight_cache)
    else if not (any (is_fresh now a.max_tip_age_ms) (get_tips tips))
    then some (err no_valid_tips, a.weight_cache)
    else elim (random_walk fuel a (draws 0) d) [
      | none ↦ none
      | some (parent1, cache) ↦
          elim (seek 10 fuel (record a { weight_cache = cache }) draws d parent1) [
            | none ↦ none
            | some (parent2, cache') ↦ some (ok (parent1, or_genesis parent1 parent2), cache')
          ]
    ]

-- The tips that the graph has a transaction for.
abbrev pub tip_set : Dag → List (ℕ × Unit {0}) → TipSet → TipSet
tip_set d [] tips = tips
tip_set d ((tip_id, _) ∷ rest) tips =
    tip_set d rest (elim (get_transaction d tip_id) [ none ↦ tips | some tx ↦ Tips.add tips tx ])

-- `get_tips_with_selector`, with a selector of its own; `random_tips` is what `get_random_tips(2)`
-- draws if the selection fails.
unfoldable pub get_tips_with_selector : ℕ → Draws → ℕ → List ℕ → Dag → Option (List ℕ)
unfolding select_parents Tips.add
get_tips_with_selector fuel draws now random_tips d =
    elim (select_parents fuel default draws now (tip_set d d.tips Tips.new) d) [
      | none ↦ none
      | some (selected, _) ↦ elim selected [
        | ok (parent1, parent2) ↦ some (parent1 ∷ parent2 ∷ [])
        | err _ ↦ some random_tips
      ]
    ]
