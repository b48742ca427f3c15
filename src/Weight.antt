-- ===== src/Weight.antt =====
-- The cumulative weight of src/parent_selection.rs, with `CumulativeWeightCache`. Each identifier
-- counts once, however many ways lead to it.
pub mod Counts
use aether_sedc.Prelude.{ℕ, zero, suc, ◌+◌, Bool, true, false, List, [], ◌∷◌, Option, none, some}
use aether_sedc.Dict.{Dict, lookup, contains_key, insert, remove}
use aether_sedc.Consensus.{IdSet}
use aether_sedc.Dag.{Dag, children_of}

-- `CumulativeWeightCache`
abbrev pub CumulativeWeightCache : Type 0
CumulativeWeightCache = Dict ℕ

unfoldable pub get : CumulativeWeightCache → ℕ → Option ℕ
get cache id = lookup id cache

unfoldable pub set : CumulativeWeightCache → ℕ → ℕ → CumulativeWeightCache
set cache id weight = insert id weight cache

unfoldable pub invalidate : CumulativeWeightCache → ℕ → CumulativeWeightCache
invalidate cache id = remove id cache

-- `for child in children { queue.push(*child) }`; the top of the stack is the head.
abbrev pub push_all : List ℕ → List ℕ → List ℕ
push_all [] queue = queue
push_all (c ∷ cs) queue = push_all cs (c ∷ queue)

-- The loop, for at most as many rounds as the fuel: the visited identifiers and the weight.
unfoldable pub weigh : ℕ → Dag → IdSet → List ℕ → ℕ → Option (IdSet × ℕ)
weigh zero d visited queue weight = none
weigh (suc fuel) d visited [] weight = some (visited, weight)
weigh (suc fuel) d visited (current ∷ queue) weight = elim (contains_key current visited) [
  | true ↦ weigh fuel d visited queue weight
  | false ↦
      weigh fuel d (insert current tt visited) (push_all (children_of d current) queue) (weight + 1)
]

unfoldable pub calculate_cumulative_weight :
    ℕ → CumulativeWeightCache → ℕ → Dag → Option (ℕ × CumulativeWeightCache)
unfolding get set weigh
calculate_cumulative_weight fuel cache id d = elim (get cache id) [
  | some cached_weight ↦ some (cached_weight, cache)
  | none ↦ elim (weigh fuel d [] (id ∷ []) 0) [
    | none ↦ none
    | some (visited, weight) ↦ some (weight, set cache id weight)
  ]
]
