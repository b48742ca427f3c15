-- ===== src/Audit/Chains.antt =====
-- The parasite chains of `SecurityAuditor` in src/security_audit.rs. `as_u64` rounds a weight, the bit
-- pattern of an `f64`, as the cast does; the fuel is for the rounds of a walk over the parents.
use aether_sedc.Prelude.{
  ℕ, zero, suc, ◌+◌, Bool, true, false, List, [], ◌∷◌, ◌++◌, Option, none, some, ltb, add64, ◌&&◌,
  ◌||◌, max, if◌then◌else◌,
}
use aether_sedc.Dict.{contains_key, insert}
use aether_sedc.Consensus.{IdSet}
use aether_sedc.Transaction.{Transaction}
use aether_sedc.Dag.{Dag, get_transaction}

pub record ParasiteChain : Type 0 where
  pub root_tx : ℕ
  pub chain_transactions : List ℕ
  pub chain_weight : ℕ
  pub chain_depth : ℕ

abbrev pub is_absent : Dag → ℕ → Bool
is_absent d parent = elim (get_transaction d parent) [ none ↦ true | some _ ↦ false ]

unfoldable pub is_orphan_transaction : Dag → Transaction → Bool
unfolding get_transaction
is_orphan_transaction d tx = is_absent d tx.parents.0 || is_absent d tx.parents.1

-- The parents are pushed in turn, so that the second is on top.
abbrev pub push_at : Dag → ℕ → ℕ → List (ℕ × ℕ) → List (ℕ × ℕ)
push_at d current depth queue = elim (get_transaction d current) [
  | none ↦ queue
  | some tx ↦ (tx.parents.1, depth) ∷ (tx.parents.0, depth) ∷ queue
]

-- The identifiers that a walk visits, in order, each with the depth at which it is reached.
unfoldable pub chain_from : ℕ → Dag → IdSet → List (ℕ × ℕ) → Option (List (ℕ × ℕ))
unfolding get_transaction
chain_from zero d visited queue = none
chain_from (suc fuel) d visited [] = some []
chain_from (suc fuel) d visited ((current, depth) ∷ queue) = elim (contains_key current visited) [
  | true ↦ chain_from fuel d visited queue
  | false ↦
      elim (chain_from fuel d (insert current tt visited) (push_at d current (depth + 1) queue)) [
        | none ↦ none
        | some rest ↦ some ((current, depth) ∷ rest)
      ]
]

abbrev pub weight_of : (ℕ → ℕ) → Dag → List (ℕ × ℕ) → ℕ
weight_of as_u64 d [] = 0
weight_of as_u64 d ((id, _) ∷ rest) =
    let others = weight_of as_u64 d rest in
    elim (get_transaction d id) [ none ↦ others | some tx ↦ add64 (as_u64 tx.weight) others ]

abbrev pub greatest : List (ℕ × ℕ) → ℕ
greatest [] = 0
greatest ((_, depth) ∷ rest) = max depth (greatest rest)

abbrev pub ids_of : List (ℕ × ℕ) → List ℕ
ids_of [] = []
ids_of ((id, _) ∷ rest) = id ∷ ids_of rest

-- The three walks visit the same identifiers.
unfoldable pub calculate_chain_weight : ℕ → (ℕ → ℕ) → Dag → Transaction → Option ℕ
unfolding chain_from get_transaction
calculate_chain_weight fuel as_u64 d tx = elim (chain_from fuel d [] ((tx.id, 0) ∷ [])) [
  | none ↦ none
  | some chain ↦ some (weight_of as_u64 d chain)
]

unfoldable pub calculate_chain_depth : ℕ → Dag → Transaction → Option ℕ
unfolding chain_from
calculate_chain_depth fuel d tx = elim (chain_from fuel d [] ((tx.id, 0) ∷ [])) [
  | none ↦ none
  | some chain ↦ some (greatest chain)
]

unfoldable pub extract_chain : ℕ → Dag → Transaction → Option (List ℕ)
unfolding chain_from
extract_chain fuel d tx = elim (chain_from fuel d [] ((tx.id, 0) ∷ [])) [
  | none ↦ none
  | some chain ↦ some (ids_of chain)
]

-- What is reported of one transaction.
abbrev pub suspect : ℕ → (ℕ → ℕ) → Dag → Transaction → Option (List ParasiteChain)
suspect fuel as_u64 d tx =
    if is_orphan_transaction d tx
    then elim (calculate_chain_weight fuel as_u64 d tx) [
      | none ↦ none
      | some weight ↦ elim (calculate_chain_depth fuel d tx) [
        | none ↦ none
        | some depth ↦ elim (extract_chain fuel d tx) [
          | none ↦ none
          | some chain ↦ some (
              if ltb weight 1000 && ltb 10 depth
              then record {
                root_tx = tx.id;
                chain_transactions = chain;
                chain_weight = weight;
                chain_depth = depth;
              }
                ∷ []
              else [])
        ]
      ]
    ]
    else some []

unfoldable pub detect_parasite_chains :
    ℕ → (ℕ → ℕ) → Dag → List Transaction → Option (List ParasiteChain)
unfolding is_orphan_transaction calculate_chain_weight calculate_chain_depth extract_chain
detect_parasite_chains fuel as_u64 d [] = some []
detect_parasite_chains fuel as_u64 d (tx ∷ new_txs) = elim (suspect fuel as_u64 d tx) [
  | none ↦ none
  | some chains ↦ elim (detect_parasite_chains fuel as_u64 d new_txs) [
    | none ↦ none
    | some rest ↦ some (chains ++ rest)
  ]
]
