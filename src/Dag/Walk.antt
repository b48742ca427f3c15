-- ===== src/Dag/Walk.antt =====
-- `is_reachable_from` of src/parent_selection.rs: the search over parents, with its stack and its
-- set of visited identifiers, against descent as a relation.
use aether_sedc.Prelude.{
  ℕ, zero, suc, ◌+◌, ◌*◌, ◌≤◌, ◌<◌, ◌≡◌, refl, ◌≢◌, ◌⊎◌, inl, inr, Bool, true, false, ◌||◌, List,
  [], ◌∷◌, Option, none, some, arith, ◌==◌, if◌then◌else◌, length, member, Bool-cases, Option-cases,
}
use aether_sedc.Dict.{Dict, lookup, contains_key, insert, contains_key-insert}
use aether_sedc.Consensus.{IdSet}
use aether_sedc.Transaction.{Transaction}
use aether_sedc.Dag.{Dag}

-- The stack after both parents are pushed; its top is the head.
abbrev pub push_parents : Dag → ℕ → List ℕ → List ℕ
push_parents d current queue = elim (lookup current d.transactions) [
  | none ↦ queue
  | some tx ↦ tx.parents.1 ∷ tx.parents.0 ∷ queue
]

-- One round after the comparison: the visited identifiers and the stack.
abbrev pub visit : Dag → IdSet → ℕ → List ℕ → IdSet × List ℕ
visit d visited current queue =
    if contains_key current visited
    then (visited, queue)
    else (insert current tt visited, push_parents d current queue)

-- The loop, for at most as many rounds as the fuel.
unfoldable pub walk : Dag → ℕ → ℕ → IdSet → List ℕ → Option Bool
walk d to zero visited queue = none
walk d to (suc fuel) visited [] = some false
walk d to (suc fuel) visited (current ∷ queue) =
    let (visited', queue') = visit d visited current queue in
    let later = walk d to fuel visited' queue' in if current == to then some true else later

unfoldable pub is_reachable_from : ℕ → Dag → ℕ → ℕ → Option Bool
unfolding walk
is_reachable_from fuel d from to = walk d to fuel [] (from ∷ [])

-- `x` is `to`, or descends from it by parents of stored transactions.
pub data Descends (d : Dag) (to : ℕ) : ℕ → Type 0 where
  here : Descends d to to
  parent0 :
      {x : ℕ} (tx : Transaction)
      → lookup x d.transactions ≡ some tx
      → Descends d to tx.parents.0
      → Descends d to x
  parent1 :
      {x : ℕ} (tx : Transaction)
      → lookup x d.transactions ≡ some tx
      → Descends d to tx.parents.1
      → Descends d to x

-- The stored transactions that are not visited.
unfoldable pub unvisited : IdSet → Dict Transaction → ℕ
unvisited visited [] = 0
unvisited visited ((k, _) ∷ m) = (if contains_key k visited then 0 else 1) + unvisited visited m

pub unvisited-insert :
    (c : ℕ) (visited : IdSet) (m : Dict Transaction)
    → unvisited (insert c tt visited) m ≤ unvisited visited m
unfolding unvisited
unvisited-insert c visited [] = omega arith
unvisited-insert c visited ((k, tx) ∷ m) =
    ground (arith, unvisited-insert c visited m, contains_key-insert k c tt visited)

pub unvisited_falls :
    (c : ℕ) (tx : Transaction) (visited : IdSet) (m : Dict Transaction)
    → contains_key c visited ≡ false
    → lookup c m ≡ some tx
    → unvisited (insert c tt visited) m + 1 ≤ unvisited visited m
unfolding unvisited
unvisited_falls c tx visited [] new found = absurd (ground arith)
unvisited_falls c tx visited ((k, u) ∷ m) new found = ground (
  arith,
  unvisited-insert c visited m,
  unvisited_falls c tx visited m,
  contains_key-insert k c tt visited,
)

pub unvisited_nil : (m : Dict Transaction) → unvisited [] m ≡ length m
unfolding unvisited
unvisited_nil [] = refl
unvisited_nil ((k, tx) ∷ m) = omega (arith, unvisited_nil m)

-- What is left to do: the stack, and two pushes for each unvisited transaction.
abbrev work : Dag → IdSet → List ℕ → ℕ
work d visited queue = length queue + 2 * unvisited visited d.transactions

visit_works :
    (d : Dag) (visited : IdSet) (current : ℕ) (queue : List ℕ)
    → let (visited', queue') = visit d visited current queue in
      work d visited' queue' + 1 ≤ work d visited (current ∷ queue)
visit_works d visited current queue = elim (Option-cases (lookup current d.transactions)) [
  | inl e ↦ ground (arith, unvisited-insert current visited d.transactions)
  | inr (tx, e) ↦ ground (arith, unvisited_falls current tx visited d.transactions)
]

walk_returns :
    (d : Dag) (to fuel : ℕ) (visited : IdSet) (queue : List ℕ)
    → work d visited queue < fuel
    → walk d to fuel visited queue ≢ none
unfolding walk
walk_returns d to zero visited queue enough e = omega arith
walk_returns d to (suc fuel) visited [] enough e = ground arith
walk_returns d to (suc fuel) visited (current ∷ queue) enough e =
    let (visited', queue') = visit d visited current queue in
    ground (
      arith,
      walk_returns d to fuel visited' queue' (omega (arith, visit_works d visited current queue)),
    )

-- Whatever leads on from a stack leads on from the stack of the next round.
visit_leads :
    {G : Type 0} (d : Dag) (to : ℕ) (visited : IdSet) (current : ℕ) (queue : List ℕ)
    → ((q : ℕ) → member q (current ∷ queue) ≡ true → Descends d to q → G)
    → (q : ℕ) → member q (visit d visited current queue).1 ≡ true
    → Descends d to q
    → G
visit_leads {G} d to visited current queue leads q m below =
    elim (Bool-cases (contains_key current visited)) [
      | inl seen ↦ leads q (ground arith) below
      | inr new ↦ elim (Option-cases (lookup current d.transactions)) [
        | inl e ↦ leads q (ground arith) below
        | inr (tx, e) ↦ elim (pushed_cases tx q queue (ground arith)) [
          | inl (inl p) ↦ leads current (ground arith) (parent1 tx e (rw p below))
          | inl (inr p) ↦ leads current (ground arith) (parent0 tx e (rw p below))
          | inr old ↦ leads q (ground arith) below
        ]
      ]
    ]
  where
    pushed_cases :
        (tx : Transaction) (q : ℕ) (queue : List ℕ)
        → member q (tx.parents.1 ∷ tx.parents.0 ∷ queue) ≡ true
        → ((tx.parents.1 ≡ q) ⊎ (tx.parents.0 ≡ q)) ⊎ (member q queue ≡ true)
    pushed_cases tx q queue m = ground arith

walk_true :
    {G : Type 0} (d : Dag) (to fuel : ℕ) (visited : IdSet) (queue : List ℕ)
    → ((q : ℕ) → member q queue ≡ true → Descends d to q → G)
    → walk d to fuel visited queue ≡ some true
    → G
unfolding walk
walk_true d to zero visited queue leads e = absurd (ground arith)
walk_true d to (suc fuel) visited [] leads e = absurd (ground arith)
walk_true {G} d to (suc fuel) visited (current ∷ queue) leads e =
    let (visited', queue') = visit d visited current queue in
    elim (Bool-cases (current == to)) [
      | inl hit ↦
          let same : to ≡ current = ground arith in leads current (ground arith) (rw (← same) here)
      | inr miss ↦
          walk_true d to fuel visited' queue' (visit_leads d to visited current queue leads)
            (ground arith)
    ]

-- What is visited or on the stack.
abbrev IsMet : IdSet → List ℕ → ℕ → Type 0
IsMet visited queue x = (contains_key x visited || member x queue) ≡ true

-- No visited identifier is the one looked for, and the parents of a visited one are met.
abbrev IsClosed : Dag → ℕ → IdSet → List ℕ → Type 0
IsClosed d to visited queue =
    (x : ℕ)
    → contains_key x visited ≡ true
    → (x ≢ to)
      × ((tx : Transaction)
          → lookup x d.transactions ≡ some tx
          → IsMet visited queue tx.parents.0 × IsMet visited queue tx.parents.1)

visit-IsMet :
    (d : Dag) (visited : IdSet) (current : ℕ) (queue : List ℕ) (x : ℕ)
    → IsMet visited (current ∷ queue) x
    → let (visited', queue') = visit d visited current queue in IsMet visited' queue' x
visit-IsMet d visited current queue x met = elim (Option-cases (lookup current d.transactions)) [
  | inl e ↦ ground (arith, contains_key-insert x current tt visited)
  | inr (tx, e) ↦ ground (arith, contains_key-insert x current tt visited)
]

visited_cases :
    (d : Dag) (visited : IdSet) (current : ℕ) (queue : List ℕ) (x : ℕ)
    → contains_key x (visit d visited current queue).0 ≡ true
    → (contains_key x visited ≡ true) ⊎ ((x ≡ current) × (contains_key current visited ≡ false))
visited_cases d visited current queue x h = ground (arith, contains_key-insert x current tt visited)

pushed-IsMet :
    (d : Dag) (visited : IdSet) (current : ℕ) (queue : List ℕ) (tx : Transaction)
    → contains_key current visited ≡ false
    → lookup current d.transactions ≡ some tx
    → let (visited', queue') = visit d visited current queue in
      IsMet visited' queue' tx.parents.0 × IsMet visited' queue' tx.parents.1
pushed-IsMet d visited current queue tx new found = (ground arith, ground arith)

visit-IsClosed :
    (d : Dag) (to : ℕ) (visited : IdSet) (current : ℕ) (queue : List ℕ)
    → current ≢ to
    → IsClosed d to visited (current ∷ queue)
    → let (visited', queue') = visit d visited current queue in IsClosed d to visited' queue'
visit-IsClosed d to visited current queue miss closed x h =
    elim (visited_cases d visited current queue x h) [
      | inl old ↦ (
        (closed x old).0,
        λ tx found.
            let met = (closed x old).1 tx found in
            (
              visit-IsMet d visited current queue tx.parents.0 met.0,
              visit-IsMet d visited current queue tx.parents.1 met.1,
            ),
      )
      | inr (same, new) ↦ (
        (λ e. miss (ground arith)),
        λ tx found. pushed-IsMet d visited current queue tx new (ground arith),
      )
    ]

-- From a closed set nothing leads to the identifier looked for.
closed_misses :
    (d : Dag) (to : ℕ) (visited : IdSet) (x : ℕ)
    → IsClosed d to visited []
    → IsMet visited [] x
    → ¬ Descends d to x
closed_misses d to visited x closed met here = ground (arith, closed to)
closed_misses d to visited x closed met (parent0 tx found below) =
    closed_misses d to visited tx.parents.0 closed
      (ground (arith, ((closed x (ground arith)).1 tx found).0)) below
closed_misses d to visited x closed met (parent1 tx found below) =
    closed_misses d to visited tx.parents.1 closed
      (ground (arith, ((closed x (ground arith)).1 tx found).1)) below

walk-false :
    (d : Dag) (to fuel : ℕ) (visited : IdSet) (queue : List ℕ) (x : ℕ)
    → IsClosed d to visited queue
    → IsMet visited queue x
    → walk d to fuel visited queue ≡ some false
    → ¬ Descends d to x
unfolding walk
walk-false d to zero visited queue x closed met e = absurd (ground arith)
walk-false d to (suc fuel) visited [] x closed met e = closed_misses d to visited x closed met
walk-false d to (suc fuel) visited (current ∷ queue) x closed met e =
    let (visited', queue') = visit d visited current queue in
    let miss : current ≢ to = ground arith in
    walk-false d to fuel visited' queue' x (visit-IsClosed d to visited current queue miss closed)
      (visit-IsMet d visited current queue x met) (ground arith)

-- Given two rounds for each stored transaction and two more, the search returns, and it answers
-- exactly whether one identifier is the other or descends from it by stored parents.
pub is_reachable_from-Descends :
    (fuel : ℕ) (d : Dag) (from to : ℕ)
    → 2 * length d.transactions + 1 < fuel
    → ((is_reachable_from fuel d from to ≡ some true) × Descends d to from)
      ⊎ ((is_reachable_from fuel d from to ≡ some false) × (¬ Descends d to from))
unfolding is_reachable_from
is_reachable_from-Descends fuel d from to enough =
    elim (Option-cases (walk d to fuel [] (from ∷ []))) [
      | inl e ↦
          absurd
            (walk_returns d to fuel [] (from ∷ []) (omega (arith, unvisited_nil d.transactions)) e)
      | inr (true, e) ↦ inl (
        e,
        walk_true d to fuel [] (from ∷ [])
            (λ q m below. let same : from ≡ q = ground arith in rw same below) e,
      )
      | inr (false, e) ↦ inr (
        e,
        walk-false d to fuel [] (from ∷ []) from (λ x h. absurd (ground arith)) (ground arith) e,
      )
    ]
