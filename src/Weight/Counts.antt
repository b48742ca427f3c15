-- ===== src/Weight/Counts.antt =====
-- What the cumulative weight of src/parent_selection.rs counts, and for how long.
use mathlib.Core.Path.{subst}
use aether_sedc.Prelude.{
  ℕ, zero, suc, ◌+◌, ◌≤◌, ◌<◌, ◌≡◌, refl, ◌∙◌, ◌⊎◌, ◌↔◌, inl, inr, true, false, List, [], ◌∷◌,
  arith, ◌==◌, if◌then◌else◌, none, some, length, Has, Bool-cases, Option-cases,
}
use aether_sedc.Dict.{
  Dict, lookup, contains_key, insert, IsMap, insert-IsMap, contains_key-insert, lookup-insert,
}
use aether_sedc.Consensus.{IdSet}
use aether_sedc.Dag.{Dag, children_of}
use aether_sedc.Weight.{
  CumulativeWeightCache, get, set, push_all, weigh, calculate_cumulative_weight,
}

-- `y` is the transaction, or one that refers to it directly or indirectly.
pub data Reaches (d : Dag) (from : ℕ) : ℕ → Type 0 where
  here : Reaches d from from
  child : {x y : ℕ} → Reaches d from x → Has y (children_of d x) → Reaches d from y

-- The children that are still to be pushed.
abbrev pub unpushed : IdSet → Dict (List ℕ) → ℕ
unpushed visited [] = 0
unpushed visited ((k, ids) ∷ m) =
    (if contains_key k visited then 0 else length ids) + unpushed visited m

unpushed-insert :
    (c : ℕ) (visited : IdSet) (m : Dict (List ℕ))
    → unpushed (insert c tt visited) m ≤ unpushed visited m
unpushed-insert c visited [] = omega arith
unpushed-insert c visited ((k, ids) ∷ m) =
    ground (arith, unpushed-insert c visited m, contains_key-insert k c tt visited)

unpushed-lookup :
    (c : ℕ) (visited : IdSet) (ids : List ℕ) (m : Dict (List ℕ))
    → contains_key c visited ≡ false
    → lookup c m ≡ some ids
    → unpushed (insert c tt visited) m + length ids ≤ unpushed visited m
unpushed-lookup c visited ids [] new e = absurd (ground arith)
unpushed-lookup c visited ids ((k, js) ∷ m) new e = ground (
  arith,
  unpushed-lookup c visited ids m,
  unpushed-insert c visited m,
  contains_key-insert k c tt visited,
)

unpushed-children :
    (d : Dag) (c : ℕ) (visited : IdSet)
    → contains_key c visited ≡ false
    → unpushed (insert c tt visited) d.children + length (children_of d c)
      ≤ unpushed visited d.children
unpushed-children d c visited new = elim (Option-cases (lookup c d.children)) [
  | inl e ↦ ground (arith, unpushed-insert c visited d.children)
  | inr (ids, e) ↦ ground (arith, unpushed-lookup c visited ids d.children new e)
]

length-push_all : (cs queue : List ℕ) → length (push_all cs queue) ≡ length cs + length queue
length-push_all [] queue = omega arith
length-push_all (c ∷ cs) queue = ground (arith, length-push_all cs (c ∷ queue))

Has-push_all : (y : ℕ) (cs queue : List ℕ) → Has y (push_all cs queue) ↔ (Has y cs ⊎ Has y queue)
Has-push_all y [] queue = (λ h. inr h, λ h. elim h [ inl m ↦ elim m [ ] | inr m ↦ m ])
Has-push_all y (c ∷ cs) queue =
    let ih = Has-push_all y cs (c ∷ queue) in
    (
      λ h. elim (ih.0 h) [ inl m ↦ inl (inr m) | inr (inl e) ↦ inl (inl e) | inr (inr m) ↦ inr m ],
      λ h. elim h [
        | inl (inl e) ↦ ih.1 (inr (inl e))
        | inl (inr m) ↦ ih.1 (inl m)
        | inr m ↦ ih.1 (inr (inr m))
      ],
    )

length-insert :
    (k : ℕ) (visited : IdSet)
    → contains_key k visited ≡ false
    → length (insert k tt visited) ≡ suc (length visited)
length-insert k [] new = refl
length-insert k ((j, u) ∷ visited) new = ground (arith, length-insert k visited)

-- What the loop keeps: what it has visited or stacked is reached, and what is reached from it is
-- visited or stacked.
record IsWalked (d : Dag) (from : ℕ) (visited : IdSet) (queue : List ℕ) : Type 0 where
  reached : (k : ℕ) → contains_key k visited ≡ true → Reaches d from k
  stacked : (k : ℕ) → Has k queue → Reaches d from k
  closed :
      (k y : ℕ)
      → contains_key k visited ≡ true
      → Has y (children_of d k)
      → (contains_key y visited ≡ true) ⊎ Has y queue
  start : (contains_key from visited ≡ true) ⊎ Has from queue
  keys : IsMap visited

skip-IsWalked :
    (d : Dag) (from c : ℕ) (visited : IdSet) (queue : List ℕ)
    → contains_key c visited ≡ true
    → IsWalked d from visited (c ∷ queue)
    → IsWalked d from visited queue
skip-IsWalked d from c visited queue old h = record {
  reached = h.reached;
  stacked = λ k m. h.stacked k (inr m);
  closed = λ k y v m. elim (h.closed k y v m) [
    | inl there ↦ inl there
    | inr (inl e) ↦ inl (rw (← e) old)
    | inr (inr later) ↦ inr later
  ];
  start = elim h.start [
    | inl there ↦ inl there
    | inr (inl e) ↦ inl (rw (← e) old)
    | inr (inr later) ↦ inr later
  ];
  keys = h.keys;
}

visit-IsWalked :
    (d : Dag) (from c : ℕ) (visited : IdSet) (queue : List ℕ)
    → IsWalked d from visited (c ∷ queue)
    → IsWalked d from (insert c tt visited) (push_all (children_of d c) queue)
visit-IsWalked d from c visited queue h =
    let now = λ (k : ℕ). contains_key-insert k c tt visited in
    let push = λ (y : ℕ). Has-push_all y (children_of d c) queue in
    let moved : (y : ℕ)
        → (contains_key y visited ≡ true) ⊎ Has y (c ∷ queue)
        → (contains_key y (insert c tt visited) ≡ true) ⊎ Has y (push_all (children_of d c) queue) =
      (λ y p. elim p [
        | inl there ↦ inl (ground (arith, now y))
        | inr (inl e) ↦ inl (ground (arith, now y))
        | inr (inr later) ↦ inr ((push y).1 (inr later))
      ]) in
    record {
      reached = λ k v. elim (Bool-cases (c == k)) [
        | inl same ↦ h.stacked k (inl (ground arith))
        | inr other ↦ h.reached k (ground (arith, now k))
      ];
      stacked = λ k m. elim ((push k).0 m) [
        | inl new ↦ child (h.stacked c (inl refl)) new
        | inr old ↦ h.stacked k (inr old)
      ];
      closed = λ k y v m. elim (Bool-cases (c == k)) [
        | inl same ↦
            let e : k ≡ c = ground arith in
            inr ((push y).1 (inl (subst (λ x. Has y (children_of d x)) e m)))
        | inr other ↦ moved y (h.closed k y (ground (arith, now k)) m)
      ];
      start = moved from h.start;
      keys = insert-IsMap c tt visited h.keys;
    }

-- The visited identifiers are exactly those that are reached.
abbrev pub Covers : Dag → ℕ → IdSet → Type 0
Covers d from visited =
    IsMap visited × ((k : ℕ) → (contains_key k visited ≡ true) ↔ Reaches d from k)

Reaches-visited :
    (d : Dag) (from : ℕ) (visited : IdSet)
    → IsWalked d from visited []
    → (k : ℕ) → Reaches d from k
    → contains_key k visited ≡ true
Reaches-visited d from visited h k here = elim h.start [ inl there ↦ there | inr m ↦ elim m [ ] ]
Reaches-visited d from visited h k (child {x} r m) =
    elim (h.closed x k (Reaches-visited d from visited h x r) m) [
      | inl there ↦ there
      | inr m ↦ elim m [ ]
    ]

weigh_old :
    (fuel : ℕ) (d : Dag) (c : ℕ) (visited : IdSet) (queue : List ℕ) (weight : ℕ)
    → contains_key c visited ≡ true
    → weigh (suc fuel) d visited (c ∷ queue) weight ≡ weigh fuel d visited queue weight
unfolding weigh
weigh_old fuel d c visited queue weight old = ground arith

weigh_new :
    (fuel : ℕ) (d : Dag) (c : ℕ) (visited : IdSet) (queue : List ℕ) (weight : ℕ)
    → contains_key c visited ≡ false
    → weigh (suc fuel) d visited (c ∷ queue) weight
      ≡ weigh fuel d (insert c tt visited) (push_all (children_of d c) queue) (weight + 1)
unfolding weigh
weigh_new fuel d c visited queue weight new = ground arith

calculate_new :
    (fuel : ℕ) (cache : CumulativeWeightCache) (id : ℕ) (d : Dag) (seen : IdSet) (weight : ℕ)
    → get cache id ≡ none
    → weigh fuel d [] (id ∷ []) 0 ≡ some (seen, weight)
    → calculate_cumulative_weight fuel cache id d ≡ some (weight, set cache id weight)
unfolding calculate_cumulative_weight
calculate_new fuel cache id d seen weight uncached e = ground arith

calculate_cached :
    (fuel : ℕ) (cache : CumulativeWeightCache) (id weight : ℕ) (d : Dag)
    → calculate_cumulative_weight fuel (set cache id weight) id d
      ≡ some (weight, set cache id weight)
unfolding calculate_cumulative_weight get set
calculate_cached fuel cache id weight d = ground (arith, lookup-insert id id weight cache)

weigh-Covers :
    (fuel : ℕ) (d : Dag) (from : ℕ) (visited : IdSet) (queue : List ℕ) (weight : ℕ)
    → IsWalked d from visited queue
    → weight ≡ length visited
    → unpushed visited d.children + length queue < fuel
    → (seen : IdSet) × (weigh fuel d visited queue weight ≡ some (seen, length seen))
      × Covers d from seen
unfolding weigh
weigh-Covers zero d from visited queue weight h e lt = absurd (omega arith)
weigh-Covers (suc fuel) d from visited [] weight h e lt =
    (visited, rw e refl, (h.keys, λ k. (h.reached k, Reaches-visited d from visited h k)))
weigh-Covers (suc fuel) d from visited (c ∷ queue) weight h e lt =
    elim (Bool-cases (contains_key c visited)) [
      | inl old ↦
          let (seen, found, covers) =
            weigh-Covers fuel d from visited queue weight
              (skip-IsWalked d from c visited queue old h) e (omega (arith, lt)) in
          (seen, weigh_old fuel d c visited queue weight old ∙ found, covers)
      | inr new ↦
          let (seen, found, covers) =
            weigh-Covers fuel d from (insert c tt visited) (push_all (children_of d c) queue)
              (weight + 1) (visit-IsWalked d from c visited queue h)
              (omega (arith, e, length-insert c visited new))
              (omega (
                arith,
                lt,
                unpushed-children d c visited new,
                length-push_all (children_of d c) queue,
              )) in
          (seen, weigh_new fuel d c visited queue weight new ∙ found, covers)
    ]

-- Given one round for each entry of the children lists and two more, the weight of a transaction
-- that the cache does not hold is the number of identifiers that the children lists lead to from
-- it, itself included, and the cache then holds it; asked again, it is answered from the cache,
-- whatever the graph has become.
pub calculate_cumulative_weight-Covers :
    (fuel : ℕ) (cache : CumulativeWeightCache) (id : ℕ) (d : Dag)
    → get cache id ≡ none
    → unpushed [] d.children + 1 < fuel
    → (seen : IdSet) × Covers d id seen
      × (calculate_cumulative_weight fuel cache id d
          ≡ some (length seen, set cache id (length seen)))
      × ((later : ℕ) (d' : Dag)
          → calculate_cumulative_weight later (set cache id (length seen)) id d'
            ≡ some (length seen, set cache id (length seen)))
calculate_cumulative_weight-Covers fuel cache id d uncached enough =
    let (seen, e, covers) =
      weigh-Covers fuel d id [] (id ∷ []) 0
        (record {
          reached = λ k v. absurd (ground arith);
          stacked = λ k m. elim m [ inl p ↦ subst (Reaches d id) p here | inr n ↦ elim n [ ] ];
          closed = λ k y v m. absurd (ground arith);
          start = inr (inl refl);
          keys = tt;
        })
        refl (omega (arith, enough)) in
    (
      seen,
      covers,
      calculate_new fuel cache id d seen (length seen) uncached e,
      λ later d'. calculate_cached later cache id (length seen) d',
    )
