-- ===== src/Dict.antt =====
-- A `HashMap` whose keys are identifiers, as an association list: its order stands for the
-- unspecified order of iteration. A `HashSet` of identifiers is a `Dict` of units.
use aether_sedc.Prelude.{
  ℕ, ◌+◌, ◌-◌, ◌≤◌, ◌<◌, ◌≡◌, refl, ◌≢◌, Bool, true, false, Option, none, some, List, [], ◌∷◌,
  arith, ◌==◌, if◌then◌else◌, retain, not, length,
}

abbrev pub Dict {ℓ} : Type ℓ → Type ℓ
Dict V = List (ℕ × V)

module _ {ℓ} {V : Type ℓ} where
  -- `get(&k)`
  abbrev pub lookup : ℕ → Dict V → Option V
  lookup k [] = none
  lookup k ((id, v) ∷ d) = if id == k then some v else lookup k d

  -- `contains_key(&k)`
  abbrev pub contains_key : ℕ → Dict V → Bool
  contains_key k [] = false
  contains_key k ((j, v) ∷ d) = if j == k then true else contains_key k d

  -- `insert(k, v)`
  abbrev pub insert : ℕ → V → Dict V → Dict V
  insert k v [] = (k, v) ∷ []
  insert k v ((j, w) ∷ d) = if j == k then (k, v) ∷ d else (j, w) ∷ insert k v d

  -- `remove(&k)`; the keys are distinct, so at most one entry goes.
  abbrev pub remove : ℕ → Dict V → Dict V
  remove k [] = []
  remove k ((j, w) ∷ d) = let rest = remove k d in if j == k then rest else (j, w) ∷ rest

  pub lookup-insert :
      (j k : ℕ) (v : V) (d : Dict V)
      → lookup j (insert k v d) ≡ (if k == j then some v else lookup j d)
  lookup-insert j k v [] = refl
  lookup-insert j k v ((i, w) ∷ d) = ground (arith, lookup-insert j k v d)

  pub lookup-remove :
      (j k : ℕ) (d : Dict V) → lookup j (remove k d) ≡ (if k == j then none else lookup j d)
  lookup-remove j k [] = ground arith
  lookup-remove j k ((i, w) ∷ d) = ground (arith, lookup-remove j k d)

  pub contains_key-insert :
      (j k : ℕ) (v : V) (d : Dict V)
      → contains_key j (insert k v d) ≡ (if k == j then true else contains_key j d)
  contains_key-insert j k v [] = refl
  contains_key-insert j k v ((i, w) ∷ d) = ground (arith, contains_key-insert j k v d)

  pub contains_key-remove :
      (j k : ℕ) (d : Dict V)
      → contains_key j (remove k d) ≡ (if k == j then false else contains_key j d)
  contains_key-remove j k [] = ground arith
  contains_key-remove j k ((i, w) ∷ d) = ground (arith, contains_key-remove j k d)

  pub contains_key-lookup : (k : ℕ) (d : Dict V) → contains_key k d ≡ false → lookup k d ≡ none
  contains_key-lookup k [] h = refl
  contains_key-lookup k ((i, w) ∷ d) h = ground (arith, contains_key-lookup k d)

  pub lookup-contains_key :
      (k : ℕ) (v : V) (d : Dict V) → lookup k d ≡ some v → contains_key k d ≡ true
  lookup-contains_key k v [] h = ground arith
  lookup-contains_key k v ((i, w) ∷ d) h = ground (arith, lookup-contains_key k v d)

  pub lookup-none-contains_key : (k : ℕ) (d : Dict V) → lookup k d ≡ none → contains_key k d ≡ false
  lookup-none-contains_key k [] h = refl
  lookup-none-contains_key k ((i, w) ∷ d) h = ground (arith, lookup-none-contains_key k d)

  -- The keys are distinct.
  abbrev pub IsMap : Dict V → Type 0
  IsMap [] = Unit
  IsMap ((k, v) ∷ d) = (contains_key k d ≡ false) × IsMap d

  pub insert-IsMap : (k : ℕ) (v : V) (d : Dict V) → IsMap d → IsMap (insert k v d)
  insert-IsMap k v [] h = (refl, tt)
  insert-IsMap k v ((i, w) ∷ d) h =
      ground (arith, insert-IsMap k v d h.1, contains_key-insert i k v d)

  pub remove-IsMap : (k : ℕ) (d : Dict V) → IsMap d → IsMap (remove k d)
  remove-IsMap k [] h = tt
  remove-IsMap k ((i, w) ∷ d) h = ground (arith, remove-IsMap k d h.1, contains_key-remove i k d)

pub ruleset dict_laws =
    (arith, lookup-insert, lookup-remove, contains_key-insert, contains_key-remove)
