-- ===== src/Ledger/Sums.antt =====
-- The sum of the balances, and the invariant of the ledger's maps (src/ledger.rs).
use aether_sedc.Prelude.{
  ℕ, ◌+◌, ◌<◌, ◌≡◌, refl, false, [], ◌∷◌, arith, u64_mod, ◌==◌, if◌then◌else◌,
}
use aether_sedc.Dict.{Dict, contains_key, insert, IsMap, lookup-insert}
use aether_sedc.Ledger.{Ledger, get_or_zero, get_balance, fee_burn_address}

pub get_or_zero-insert :
    (j k v : ℕ) (d : Dict ℕ)
    → get_or_zero (insert k v d) j ≡ (if k == j then v else get_or_zero d j)
get_or_zero-insert j k v d = ground (arith, lookup-insert j k v d)

-- The sum of all balances, the burned ones included.
abbrev pub total : Dict ℕ → ℕ
total [] = 0
total ((k, v) ∷ d) = v + total d

-- A write changes the sum by the difference that it makes at its key.
pub total-insert : (k v : ℕ) (d : Dict ℕ) → total (insert k v d) + get_or_zero d k ≡ total d + v
total-insert k v [] = omega arith
total-insert k v ((j, w) ∷ d) = ground (arith, total-insert k v d)

-- The sum of all balances but one, `filter(|(addr, _)| addr != k).sum()`.
abbrev pub total_except : ℕ → Dict ℕ → ℕ
total_except k [] = 0
total_except k ((j, v) ∷ d) = if j == k then total_except k d else v + total_except k d

total_except_absent : (k : ℕ) (d : Dict ℕ) → contains_key k d ≡ false → total_except k d ≡ total d
total_except_absent k [] h = refl
total_except_absent k ((j, v) ∷ d) h = ground (arith, total_except_absent k d)

pub total_except-add : (k : ℕ) (d : Dict ℕ) → IsMap d → total_except k d + get_or_zero d k ≡ total d
total_except-add k [] h = omega arith
total_except-add k ((j, v) ∷ d) h =
    ground (arith, total_except-add k d h.1, total_except_absent k d)

-- Every value is a `u64`.
abbrev pub Fits : Dict ℕ → Type 0
Fits [] = Unit
Fits ((k, v) ∷ d) = (v < u64_mod) × Fits d

pub insert-Fits : (k v : ℕ) (d : Dict ℕ) → v < u64_mod → Fits d → Fits (insert k v d)
insert-Fits k v [] h f = (h, tt)
insert-Fits k v ((j, w) ∷ d) h f = ground (arith, insert-Fits k v d h f.1)

pub get_or_zero-Fits : (k : ℕ) (d : Dict ℕ) → Fits d → get_or_zero d k < u64_mod
get_or_zero-Fits k [] f = omega arith
get_or_zero-Fits k ((j, w) ∷ d) f = ground (arith, get_or_zero-Fits k d f.1)

-- What every operation keeps: the keys are distinct, the values are words, and the counter of
-- burned fees is the balance of the burn address.
pub record IsValid (l : Ledger) : Type 0 where
  pub keys : IsMap l.balances
  pub fits : Fits l.balances
  pub burned : l.total_fees_burned ≡ get_balance l fee_burn_address
