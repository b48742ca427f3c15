-- ===== src/Difficulty/Range.antt =====
-- The range and the direction of the adaptive difficulty (src/transaction.rs).
use aether_sedc.Prelude.{
  ℕ, ◌+◌, ◌*◌, ◌/◌, ◌≤◌, ◌<◌, List, [], ◌∷◌, ◌++◌, arith, u64_mod, leb, length, retain, All,
  saturating_sub,
}
use aether_sedc.Difficulty.{AdaptiveDifficulty, in_window, adjust, record_transaction}

-- The difficulty lies in its range, which leaves room for one more on a `u8`.
pub record IsInRange (a : AdaptiveDifficulty) : Type 0 where
  pub lower : a.min_difficulty ≤ a.current_difficulty
  pub upper : a.current_difficulty ≤ a.max_difficulty
  pub small : a.max_difficulty < 255

adjust_range :
    (a : AdaptiveDifficulty) (tps : ℕ)
    → IsInRange a
    → a.target_tps * 2 < u64_mod
    → (a.min_difficulty ≤ adjust a tps)
      × (adjust a tps ≤ a.max_difficulty)
      × (adjust a tps ≤ a.current_difficulty + 1)
      × (a.current_difficulty ≤ adjust a tps + 1)
      × (a.current_difficulty < adjust a tps → a.target_tps * 2 < tps)
      × (adjust a tps < a.current_difficulty → tps < a.target_tps / 2)
unfolding adjust
adjust_range a tps h fits =
    (ground arith, ground arith, ground arith, ground arith, ground arith, ground arith)

-- From a difficulty in its range, and with a target rate whose double fits 64 bits, the difficulty
-- stays in its range whatever the timestamp and moves by one step at most: up only above twice the
-- target rate, and down only below half of it.
pub record-IsInRange :
    (a : AdaptiveDifficulty) (timestamp : ℕ)
    → IsInRange a
    → a.target_tps * 2 < u64_mod
    → let a' = record_transaction a timestamp in
      let tps = length (in_window a timestamp) in
      IsInRange a'
      × (a'.current_difficulty ≤ a.current_difficulty + 1)
      × (a.current_difficulty ≤ a'.current_difficulty + 1)
      × (a.current_difficulty < a'.current_difficulty → a.target_tps * 2 < tps)
      × (a'.current_difficulty < a.current_difficulty → tps < a.target_tps / 2)
unfolding record_transaction
record-IsInRange a timestamp h fits =
    let steps = adjust_range a (length (in_window a timestamp)) h fits in
    (
      record { lower = steps.0; upper = steps.1; small = h.small },
      steps.2,
      steps.3,
      steps.4,
      steps.5,
    )

All-retain : (cutoff : ℕ) (xs : List ℕ) → All (λ ts. cutoff ≤ ts) (retain (λ ts. leb cutoff ts) xs)
All-retain cutoff [] = tt
All-retain cutoff (x ∷ xs) = ground (arith, All-retain cutoff xs)

-- What is kept lies in the window that ends at the recorded transaction.
pub record_window :
    (a : AdaptiveDifficulty) (timestamp : ℕ)
    → All
        (λ ts. saturating_sub timestamp a.window_ms ≤ ts)
        (record_transaction a timestamp).tx_timestamps
unfolding record_transaction
record_window a timestamp =
    All-retain (saturating_sub timestamp a.window_ms) (a.tx_timestamps ++ timestamp ∷ [])
