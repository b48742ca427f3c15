-- ===== src/Difficulty.antt =====
-- `AdaptiveDifficulty` of src/transaction.rs. The difficulty is a `u8`, and its plain `+ 1` wraps.
pub mod Range
use aether_sedc.Prelude.{
  ℕ, ◌+◌, ◌-◌, ◌*◌, ◌/◌, ◌%◌, Bool, List, [], ◌∷◌, ◌++◌, min, max, ltb, leb, ◌&&◌, if◌then◌else◌,
  length, retain, saturating_sub, mul64,
}

pub record AdaptiveDifficulty : Type 0 where
  pub current_difficulty : ℕ
  pub min_difficulty : ℕ
  pub max_difficulty : ℕ
  pub tx_timestamps : List ℕ
  pub window_ms : ℕ
  pub target_tps : ℕ

unfoldable pub new : ℕ → ℕ → ℕ → ℕ → AdaptiveDifficulty
new min_difficulty max_difficulty window_ms target_tps = record {
  current_difficulty = 16;
  min_difficulty = min_difficulty;
  max_difficulty = max_difficulty;
  tx_timestamps = [];
  window_ms = window_ms;
  target_tps = target_tps;
}

-- `AdaptiveDifficulty::default`
unfoldable pub default : AdaptiveDifficulty
unfolding new
default = new 8 24 10_000 10

-- The new difficulty, from the number of transactions in the window.
unfoldable pub adjust : AdaptiveDifficulty → ℕ → ℕ
adjust a tps =
    if ltb (mul64 a.target_tps 2) tps
    then min ((a.current_difficulty + 1) % 256) a.max_difficulty
    else if ltb tps (a.target_tps / 2) && ltb a.min_difficulty a.current_difficulty
    then max (a.current_difficulty - 1) a.min_difficulty
    else a.current_difficulty

abbrev pub in_window : AdaptiveDifficulty → ℕ → List ℕ
in_window a timestamp =
    retain (λ ts. leb (saturating_sub timestamp a.window_ms) ts) (a.tx_timestamps ++ timestamp ∷ [])

-- The new state; the call returns its difficulty.
unfoldable pub record_transaction : AdaptiveDifficulty → ℕ → AdaptiveDifficulty
unfolding adjust
record_transaction a timestamp =
    let kept = in_window a timestamp in
    record a { tx_timestamps = kept; current_difficulty = adjust a (length kept) }

unfoldable pub current_tps : AdaptiveDifficulty → ℕ
current_tps a = length a.tx_timestamps
