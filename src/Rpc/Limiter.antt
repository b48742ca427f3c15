-- ===== src/Rpc/Limiter.antt =====
-- `RateLimiter` of src/rpc.rs. A key is a number that stands for its string; a time is in
-- milliseconds.
use mathlib.Core.Path.{subst}
use aether_sedc.Prelude.{
  ℕ, ◌+◌, ◌-◌, ◌/◌, ◌≤◌, ◌<◌, ◌≡◌, sym, ◌∙◌, ◌⊎◌, inl, inr, true, false, List, [], ◌∷◌, none, some,
  min, arith, leb, ◌==◌, if◌then◌else◌, All, Bool-cases, Result, ok, err,
}
use aether_sedc.Dict.{Dict, lookup, insert, lookup-insert}

pub record RateLimiter : Type 0 where
  pub max_requests : ℕ
  pub window_secs : ℕ
  pub buckets : Dict (ℕ × ℕ)

unfoldable pub new : ℕ → ℕ → RateLimiter
new max_requests window_secs = record {
  max_requests = max_requests;
  window_secs = window_secs;
  buckets = [];
}

-- `start.elapsed().as_secs()`
abbrev pub elapsed_secs : ℕ → ℕ → ℕ
elapsed_secs start now = (now - start) / 1000

-- `entry(key).or_insert((0, now))`, begun anew when the window is over
abbrev pub entry_at : RateLimiter → ℕ → ℕ → ℕ × ℕ
entry_at r key now = elim (lookup key r.buckets) [
  | none ↦ (0, now)
  | some (count, start) ↦
      if leb r.window_secs (elapsed_secs start now) then (0, now) else (count, start)
]

-- The error is the number of seconds to wait.
unfoldable pub check : RateLimiter → ℕ → ℕ → Result ℕ (Unit {0}) × RateLimiter
check r key now =
    let (count, start) = entry_at r key now in
    if leb r.max_requests count
    then (
      err (r.window_secs - elapsed_secs start now),
      record r { buckets = insert key (count, start) r.buckets },
    )
    else (ok tt, record r { buckets = insert key (count + 1, start) r.buckets })

-- How many calls of a key pass, of a run of calls with their keys and times.
abbrev pub passed : RateLimiter → ℕ → List (ℕ × ℕ) → ℕ
passed r key [] = 0
passed r key ((k, now) ∷ calls) =
    let (result, r') = check r k now in
    (if k == key then elim result [ ok _ ↦ 1 | err _ ↦ 0 ] else 0) + passed r' key calls

abbrev pub calls_of : ℕ → List (ℕ × ℕ) → ℕ
calls_of key [] = 0
calls_of key ((k, now) ∷ calls) = (if k == key then 1 else 0) + calls_of key calls

check_other :
    (r : RateLimiter) (key k now : ℕ)
    → (k == key) ≡ false
    → lookup key (check r k now).1.buckets ≡ lookup key r.buckets
unfolding check
check_other r key k now other =
    let (count, start) = entry_at r k now in
    ground (
      arith,
      lookup-insert key k (count, start) r.buckets,
      lookup-insert key k (count + 1, start) r.buckets,
    )

-- What a call leaves of the entry of a key whose window is not over.
check_cases :
    (r : RateLimiter) (key k now count start : ℕ)
    → lookup key r.buckets ≡ some (count, start)
    → elapsed_secs start now < r.window_secs
    → ((check r k now).1.max_requests ≡ r.max_requests)
      × ((check r k now).1.window_secs ≡ r.window_secs)
      × ((((k == key) ≡ false) × (lookup key (check r k now).1.buckets ≡ some (count, start)))
          ⊎ ((((k == key) ≡ true)
                × (count < r.max_requests)
                × ((check r k now).0 ≡ ok tt)
                × (lookup key (check r k now).1.buckets ≡ some (count + 1, start)))
              ⊎ (((k == key) ≡ true)
                  × (r.max_requests ≤ count)
                  × ((check r k now).0 ≡ err (r.window_secs - elapsed_secs start now))
                  × (lookup key (check r k now).1.buckets ≡ some (count, start)))))
unfolding check
check_cases r key k now count start e inside = (
  ground arith,
  ground arith,
  elim (Bool-cases (k == key)) [
    | inr other ↦ inl (other, check_other r key k now other ∙ e)
    | inl same ↦
        let here = lookup-insert key k (count, start) r.buckets in
        let next = lookup-insert key k (count + 1, start) r.buckets in
        elim (Bool-cases (leb r.max_requests count)) [
          | inl full ↦ inr (inr (same, ground arith, ground arith, ground (arith, here)))
          | inr room ↦ inr (inl (same, ground arith, ground arith, ground (arith, next)))
        ]
  ],
)

-- While the window of a key is not over, the limiter passes, of a run of calls, as many of that
-- key as there are, but no more than the maximum has left, whatever the calls of other keys in
-- between.
pub passed_lem :
    (calls : List (ℕ × ℕ)) (r : RateLimiter) (key count start : ℕ)
    → lookup key r.buckets ≡ some (count, start)
    → All (λ c. elapsed_secs start c.1 < r.window_secs) calls
    → passed r key calls ≡ min (calls_of key calls) (r.max_requests - count)
passed_lem [] r key count start e inside = omega arith
passed_lem ((k, now) ∷ calls) r key count start e (here, later) =
    let (same_max, same_window, cases) = check_cases r key k now count start e here in
    let r' = (check r k now).1 in
    let later' : All (λ c. elapsed_secs start c.1 < r'.window_secs) calls =
      subst (λ w. All (λ c. elapsed_secs start c.1 < w) calls) (sym same_window) later in
    elim cases [
      | inl (other, kept) ↦ ground (arith, passed_lem calls r' key count start kept later')
      | inr (inl (mine, room, accepted, kept)) ↦
          ground (arith, passed_lem calls r' key (count + 1) start kept later')
      | inr (inr (mine, full, refusal, kept)) ↦
          ground (arith, passed_lem calls r' key count start kept later')
    ]
