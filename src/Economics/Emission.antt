-- ===== src/Economics/Emission.antt =====
-- The emission curve of src/economics.rs: its reward in closed form, and what an update keeps.
use native.Mathlib.Nat.{pow-succ', div-div-eq-div-mul, zero-div}
use native.Mathlib.Decide.{dec_lt}
use aether_sedc.Prelude.{
  ℕ, zero, suc, ◌+◌, ◌-◌, ◌/◌, ◌^◌, ◌≤◌, ◌<◌, ◌≡◌, refl, arith, max, u64_mod, add64, ok,
}
use aether_sedc.Economics.{
  EmissionCurve, hard_cap, initial_reward, halving_interval, halve, calculate_reward, update,
  halve_if_due,
}

halve_lem : (rounds reward : ℕ) → 0 < reward → halve rounds reward ≡ max (reward / 2 ^ rounds) 1
unfolding halve
halve_lem zero reward pos = omega arith
halve_lem (suc rounds) reward pos =
    let shift : reward / 2 ^ suc rounds ≡ reward / 2 / 2 ^ rounds =
      rw (pow-succ', ← div-div-eq-div-mul) refl in
    elim (dec_lt (reward / 2) 1) [
      | yes small ↦
          let gone : reward / 2 ≡ 0 = omega arith in
          ground (arith, shift, gone, zero-div (2 ^ rounds))
      | no large ↦ ground (arith, shift, halve_lem rounds (reward / 2) (omega arith))
    ]

-- The loop computes the initial reward halved once for each halving, and never less than one.
pub calculate_reward_closed :
    (c : EmissionCurve) → calculate_reward c ≡ max (initial_reward / 2 ^ c.halvings_count) 1
unfolding calculate_reward
calculate_reward_closed c = halve_lem c.halvings_count initial_reward (omega arith)

-- The cap is kept, the halvings follow the epochs, and the cached reward is the computed one.
pub record IsOnSchedule (c : EmissionCurve) : Type 0 where
  pub capped : c.total_emitted ≤ hard_cap
  pub halved : c.halvings_count ≡ c.current_epoch / halving_interval
  pub cached : c.current_reward ≡ calculate_reward c

-- An update that succeeds counts the tokens and one epoch, and keeps the curve on schedule, as
-- long as the sum and the epoch fit 64 bits.
pub update-IsOnSchedule :
    (c c' : EmissionCurve) (tokens : ℕ)
    → IsOnSchedule c
    → c.total_emitted + tokens < u64_mod
    → c.current_epoch + 1 < u64_mod
    → update c tokens ≡ ok c'
    → (c'.total_emitted ≡ c.total_emitted + tokens)
      × (c'.current_epoch ≡ c.current_epoch + 1)
      × IsOnSchedule c'
unfolding update calculate_reward
update-IsOnSchedule c c' tokens s fits room e = (
  ground arith,
  ground arith,
  record { capped = ground arith; halved = ground arith; cached = ground arith },
)

-- Near 2 ^ 64 the check wraps round: a curve that has emitted something takes the amount that
-- brings its counter back to zero, however far that is above the cap.
pub update_wraps :
    (c : EmissionCurve)
    → 0 < c.total_emitted
    → c.total_emitted ≤ hard_cap
    → (c' : EmissionCurve) × (update c (u64_mod - c.total_emitted) ≡ ok c') × (c'.total_emitted ≡ 0)
unfolding update
update_wraps c pos le =
    let wrapped : add64 c.total_emitted (u64_mod - c.total_emitted) ≡ 0 = omega arith in
    (
      halve_if_due (record c {
        total_emitted = add64 c.total_emitted (u64_mod - c.total_emitted);
        current_epoch = add64 c.current_epoch 1;
      }),
      ground arith,
      ground arith,
    )
