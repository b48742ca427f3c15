-- ===== src/Reward/Issuance.antt =====
-- The total that the schedule of src/ledger.rs can ever pay.
use Prim.Native.Nat.add
use native.Mathlib.Decide.{dec_lt, dec_le}
use aether_sedc.Prelude.{
  ℕ, zero, suc, ◌+◌, ◌-◌, ◌*◌, ◌/◌, ◌%◌, ◌^◌, ◌≤◌, ◌≡◌, refl, ap, arith, max, leb, if◌then◌else◌,
}
use aether_sedc.Reward.{
  calculate_reward, genesis_supply, max_supply, initial_block_reward, halving_interval,
}

-- The reward of a block in the given halving epoch.
abbrev epoch_reward : ℕ → ℕ
epoch_reward e = if leb 63 e then 0 else max (initial_block_reward / 2 ^ e) 1

-- The rewards of the blocks below a height, one by one.
unfoldable pub issued : ℕ → ℕ
issued zero = 0
issued (suc h) = issued h + calculate_reward h

-- The rewards of one block of each epoch below `n`.
epoch_sum : ℕ → ℕ
epoch_sum zero = 0
epoch_sum (suc n) = epoch_sum n + epoch_reward n

issued_by_epoch :
    (h : ℕ)
    → issued h
      ≡ halving_interval * epoch_sum (h / halving_interval)
        + (h % halving_interval) * epoch_reward (h / halving_interval)
unfolding issued calculate_reward epoch_sum
issued_by_epoch zero = refl
issued_by_epoch (suc h) =
    let q = h / halving_interval in
    let r = h % halving_interval in
    elim (dec_lt (r + 1) halving_interval) [
      | yes inside ↦
          let same : suc h / halving_interval ≡ q = omega arith in
          let next : suc h % halving_interval ≡ r + 1 = omega arith in
          rw (same, next) (omega (arith, issued_by_epoch h))
      | no last ↦
          let turn : suc h / halving_interval ≡ suc q = omega arith in
          let start : suc h % halving_interval ≡ 0 = omega arith in
          let full : r + 1 ≡ halving_interval = omega arith in
          rw (turn, start)
            (omega (arith, issued_by_epoch h, ap (λ (n : ℕ). n * epoch_reward q) full))
    ]

epoch_sum-suc : (n : ℕ) → epoch_sum (suc n) ≡ epoch_sum n + epoch_reward n
unfolding epoch_sum
epoch_sum-suc n = refl

epoch_reward_late : (e : ℕ) → 63 ≤ e → epoch_reward e ≡ 0
epoch_reward_late e h = ground arith

-- No epoch from the 63rd on pays.
epoch_sum_late : (d : ℕ) → epoch_sum (d + 63) ≡ epoch_sum 63
epoch_sum_late zero = refl
epoch_sum_late (suc d) =
    rw (add.suc, epoch_sum-suc (d + 63))
      (omega (arith, epoch_sum_late d, epoch_reward_late (d + 63) (omega arith)))

epoch_sum_grows : (n d : ℕ) → epoch_sum n ≤ epoch_sum (d + n)
unfolding epoch_sum
epoch_sum_grows n zero = rw add.zero (omega arith)
epoch_sum_grows n (suc d) = rw add.suc (omega (arith, epoch_sum_grows n d))

epoch_sum_from_63 : (n : ℕ) → 63 ≤ n → epoch_sum n ≡ epoch_sum 63
epoch_sum_from_63 n le = let e : n ≡ (n - 63) + 63 = omega arith in rw e (epoch_sum_late (n - 63))

epoch_sum_bound : (n : ℕ) → epoch_sum n ≤ epoch_sum 63
epoch_sum_bound n = elim (dec_le 63 n) [
  | yes late ↦ omega (arith, epoch_sum_from_63 n late)
  | no early ↦
      let e : (63 - n) + n ≡ 63 = omega arith in
      omega (arith, epoch_sum_grows n (63 - n), ap epoch_sum e)
]

epoch_sum_63 : epoch_sum 63 ≡ 200_000_000_011
unfolding epoch_sum
epoch_sum_63 = refl

-- The schedule pays at most 42,000,000,002,310,000 units (about 4.2 million AETH) over all heights,
-- and has paid exactly that from height 63 * 210,000 on.
pub issued_bound :
    (h : ℕ)
    → (issued h ≤ 42_000_000_002_310_000)
      × (63 * halving_interval ≤ h → issued h ≡ 42_000_000_002_310_000)
issued_bound h =
    let q = h / halving_interval in
    let r = h % halving_interval in
    let room = epoch_sum_bound (suc q) in
    (
      grind (arith, issued_by_epoch h, room, epoch_sum-suc q, epoch_sum_63),
      (λ le.
          let late : 63 ≤ q = omega arith in
          let none_left = epoch_reward_late q late in
          omega (
            arith,
            issued_by_epoch h,
            epoch_sum_from_63 q late,
            epoch_sum_63,
            ap (λ (n : ℕ). r * n) none_left,
          )),
    )

-- So from the genesis distribution on, the whole schedule stays under the cap: the cap never
-- refuses a reward of a chain that starts at genesis.
pub genesis_plus_issued : (h : ℕ) → genesis_supply + issued h ≤ max_supply
genesis_plus_issued h = omega (arith, (issued_bound h).0)
