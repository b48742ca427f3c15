-- ===== src/Ledger/Transfer.antt =====
-- `transfer_internal` of src/ledger.rs: when it succeeds, what it moves, and what it keeps.
use aether_sedc.Prelude.{
  ℕ, ◌+◌, ◌-◌, ◌≤◌, ◌<◌, ◌≡◌, refl, ◌≢◌, ◌↔◌, ◌⊎◌, inl, inr, arith, u64_mod, ◌∙◌, ◌==◌,
  if◌then◌else◌, ok,
}
use aether_sedc.Dict.{insert, insert-IsMap}
use aether_sedc.Ledger.{Ledger, fee_burn_address, get_balance, transfer_internal}
use aether_sedc.Ledger.Sums.{
  get_or_zero-insert, total, total-insert, IsValid, insert-Fits, get_or_zero-Fits,
}

-- The burn address and the counter have room for the fee.
abbrev pub BurnHasRoom : Ledger → ℕ → Type 0
BurnHasRoom l fee =
    (fee ≡ 0)
    ⊎ ((get_balance l fee_burn_address + fee < u64_mod) × (l.total_fees_burned + fee < u64_mod))

-- The checks of a transfer, as the balances decide them.
abbrev pub CanTransfer : Ledger → ℕ → ℕ → ℕ → ℕ → Type 0
CanTransfer l from to amount fee =
    (amount + fee < u64_mod)
    × (amount + fee ≤ get_balance l from)
    × ((from ≡ to) ⊎ (get_balance l to + amount < u64_mod))
    × BurnHasRoom l fee

-- A transfer succeeds exactly when its checks pass, and a failed one leaves the ledger as it was.
pub transfer_succeeds_iff :
    (l : Ledger) (from to amount fee : ℕ)
    → (((transfer_internal l from to amount fee).0 ≡ ok tt) ↔ CanTransfer l from to amount fee)
      × ((¬ CanTransfer l from to amount fee) → (transfer_internal l from to amount fee).1 ≡ l)
unfolding transfer_internal
transfer_succeeds_iff l from to amount fee = (ground arith, ground arith)

module _ (l : Ledger) (from to amount fee : ℕ) where
  abbrev pub after : Ledger
  after = (transfer_internal l from to amount fee).1

  -- The ledger that a successful transfer to another address writes.
  abbrev pub moved : Ledger
  moved = record l {
    balances = insert fee_burn_address (get_balance l fee_burn_address + fee) (
        insert to (get_balance l to + amount)
          (insert from (get_balance l from - (amount + fee)) l.balances));
    total_fees_burned = l.total_fees_burned + fee;
  }

  -- The ledger that a successful transfer to the sender writes.
  abbrev pub charged : Ledger
  charged = record l {
    balances =
        insert fee_burn_address (get_balance l fee_burn_address + fee)
          (insert from (get_balance l from - fee) l.balances);
    total_fees_burned = l.total_fees_burned + fee;
  }

  pub transfer_writes :
      (transfer_internal l from to amount fee).0 ≡ ok tt → from ≢ to → after ≡ moved
  unfolding transfer_internal
  transfer_writes h ne = ground arith

  pub transfer_writes_self :
      (transfer_internal l from to amount fee).0 ≡ ok tt → from ≡ to → after ≡ charged
  unfolding transfer_internal
  transfer_writes_self h e = ground arith

  pub transfer_covered :
      (transfer_internal l from to amount fee).0 ≡ ok tt → amount + fee ≤ get_balance l from
  transfer_covered h = ((transfer_succeeds_iff l from to amount fee).0.0 h).1

  transfer_outcome :
      (after ≡ l)
      ⊎ (CanTransfer l from to amount fee
          × (((from ≡ to) × (after ≡ charged)) ⊎ ((from ≢ to) × (after ≡ moved))))
  unfolding transfer_internal
  transfer_outcome = ground arith

  total-charged :
      from ≢ fee_burn_address → fee ≤ get_balance l from → total charged.balances ≡ total l.balances
  total-charged nf covered = ground (
    arith,
    get_or_zero-insert fee_burn_address from (get_balance l from - fee) l.balances,
    total-insert from (get_balance l from - fee) l.balances,
    total-insert fee_burn_address (get_balance l fee_burn_address + fee)
        (insert from (get_balance l from - fee) l.balances),
  )

  -- What the last of the three writes overwrites.
  total-moved :
      from ≢ to
      → from ≢ fee_burn_address
      → amount + fee ≤ get_balance l from
      → total moved.balances + (if to == fee_burn_address then amount else 0) ≡ total l.balances
  total-moved ne nf covered =
      let d = insert from (get_balance l from - (amount + fee)) l.balances in
      ground (
        arith,
        get_or_zero-insert to from (get_balance l from - (amount + fee)) l.balances,
        get_or_zero-insert fee_burn_address from (get_balance l from - (amount + fee)) l.balances,
        get_or_zero-insert fee_burn_address to (get_balance l to + amount) d,
        total-insert from (get_balance l from - (amount + fee)) l.balances,
        total-insert to (get_balance l to + amount) d,
        total-insert fee_burn_address (get_balance l fee_burn_address + fee)
            (insert to (get_balance l to + amount) d),
      )

  pub transfer_counts :
      (transfer_internal l from to amount fee).0 ≡ ok tt
      → after.total_fees_burned ≡ l.total_fees_burned + fee
  unfolding transfer_internal
  transfer_counts h = ground arith

  pub transfer_supply : after.total_supply ≡ l.total_supply
  unfolding transfer_internal
  transfer_supply = ground arith

  pub transfer_nonces : after.nonces ≡ l.nonces
  unfolding transfer_internal
  transfer_nonces = ground arith

  -- A successful transfer between two addresses, neither of them the burn address, takes the amount
  -- and the fee from the sender, gives the amount to the receiver and the fee to the burn address
  -- and to the counter; every other balance, the nonces and the supply stay.
  pub transfer_moves :
      from ≢ to
      → from ≢ fee_burn_address
      → to ≢ fee_burn_address
      → (transfer_internal l from to amount fee).0 ≡ ok tt
      → (get_balance after from + (amount + fee) ≡ get_balance l from)
        × (get_balance after to ≡ get_balance l to + amount)
        × (get_balance after fee_burn_address ≡ get_balance l fee_burn_address + fee)
        × (after.total_fees_burned ≡ l.total_fees_burned + fee)
        × ((k : ℕ)
            → k ≢ from
            → k ≢ to
            → k ≢ fee_burn_address
            → get_balance after k ≡ get_balance l k)
        × (after.nonces ≡ l.nonces)
        × (after.total_supply ≡ l.total_supply)
  transfer_moves ne nf nt h = rw (transfer_writes h ne) (
      let covered = transfer_covered h in
      (
        simp get_or_zero-insert (ground arith),
        simp get_or_zero-insert (ground arith),
        simp get_or_zero-insert (ground arith),
        refl,
        (λ k kf kt kb. simp get_or_zero-insert (ground arith)),
        refl,
        refl,
      ))

  -- A transfer that touches the burn address by neither end keeps the sum of all balances,
  -- whether it succeeds or fails, and also from an address to itself.
  pub transfer_keeps_total :
      from ≢ fee_burn_address → to ≢ fee_burn_address → total after.balances ≡ total l.balances
  transfer_keeps_total nf nt = elim transfer_outcome [
    | inl e ↦ rw e
    | inr (can, inl (_, e)) ↦ rw e (total-charged nf (omega (arith, can.1)))
    | inr (can, inr (ne, e)) ↦ rw e (ground (arith, total-moved ne nf can.1))
  ]

  -- A successful transfer to the burn address, from another one, destroys the amount: the sum of
  -- all balances falls by it, while the burn balance and the counter of burned fees rise by the
  -- fee alone.
  pub transfer_to_burn_loses :
      from ≢ fee_burn_address
      → to ≡ fee_burn_address
      → (transfer_internal l from to amount fee).0 ≡ ok tt
      → (total after.balances + amount ≡ total l.balances)
        × (after.total_fees_burned ≡ l.total_fees_burned + fee)
        × (get_balance after fee_burn_address ≡ get_balance l fee_burn_address + fee)
  transfer_to_burn_loses nf e h = rw (transfer_writes h (λ p. nf (p ∙ e))) (
      (
        ground (arith, total-moved (λ p. nf (p ∙ e)) nf (transfer_covered h)),
        refl,
        simp get_or_zero-insert (ground arith),
      ))

  charged-IsValid : fee ≤ get_balance l from → BurnHasRoom l fee → IsValid l → IsValid charged
  charged-IsValid covered room v = record {
    keys = insert-IsMap _ _ _ (insert-IsMap _ _ _ v.keys);
    fits =
        insert-Fits _ _ _ (ground (arith, get_or_zero-Fits fee_burn_address l.balances v.fits))
          (insert-Fits _ _ _ (omega (arith, get_or_zero-Fits from l.balances v.fits)) v.fits);
    burned = simp get_or_zero-insert (ground (arith, v.burned));
  }

  moved-IsValid : CanTransfer l from to amount fee → from ≢ to → IsValid l → IsValid moved
  moved-IsValid can ne v = record {
    keys = insert-IsMap _ _ _ (insert-IsMap _ _ _ (insert-IsMap _ _ _ v.keys));
    fits = insert-Fits _ _ _ (ground (arith, get_or_zero-Fits fee_burn_address l.balances v.fits)) (
        insert-Fits _ _ _ (ground (arith, can.2))
          (insert-Fits _ _ _ (omega (arith, get_or_zero-Fits from l.balances v.fits)) v.fits));
    burned = simp get_or_zero-insert (ground (arith, v.burned));
  }

  -- A transfer on a valid ledger keeps the maps well formed, the balances within 64 bits and the
  -- counter equal to the burn balance, whatever the addresses and the outcome.
  pub transfer-IsValid : IsValid l → IsValid after
  transfer-IsValid v = elim transfer_outcome [
    | inl e ↦ rw e v
    | inr (can, inl (_, e)) ↦ rw e (charged-IsValid (omega (arith, can.1)) can.3 v)
    | inr (can, inr (ne, e)) ↦ rw e (moved-IsValid can ne v)
  ]
