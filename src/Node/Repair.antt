-- ===== src/Node/Repair.antt =====
-- The ledger of a start of the node (src/node.rs): its genesis balances, and what `--repair-ledger`
-- makes of the graph.

use aether_sedc.Prelude.{
  ℕ, zero, suc, ◌+◌, ◌≤◌, ◌<◌, ◌≡◌, refl, ◌∙◌, ◌≢◌, inl, inr, true, ltb, List, [], ◌∷◌, arith, ◌==◌,
  if◌then◌else◌, u64_mod, length, All, Bool-cases,
}
use aether_sedc.Dict.{Dict, insert}
use aether_sedc.Consensus.{IdSet}
use aether_sedc.Ledger.{
  Ledger, new, get_or_zero, get_balance, get_nonce, fee_burn_address, faucet_address,
  transfer_internal, fee_burn_balance,
}
use aether_sedc.Ledger.Sums.{
  get_or_zero-insert, total, total-insert, total_except, total_except-add, IsValid,
}
use aether_sedc.Ledger.Transfer.{transfer_keeps_total, transfer-IsValid}
use aether_sedc.Transaction.{Transaction}
use aether_sedc.Dag.{Dag}
use aether_sedc.Storage.{values}
use aether_sedc.Node.{
  Replay, founder_address, genesis_ledger, seed_genesis, Fate, replayed, skipped, deferred, fate,
  raise_nonce, replay_ledger, replay_applied, note_fate, replay_pass, replay_loop, genesis,
  supply_of, repair_ledger,
}

-- A start sets the balance of the founder and of the faucet to its genesis balance if it is zero,
-- and changes no other one. The sum of all balances grows by what it sets, and the recorded supply
-- stays.
pub seed_genesis-mints :
    (l : Ledger)
    → let l' = seed_genesis genesis_ledger l in
      ((k : ℕ)
        → get_balance l' k
          ≡ (if get_balance l k == 0 then get_or_zero genesis_ledger k else get_balance l k))
      × (total l'.balances
          ≡ total l.balances
            + (if get_balance l founder_address == 0 then 100_000_000_000 else 0)
            + (if get_balance l faucet_address == 0 then 10_000_000_000_000_000_000 else 0))
      × (l'.total_supply ≡ l.total_supply)
unfolding seed_genesis
seed_genesis-mints l =
    let founder = get_or_zero-insert faucet_address founder_address 100_000_000_000 l.balances in
    let d =
      if get_balance l founder_address == 0
      then insert founder_address 100_000_000_000 l.balances
      else l.balances in
    (
      λ k. ground (
        arith,
        founder,
        get_or_zero-insert k founder_address 100_000_000_000 l.balances,
        get_or_zero-insert k faucet_address 10_000_000_000_000_000_000 d,
      ),
      ground (
        arith,
        founder,
        total-insert founder_address 100_000_000_000 l.balances,
        total-insert faucet_address 10_000_000_000_000_000_000 d,
      ),
      ground arith,
    )

-- Neither end of the transaction is the burn address.
abbrev pub AvoidsBurn : Transaction → Type 0
AvoidsBurn tx = (tx.sender ≢ fee_burn_address) × (tx.receiver ≢ fee_burn_address)

-- A valid ledger, with the sum of its balances.
abbrev Holds : ℕ → Ledger → Type 0
Holds sum l = IsValid l × (total l.balances ≡ sum)

raise_nonce-Holds :
    (sum : ℕ) (l : Ledger) (tx : Transaction) → Holds sum l → Holds sum (raise_nonce l tx)
raise_nonce-Holds sum l tx (v, e) =
    elim (Bool-cases (ltb (get_nonce l tx.sender) tx.account_nonce)) [
      | inl up ↦ rw up (record { keys = v.keys; fits = v.fits; burned = v.burned }, e)
      | inr no_rise ↦ rw no_rise (v, e)
    ]

replay_ledger-Holds :
    (sum : ℕ) (f : Fate) (l : Ledger) (tx : Transaction)
    → AvoidsBurn tx
    → Holds sum l
    → Holds sum (replay_ledger f l tx)
replay_ledger-Holds sum replayed l tx (nf, nt) (v, e) =
    raise_nonce-Holds sum (transfer_internal l tx.sender tx.receiver tx.amount tx.fee).1 tx (
      transfer-IsValid l tx.sender tx.receiver tx.amount tx.fee v,
      transfer_keeps_total l tx.sender tx.receiver tx.amount tx.fee nf nt ∙ e,
    )
replay_ledger-Holds sum skipped l tx a h = h
replay_ledger-Holds sum deferred l tx a h = h

-- What a pass leaves pending is of what it was given, and less if there was progress.
note_fate-pending :
    (f : Fate) (tx : Transaction) (rest : Replay) (P : Transaction → Type 0)
    → P tx
    → All P rest.pending
    → All P (note_fate f tx rest).pending
note_fate-pending replayed tx rest P p h = h
note_fate-pending skipped tx rest P p h = h
note_fate-pending deferred tx rest P p h = (p, h)

note_fate-ledger :
    (f : Fate) (tx : Transaction) (rest : Replay)
    → ((note_fate f tx rest).ledger ≡ rest.ledger) × ((note_fate f tx rest).applied ≡ rest.applied)
note_fate-ledger replayed tx rest = (refl, refl)
note_fate-ledger skipped tx rest = (refl, refl)
note_fate-ledger deferred tx rest = (refl, refl)

replay_pass-Holds :
    (sum : ℕ) (l : Ledger) (applied : IdSet) (txs : List Transaction)
    → All AvoidsBurn txs
    → Holds sum l
    → Holds sum (replay_pass l applied txs).ledger
      × All AvoidsBurn (replay_pass l applied txs).pending
unfolding replay_pass
replay_pass-Holds sum l applied [] a h = (h, tt)
replay_pass-Holds sum l applied (tx ∷ txs) (a, as_) h =
    let f = fate l applied tx in
    let rest = replay_pass (replay_ledger f l tx) (replay_applied f applied tx) txs in
    let (kept, avoids) =
      replay_pass-Holds sum (replay_ledger f l tx) (replay_applied f applied tx) txs as_
        (replay_ledger-Holds sum f l tx a h) in
    (rw ((note_fate-ledger f tx rest).0) kept, note_fate-pending f tx rest AvoidsBurn a avoids)

replay_loop-Holds :
    (sum rounds : ℕ) (l : Ledger) (applied : IdSet) (txs : List Transaction)
    → All AvoidsBurn txs
    → Holds sum l
    → Holds sum (replay_loop rounds l applied txs).0
unfolding replay_loop
replay_loop-Holds sum zero l applied txs a h = h
replay_loop-Holds sum (suc rounds) l applied txs a h =
    let pass = replay_pass l applied txs in
    let (kept, avoids) = replay_pass-Holds sum l applied txs a h in
    elim (Bool-cases pass.progress) [
      | inl more ↦
          rw more (replay_loop-Holds sum rounds pass.ledger pass.applied pass.pending avoids kept)
      | inr done ↦ rw done kept
    ]

total_except-le : (d : Dict ℕ) → total_except fee_burn_address d ≤ total d
total_except-le [] = omega arith
total_except-le ((k, v) ∷ d) = ground (arith, total_except-le d)

supply_of-total : (d : Dict ℕ) → total d < u64_mod → supply_of d ≡ total_except fee_burn_address d
supply_of-total [] lt = omega arith
supply_of-total ((k, v) ∷ d) lt = ground (arith, supply_of-total d, total_except-le d)

genesis-Holds : Holds 10_000_000_100_000_000_000 genesis
unfolding genesis new
genesis-Holds = (
  record { keys = (refl, (refl, tt)); fits = (omega arith, (omega arith, tt)); burned = refl },
  refl,
)

-- If no stored transaction touches the burn address, the ledger that a repair makes of the graph
-- is valid, the sum of its balances is that of the genesis balances, and the recorded supply and
-- the counter of burned fees add up to it.
pub repair_ledger-total :
    (d : Dag)
    → All AvoidsBurn (values d.transactions)
    → let l = repair_ledger d in
      IsValid l
      × (total l.balances ≡ 10_000_000_100_000_000_000)
      × (l.total_supply + l.total_fees_burned ≡ 10_000_000_100_000_000_000)
unfolding repair_ledger fee_burn_balance
repair_ledger-total d avoids =
    let pending = values d.transactions in
    let l = (replay_loop (suc (length pending)) genesis [] pending).0 in
    let (v, sum) =
      replay_loop-Holds 10_000_000_100_000_000_000 (suc (length pending)) genesis [] pending avoids
        genesis-Holds in
    (
      record { keys = v.keys; fits = v.fits; burned = refl },
      sum,
      ground (
        arith,
        sum,
        supply_of-total l.balances,
        total_except-add fee_burn_address l.balances v.keys,
      ),
    )

length-note :
    (f : Fate) (tx : Transaction) (rest : Replay) (n : ℕ)
    → length rest.pending ≤ n
    → (rest.progress ≡ true → length rest.pending < n)
    → (length (note_fate f tx rest).pending ≤ suc n)
      × ((note_fate f tx rest).progress ≡ true → length (note_fate f tx rest).pending < suc n)
length-note replayed tx rest n le lt = (omega arith, λ p. omega arith)
length-note skipped tx rest n le lt = (omega arith, λ p. omega arith)
length-note deferred tx rest n le lt = (omega arith, λ p. omega (arith, lt p))

length-replay :
    (l : Ledger) (applied : IdSet) (txs : List Transaction)
    → (length (replay_pass l applied txs).pending ≤ length txs)
      × ((replay_pass l applied txs).progress ≡ true
          → length (replay_pass l applied txs).pending < length txs)
unfolding replay_pass
length-replay l applied [] = (omega arith, λ h. absurd (ground arith))
length-replay l applied (tx ∷ txs) =
    let f = fate l applied tx in
    let (le, lt) = length-replay (replay_ledger f l tx) (replay_applied f applied tx) txs in
    length-note f tx (replay_pass (replay_ledger f l tx) (replay_applied f applied tx) txs)
      (length txs) le lt

replay_rounds :
    (rounds more : ℕ) (l : Ledger) (applied : IdSet) (txs : List Transaction)
    → length txs < rounds
    → replay_loop (rounds + more) l applied txs ≡ replay_loop rounds l applied txs
unfolding replay_loop
replay_rounds zero more l applied txs lt = absurd (omega arith)
replay_rounds (suc rounds) more l applied txs lt =
    let pass = replay_pass l applied txs in
    let e : suc rounds + more ≡ suc (rounds + more) = omega arith in
    elim (Bool-cases pass.progress) [
      | inl again ↦
          let less = (length-replay l applied txs).1 again in
          rw (e, again)
            (replay_rounds rounds more pass.ledger pass.applied pass.pending (omega arith))
      | inr done ↦ rw (e, done) refl
    ]

-- The replay ends: one round for each transaction and one more is enough, and further rounds change
-- neither the ledger nor what is left.
pub replay_loop-ends :
    (l : Ledger) (applied : IdSet) (txs : List Transaction) (more : ℕ)
    → replay_loop (suc (length txs) + more) l applied txs
      ≡ replay_loop (suc (length txs)) l applied txs
replay_loop-ends l applied txs more =
    replay_rounds (suc (length txs)) more l applied txs (omega arith)
