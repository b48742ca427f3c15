-- ===== src/Ledger/Nonces.antt =====
-- Account nonces: `validate_account_nonce` and `validate_and_commit_nonce_internal` of
-- src/ledger.rs, for one call and for a sequence of calls.
use aether_sedc.Prelude.{
  ℕ, zero, suc, ◌+◌, ◌≤◌, ◌<◌, ◌≡◌, refl, ◌≢◌, ◌↔◌, ◌⊎◌, inl, inr, Bool, true, false, List, [], ◌∷◌,
  arith, u64_mod, add64, ◌==◌, if◌then◌else◌, ok, err, length,
}
use aether_sedc.Ledger.{
  Ledger, faucet_address, get_nonce, set_nonce, validate_account_nonce,
  validate_and_commit_nonce_internal,
}
use aether_sedc.Ledger.Sums.{get_or_zero-insert}

abbrev pub committed : Ledger → ℕ → ℕ → Ledger
committed l a n = (validate_and_commit_nonce_internal l a n).1

-- Validation accepts the faucet always, and any other account exactly at the successor of its last
-- nonce; a commit succeeds exactly where validation does, and a commit that fails changes nothing.
pub validate_iff_commit :
    (l : Ledger) (a n : ℕ)
    → ((validate_account_nonce l a n ≡ ok tt)
        ↔ ((a ≡ faucet_address) ⊎ (n ≡ add64 (get_nonce l a) 1)))
      × ((validate_account_nonce l a n ≡ ok tt)
          ↔ ((validate_and_commit_nonce_internal l a n).0 ≡ ok tt))
      × (validate_account_nonce l a n ≢ ok tt → committed l a n ≡ l)
unfolding validate_account_nonce validate_and_commit_nonce_internal
validate_iff_commit l a n = (ground arith, ground arith, ground arith)

-- A commit writes the nonce of its own account only, and no balance.
pub commit_writes :
    (l : Ledger) (a n : ℕ)
    → a ≢ faucet_address
    → (validate_and_commit_nonce_internal l a n).0 ≡ ok tt
    → committed l a n ≡ set_nonce l a n
unfolding validate_and_commit_nonce_internal
commit_writes l a n nf h = ground arith

pub commit_keeps :
    (l : Ledger) (a n : ℕ)
    → ((committed l a n).balances ≡ l.balances) × ((committed l a n).total_supply ≡ l.total_supply)
unfolding validate_and_commit_nonce_internal
commit_keeps l a n = (ground arith, ground arith)

commit_others : (l : Ledger) (a b n : ℕ) → a ≢ b → get_nonce (committed l a n) b ≡ get_nonce l b
unfolding validate_and_commit_nonce_internal
commit_others l a b n ne = ground (arith, get_or_zero-insert b a n l.nonces)

-- The stored nonce of an account, the faucet included, never falls, while the counter has room.
pub nonce_monotone :
    (l : Ledger) (a b n : ℕ)
    → get_nonce l a + 1 < u64_mod
    → get_nonce l b ≤ get_nonce (committed l a n) b
unfolding validate_and_commit_nonce_internal
nonce_monotone l a b n room = ground (arith, get_or_zero-insert b a n l.nonces)

-- A transaction that was committed for an account other than the faucet is refused from then on.
pub no_replay :
    (l : Ledger) (a n : ℕ)
    → a ≢ faucet_address
    → (validate_and_commit_nonce_internal l a n).0 ≡ ok tt
    → ¬ (validate_account_nonce (committed l a n) a n ≡ ok tt)
unfolding validate_account_nonce validate_and_commit_nonce_internal
no_replay l a n nf h again = ground (arith, get_or_zero-insert a a n l.nonces)

-- The calls of a run, each an account and a nonce, and the nonces that were accepted of one account.
unfoldable pub commits : Ledger → List (ℕ × ℕ) → Ledger
commits l [] = l
commits l ((a, n) ∷ calls) = commits (committed l a n) calls

abbrev accepts : Ledger → ℕ → ℕ → Bool
accepts l a n = elim (validate_and_commit_nonce_internal l a n).0 [ ok _ ↦ true | err _ ↦ false ]

unfoldable pub accepted : ℕ → Ledger → List (ℕ × ℕ) → List ℕ
accepted a l [] = []
accepted a l ((b, n) ∷ calls) =
    let rest = accepted a (committed l b n) calls in
    if b == a then (if accepts l b n then n ∷ rest else rest) else rest

-- `n` numbers from `k` on
abbrev pub range_from : ℕ → ℕ → List ℕ
range_from k zero = []
range_from k (suc n) = k ∷ range_from (k + 1) n

-- One call of the run: it takes the next nonce of `a`, or leaves the nonce of `a` alone.
commit_step :
    (a b n : ℕ) (l : Ledger)
    → a ≢ faucet_address
    → get_nonce l a + 1 < u64_mod
    → ((b ≡ a)
        × (accepts l b n ≡ true)
        × (n ≡ get_nonce l a + 1)
        × (get_nonce (committed l b n) a ≡ get_nonce l a + 1))
      ⊎ (((b ≢ a) ⊎ (accepts l b n ≡ false)) × (get_nonce (committed l b n) a ≡ get_nonce l a))
unfolding validate_and_commit_nonce_internal
commit_step a b n l nf room = ground (arith, get_or_zero-insert a b n l.nonces)

-- In any run the nonces accepted of an account other than the faucet are consecutive, from its
-- stored nonce on, so none is accepted twice or skipped, while the counter has room for as many
-- nonces as the run has calls.
pub accepted_consecutive :
    (a : ℕ) (l : Ledger) (calls : List (ℕ × ℕ))
    → a ≢ faucet_address
    → get_nonce l a + length calls + 1 < u64_mod
    → accepted a l calls ≡ range_from (get_nonce l a + 1) (length (accepted a l calls))
unfolding accepted
accepted_consecutive a l [] nf room = refl
accepted_consecutive a l ((b, n) ∷ calls) nf room = elim (commit_step a b n l nf (omega arith)) [
  | inl (e, taken, here, next) ↦
      ground (arith, accepted_consecutive a (committed l b n) calls nf (omega arith))
  | inr (skipped, same) ↦
      ground (arith, accepted_consecutive a (committed l b n) calls nf (omega arith))
]
