-- ===== src/Ledger/Restart.antt =====
-- `save` and `new_with_storage` of src/ledger.rs: what a restart of the node brings back. A tree of
-- the database is the map of its entries, and its reads and writes succeed.
use mathlib.Core.List.{append-nil, append_assoc}
use aether_sedc.Prelude.{
  ℕ, ◌+◌, ◌%◌, ◌<◌, ◌≡◌, refl, sym, ap, ◌∙◌, ◌++◌, Option, ◌≢◌, true, false, [], ◌∷◌, none, some,
  arith, u64_mod, ok, ◌==◌, if◌then◌else◌,
}
use aether_sedc.Dict.{
  Dict, lookup, contains_key, insert, IsMap, lookup-insert, contains_key-insert,
  contains_key-lookup, insert-IsMap,
}
use aether_sedc.Ledger.{
  Ledger, fee_burn_address, get_or_zero, get_balance, get_nonce, transfer_internal,
}
use aether_sedc.Ledger.Sums.{total, total_except, total_except-add, IsValid}
use aether_sedc.Ledger.Transfer.{
  after, transfer_keeps_total, transfer-IsValid, transfer_counts, transfer_supply,
}

-- The trees `Balances` and `Nonces`.
pub record Disk : Type 0 where
  pub balances : Dict ℕ
  pub nonces : Dict ℕ

-- `for (k, v) in from { map.insert(k, v) }`
unfoldable pub insert_all : Dict ℕ → Dict ℕ → Dict ℕ
insert_all [] d = d
insert_all ((k, v) ∷ from) d = insert_all from (insert k v d)

unfoldable pub save : Ledger → Disk → Disk
unfolding insert_all
save l disk = record {
  balances = insert_all l.balances disk.balances;
  nonces = insert_all l.nonces disk.nonces;
}

unfoldable pub new_with_storage : Disk → Ledger
unfolding insert_all
new_with_storage disk =
    let balances = insert_all disk.balances [] in
    record {
      balances = balances;
      nonces = insert_all disk.nonces [];
      total_fees_burned = get_or_zero balances fee_burn_address;
      total_supply = total_except fee_burn_address balances % u64_mod;
    }

lookup-insert_all :
    (k : ℕ) (from d : Dict ℕ)
    → IsMap from
    → lookup k (insert_all from d) ≡ (if contains_key k from then lookup k from else lookup k d)
unfolding insert_all
lookup-insert_all k [] d h = refl
lookup-insert_all k ((j, v) ∷ from) d h =
    ground (arith, lookup-insert_all k from (insert j v d) h.1, lookup-insert k j v d, h.0)

insert_all-IsMap : (from d : Dict ℕ) → IsMap d → IsMap (insert_all from d)
unfolding insert_all
insert_all-IsMap [] d h = h
insert_all-IsMap ((j, v) ∷ from) d h = insert_all-IsMap from (insert j v d) (insert-IsMap j v d h)

contains_key-insert_all :
    (k : ℕ) (from d : Dict ℕ)
    → contains_key k (insert_all from d) ≡ (if contains_key k from then true else contains_key k d)
unfolding insert_all
contains_key-insert_all k [] d = refl
contains_key-insert_all k ((j, v) ∷ from) d =
    ground (arith, contains_key-insert_all k from (insert j v d), contains_key-insert k j v d)

abbrev read : Option ℕ → ℕ
read none = 0
read (some v) = v

-- What is read back, where the tree holds no key that the ledger lacks.
reread :
    (m tree : Dict ℕ) (k : ℕ)
    → IsMap m
    → IsMap tree
    → (contains_key k tree ≡ true → contains_key k m ≡ true)
    → lookup k (insert_all (insert_all m tree) []) ≡ lookup k m
reread m tree k hm ht covers = ground (
  arith,
  lookup-insert_all k (insert_all m tree) [] (insert_all-IsMap m tree ht),
  lookup-insert_all k m tree hm,
  contains_key-insert_all k m tree,
  contains_key-lookup k m,
  contains_key-lookup k tree,
)

-- After a save of a valid ledger and a restart every balance and every nonce is the one before,
-- and the counter of burned fees is again the burn balance, where the database is a map and held
-- no account that the ledger lacks.
pub restart_restores :
    (l : Ledger) (disk : Disk)
    → IsValid l
    → IsMap l.nonces
    → IsMap disk.balances
    → IsMap disk.nonces
    → ((k : ℕ) → contains_key k disk.balances ≡ true → contains_key k l.balances ≡ true)
    → ((k : ℕ) → contains_key k disk.nonces ≡ true → contains_key k l.nonces ≡ true)
    → let l' = new_with_storage (save l disk) in
      ((k : ℕ) → get_balance l' k ≡ get_balance l k)
      × ((k : ℕ) → get_nonce l' k ≡ get_nonce l k)
      × (l'.total_fees_burned ≡ l.total_fees_burned)
unfolding new_with_storage save
restart_restores l disk v hn hb hd cb cn = (
  (λ k. ap read (reread l.balances disk.balances k v.keys hb (cb k))),
  (λ k. ap read (reread l.nonces disk.nonces k hn hd (cn k))),
  ap read (reread l.balances disk.balances fee_burn_address v.keys hb (cb fee_burn_address))
      ∙ sym v.burned,
)

insert_new : (k v : ℕ) (d : Dict ℕ) → contains_key k d ≡ false → insert k v d ≡ d ++ ((k, v) ∷ [])
insert_new k v [] h = refl
insert_new k v ((j, w) ∷ d) h = ground (arith, insert_new k v d)

contains_key-concat :
    (j k v : ℕ) (d : Dict ℕ)
    → contains_key j (d ++ ((k, v) ∷ [])) ≡ (if k == j then true else contains_key j d)
contains_key-concat j k v [] = refl
contains_key-concat j k v ((i, w) ∷ d) = ground (arith, contains_key-concat j k v d)

insert_all_apart :
    (from d : Dict ℕ)
    → IsMap from
    → ((k : ℕ) → contains_key k from ≡ true → contains_key k d ≡ false)
    → insert_all from d ≡ d ++ from
unfolding insert_all
insert_all_apart [] d h apart = sym (append-nil d)
insert_all_apart ((j, v) ∷ from) d h apart = rw (insert_new j v d (apart j (ground arith))) (
    insert_all_apart from (d ++ ((j, v) ∷ [])) h.1
      (λ k e. ground (arith, apart k, contains_key-concat k j v d, h.0))
    ∙ append_assoc d ((j, v) ∷ []) from)

-- A copy into an empty map is the map.
insert_all-nil : (from : Dict ℕ) → IsMap from → insert_all from [] ≡ from
insert_all-nil from h = insert_all_apart from [] h (λ k e. refl)

abbrev pub empty_disk : Disk
empty_disk = record { balances = []; nonces = [] }

-- The recorded supply does not follow burned fees, but a restart recomputes it without them. On a
-- valid ledger whose balances sum to a 64-bit number and whose supply is the sum without the burn
-- balance, a successful transfer between other addresses, a save into an empty database and a
-- restart bring the supply back lower by the fee than it stood before the restart.
pub restart_lowers_supply :
    (l : Ledger) (from to amount fee : ℕ)
    → IsValid l
    → from ≢ fee_burn_address
    → to ≢ fee_burn_address
    → total l.balances < u64_mod
    → l.total_supply ≡ total_except fee_burn_address l.balances
    → (transfer_internal l from to amount fee).0 ≡ ok tt
    → let l' = (transfer_internal l from to amount fee).1 in
      (new_with_storage (save l' empty_disk)).total_supply + fee ≡ l'.total_supply
unfolding new_with_storage save
restart_lowers_supply l from to amount fee v nf nt fits supply h =
    let l' = after l from to amount fee in
    let v' = transfer-IsValid l from to amount fee v in
    rw (insert_all-nil l'.balances v'.keys, insert_all-nil l'.balances v'.keys)
      (omega (
        arith,
        total_except-add fee_burn_address l.balances v.keys,
        total_except-add fee_burn_address l'.balances v'.keys,
        transfer_keeps_total l from to amount fee nf nt,
        transfer_counts l from to amount fee h,
        transfer_supply l from to amount fee,
        v.burned,
        v'.burned,
      ))
