-- ===== src/Rpc/Faucet.antt =====
-- The faucet of src/rpc.rs: the cooldown of an address, and the transaction that pays it. The times
-- of the cooldown are in milliseconds of one clock; the key that signs is an argument.
pub mod Authentic
pub mod Cooldown
use aether_sedc.Prelude.{
  ℕ, zero, suc, ◌+◌, ◌-◌, ◌*◌, ◌/◌, ◌%◌, ◌≤◌, ◌<◌, ◌≡◌, refl, inl, inr, Bool, true, false, List, [],
  ◌∷◌, ◌++◌, Option, none, some, ltb, not, if◌then◌else◌, Result, ok, err, add64,
}
use aether_sedc.Dict.{Dict, lookup, contains_key, insert}
use aether_sedc.Ledger.{Ledger, get_nonce}
use aether_sedc.Transaction
use aether_sedc.Transaction.{
  Transaction, Crypto, default_difficulty, mine_nonce, compute_hash, compute_signing_hash,
  from_be_bytes, take,
}
use aether_sedc.Dag.{Dag}
use aether_sedc.Rpc.{Node, Call, Refusal, process_transaction}

-- The faucet's key, of the crate ed25519_dalek.
pub record SigningKey : Type 0 where
  pub verifying_key : List ℕ
  pub sign : ℕ → List ℕ

-- The last request of each address that passed.
abbrev pub Cooldowns : Type 0
Cooldowns = Dict ℕ

-- The error is the number of seconds to wait.
unfoldable pub check_cooldown : Cooldowns → ℕ → ℕ → Result ℕ (Unit {0}) × Cooldowns
check_cooldown cooldowns address now = elim (lookup address cooldowns) [
  | none ↦ (ok tt, insert address now cooldowns)
  | some last ↦
      if ltb (now - last) 60000
      then (err (60 - (now - last) / 1000), cooldowns)
      else (ok tt, insert address now cooldowns)
]

-- The transactions without an entry among the children lists.
abbrev pub tips_of : Dict (List ℕ) → Dict Transaction → List ℕ
tips_of children [] = []
tips_of children ((_, tx) ∷ rest) =
    let others = tips_of children rest in
    if contains_key tx.id children then others else tx.id ∷ others

abbrev pub first_two : List ℕ → ℕ × ℕ
first_two [] = (0, 0)
first_two (tip ∷ []) = (tip, 0)
first_two (tip ∷ tip' ∷ _) = (tip, tip')

unfoldable pub faucet_parents : Dag → ℕ × ℕ
faucet_parents d = first_two (tips_of d.children d.transactions)

abbrev pub zeros : ℕ → List ℕ
zeros zero = []
zeros (suc n) = 0 ∷ zeros n

abbrev pub faucet_amount : ℕ
faucet_amount = 100_000_000_000

-- The address is the public key.
abbrev pub faucet_addr : SigningKey → ℕ
faucet_addr key = from_be_bytes 0 (take 32 key.verifying_key)

-- The transaction, mined with so many nonces at most, then signed.
unfoldable pub faucet_transaction : ℕ → Crypto → SigningKey → ℕ × ℕ → ℕ → ℕ → ℕ → Option Transaction
unfolding Transaction.new mine_nonce compute_hash compute_signing_hash
faucet_transaction fuel c key parents address timestamp account_nonce =
    let tx =
      Transaction.new c parents (faucet_addr key) address faucet_amount 1 timestamp 0 account_nonce
        (zeros 64) key.verifying_key in
    elim (mine_nonce c fuel tx default_difficulty) [
      | none ↦ none
      | some nonce ↦
          let mined = record tx { nonce = nonce } in
          let signed = record mined { signature = key.sign (compute_signing_hash c mined) } in
          some (record signed { id = compute_hash c signed })
    ]

pub data FaucetRefusal : Type 0 where
  rate_limited : ℕ → FaucetRefusal
  not_processed : Refusal → FaucetRefusal

-- A request, on the node and the cooldowns; `timestamp` is the clock of the system in seconds.
-- `reading` and `mining` are what other tasks do between the reads of the graph and the ledger, and
-- until the transaction is submitted. `none` stands for a search that the fuel does not end.
unfoldable pub faucet :
    ℕ
    → Crypto
    → Option ℕ
    → SigningKey
    → Call
    → ℕ
    → ℕ
    → ℕ
    → (Node → Node)
    → (Node → Node)
    → Node × Cooldowns
    → Option (Result FaucetRefusal Transaction × (Node × Cooldowns))
unfolding check_cooldown faucet_parents faucet_transaction
faucet fuel c miner key call address now timestamp reading mining (n, cooldowns) =
    let (passed, cooldowns') = check_cooldown cooldowns address now in
    elim passed [
      | err wait ↦ some (err (rate_limited wait), (n, cooldowns'))
      | ok _ ↦
          let read = reading n in
          elim (faucet_transaction fuel c key (faucet_parents n.world.dag) address
            (timestamp * 1000) (add64 (get_nonce read.world.ledger (faucet_addr key)) 1)) [
              | none ↦ none
              | some tx ↦
                  let (result, n') = process_transaction c miner call tx (mining read) in
                  elim result [
                    | err e ↦ some (err (not_processed e), (n', cooldowns'))
                    | ok _ ↦ some (ok tx, (n', cooldowns'))
                  ]
            ]
    ]
