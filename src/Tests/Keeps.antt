-- ===== src/Tests/Keeps.antt =====
-- The database and the stakes (src/storage.rs, src/rpc.rs), the decoding of a transaction
-- (src/transaction.rs), the reports of double spends (src/security_audit.rs) and the cumulative
-- weight (src/parent_selection.rs) at concrete inputs.
use aether_sedc.Prelude.{
  ℕ, ◌+◌, ◌-◌, ◌≡◌, refl, ◌↔◌, List, [], ◌∷◌, none, some, length, true, arith, Has,
}
use aether_sedc.Transaction.{Transaction}
use aether_sedc.Ledger.{get_balance}
use aether_sedc.Ledger.Sums.{total}
use aether_sedc.Transaction.{le_bytes, be_bytes}
use aether_sedc.Transaction.Decode.{decoded, deserialize}
use aether_sedc.Transaction.Decode.RoundTrip.{IsEncodable, header, tail, deserialize-header-tail}
use aether_sedc.Storage.{Storage, StakingPosition, BatchOperation, put_tx, put_bal, delete_tx}
use aether_sedc.Storage.Index.{IsIndexed}
use aether_sedc.Staking.{Stakes, stake_tokens, unstake_tokens, staked_or_zero}
use aether_sedc.Staking.Money.{alone, StakesNamed, stake_moves, unstake_mints}
use aether_sedc.Consensus.{IdSet}
use aether_sedc.Dag.{Dag}
use aether_sedc.Weight.{get, set, calculate_cumulative_weight}
use aether_sedc.Weight.Counts.{Covers, calculate_cumulative_weight-Covers}
use aether_sedc.Audit.{SecurityAuditor, attempt, detect_double_spends}
use aether_sedc.Audit.Detects.{HasPending, Reports, detect_double_spends_iff}
use aether_sedc.Tests.{alice, transaction, payment, ledger}

abbrev empty : Storage
empty = record {
  transactions = [];
  balances = [];
  address_index = [];
  staking = [];
  nonces = [];
  orphans = [];
  mempool = [];
  consensus = none;
}

empty-IsIndexed : IsIndexed empty
empty-IsIndexed = record {
  named = λ k tx e. absurd (ground arith);
  small = λ k tx e. absurd (ground arith);
  by_sender = λ k tx e. absurd (ground arith);
  by_receiver = λ k tx e. absurd (ground arith);
}

abbrev writes : List BatchOperation
writes = delete_tx 100 ∷ put_tx payment ∷ put_bal 5 90 ∷ []

abbrev staker : StakingPosition
staker = record {
  address = alice;
  staked_amount = 30;
  start_timestamp = 1;
  rewards_earned = 4;
  last_reward_timestamp = 1;
}

abbrev stakes : Stakes
stakes = record {
  ledger = ledger;
  storage = record empty { staking = (alice, staker) ∷ [] };
  consensus = record {
    validators = [];
    base_quorum_size = 3;
    min_quorum_size = 1;
    max_quorum_size = 9;
    min_stake = 1;
    max_stake = 1000;
    adaptive_threshold = 10;
  };
}

stakes-StakesNamed : StakesNamed stakes.storage
stakes-StakesNamed k position e = ground arith

-- A reward of one unit a second.
abbrev reward : StakingPosition → ℕ → ℕ
reward position now = now - position.last_reward_timestamp

stake_moves_example :
    let (response, w') = stake_tokens (alone reward (λ l. true)) 9 9000 stakes alice 50 in
    (response.success ≡ true)
    × (get_balance w'.ledger alice + 50 ≡ 100)
    × (staked_or_zero w'.storage alice ≡ 80)
    × (total w'.ledger.balances + 50 ≡ 101)
stake_moves_example =
    stake_moves reward 9 9000 stakes alice 50 (λ l. true) (omega arith) (omega arith)
      stakes-StakesNamed refl (omega arith)

unstake_mints_example :
    let (response, w') = unstake_tokens (alone reward (λ l. true)) 9 stakes alice in
    (response.success ≡ true)
    × (get_balance w'.ledger alice ≡ 142)
    × (total w'.ledger.balances ≡ 143)
    × (staked_or_zero w'.storage alice ≡ 0)
    × (w'.ledger.total_supply ≡ 101)
unstake_mints_example =
    unstake_mints reward (λ l. true) 9 stakes alice staker refl (omega arith) (omega arith)

-- All its fields are small.
payment-IsEncodable : IsEncodable payment
payment-IsEncodable = record {
  id = omega arith;
  parents = (omega arith, omega arith);
  sender = omega arith;
  receiver = omega arith;
  amount = omega arith;
  fee = omega arith;
  timestamp = omega arith;
  nonce = omega arith;
  account_nonce = omega arith;
  weight = omega arith;
}

abbrev key : List ℕ
key = payment.public_key

deserialize-header-tail_example :
    deserialize (header payment (tail (7 ∷ []) key (9 ∷ []))) ≡ decoded payment
unfolding le_bytes be_bytes
deserialize-header-tail_example =
    deserialize-header-tail payment (9 ∷ []) payment-IsEncodable (omega arith)

-- Two payments of alice, with consecutive nonces and different receivers.
abbrev other_payment : Transaction
other_payment = record (transaction 101 (100, 0) 2) { receiver = 9 }

abbrev auditor : SecurityAuditor
auditor = record { pending_txs = (alice, payment ∷ other_payment ∷ []) ∷ []; confirmed_txs = [] }

detect_double_spends_iff_example :
    Has (attempt 50 payment other_payment) (detect_double_spends 50 auditor)
    ↔ HasPending (Reports 50 (attempt 50 payment other_payment)) auditor.pending_txs
detect_double_spends_iff_example =
    detect_double_spends_iff 50 auditor (attempt 50 payment other_payment)

-- Two ways lead from 1 to 3.
abbrev diamond : Dag
diamond = record { transactions = []; children = (1, 2 ∷ 3 ∷ []) ∷ (2, 3 ∷ []) ∷ []; tips = [] }

calculate_cumulative_weight-Covers_example :
    (seen : IdSet) × Covers diamond 1 seen
    × (calculate_cumulative_weight 9 [] 1 diamond ≡ some (length seen, set [] 1 (length seen)))
    × ((later : ℕ) (d' : Dag)
        → calculate_cumulative_weight later (set [] 1 (length seen)) 1 d'
          ≡ some (length seen, set [] 1 (length seen)))
unfolding get
calculate_cumulative_weight-Covers_example =
    calculate_cumulative_weight-Covers 9 [] 1 diamond refl (omega arith)
