-- ===== src/Quorum.antt =====
-- `VQVConsensus` of src/consensus.rs: the register of validators, the quorum and the votes. The
-- shuffle is the crate `rand`'s and the weights and the ratio are computed in `f64`, so they are
-- fields of `Lottery`; the epoch is read off the clock, an argument.
pub mod Members
use aether_sedc.Prelude.{
  ℕ, zero, suc, ◌+◌, ◌*◌, ◌/◌, ◌≡◌, Bool, true, false, List, [], ◌∷◌, ◌++◌, Option, none, some, ltb,
  leb, ◌==◌, ◌&&◌, not, if◌then◌else◌, Result, ok, err, fail_if, ◌>>◌, member, map, add64,
}
use mathlib.Core.List.{Perm}
use aether_sedc.Dict.{Dict, lookup, insert, remove}
use aether_sedc.Transaction.{take}

-- `reputation` is the bit pattern of an `f64`.
pub record Validator : Type 0 where
  pub id : ℕ
  pub stake : ℕ
  pub public_key : List ℕ
  pub last_seen : ℕ
  pub reputation : ℕ

pub record Vote : Type 0 where
  pub validator_id : ℕ
  pub transaction_id : ℕ
  pub approve : Bool
  pub weight : ℕ
  pub timestamp : ℕ

pub record Lottery : Type 0 where
  -- `deterministic_seed`, from the hash of the transaction and the epoch.
  pub seed : ℕ → ℕ → ℕ
  -- `shuffle`, by a generator with the given seed, which only reorders.
  pub shuffle : ℕ → List ℕ → List ℕ
  pub shuffle_perm : (s : ℕ) (ids : List ℕ) → Perm (shuffle s ids) ids
  -- `voting_weight`
  pub voting_weight : Validator → ℕ
  -- `approving as f64 / total as f64 >= threshold`
  pub meets_threshold : ℕ → ℕ → Bool

-- The fields that a vote or a registration reads; the threshold and the length of an epoch enter by
-- `Lottery` and the epoch argument, and the fields for rewards are `Treasury` of Economics.
pub record Vqv : Type 0 where
  pub validators : Dict Validator
  pub base_quorum_size : ℕ
  pub min_quorum_size : ℕ
  pub max_quorum_size : ℕ
  pub min_stake : ℕ
  pub max_stake : ℕ
  pub adaptive_threshold : ℕ

pub data ConsensusError : Type 0 where
  insufficient_stake stake_too_high no_validators zero_weight : ConsensusError

unfoldable pub new : ℕ → ℕ → ℕ → Vqv
new quorum_size min_stake max_stake = record {
  validators = [];
  base_quorum_size = quorum_size;
  min_quorum_size = quorum_size / 3;
  max_quorum_size = quorum_size * 2;
  min_stake = min_stake;
  max_stake = max_stake;
  adaptive_threshold = 1000;
}

unfoldable pub set_adaptive_threshold : Vqv → ℕ → Vqv
set_adaptive_threshold q threshold = record q { adaptive_threshold = threshold }

unfoldable pub calculate_adaptive_quorum_size : Vqv → ℕ → ℕ
calculate_adaptive_quorum_size q tx_amount =
    if leb q.adaptive_threshold tx_amount
    then q.max_quorum_size
    else if leb (q.adaptive_threshold / 10) tx_amount
    then q.base_quorum_size
    else q.min_quorum_size

unfoldable pub register_validator : Vqv → Validator → Result ConsensusError Vqv
register_validator q validator = do
  fail_if (ltb validator.stake q.min_stake) insufficient_stake
  fail_if (ltb q.max_stake validator.stake) stake_too_high
  ok (record q { validators = insert validator.id validator q.validators })

unfoldable pub unregister_validator : Vqv → ℕ → Vqv
unregister_validator q validator_id = record q { validators = remove validator_id q.validators }

abbrev pub keys : Dict Validator → List ℕ
keys [] = []
keys ((id, _) ∷ rest) = id ∷ keys rest

-- `map(|v| v.stake).sum()`
abbrev sum_stakes : Dict Validator → ℕ
sum_stakes [] = 0
sum_stakes ((_, v) ∷ rest) = add64 v.stake (sum_stakes rest)

unfoldable pub total_stake : Vqv → ℕ
total_stake q = sum_stakes q.validators

-- `filter(|v| v.approve && quorum.contains(&v.validator_id)).map(|v| v.weight).sum()`
abbrev pub approving_weight : List ℕ → List Vote → ℕ
approving_weight quorum [] = 0
approving_weight quorum (v ∷ votes) =
    let rest = approving_weight quorum votes in
    if v.approve && member v.validator_id quorum then add64 v.weight rest else rest

module _ (r : Lottery) where
  unfoldable pub select_quorum : Vqv → ℕ → ℕ → ℕ → List ℕ
  unfolding calculate_adaptive_quorum_size
  select_quorum q epoch tx_id tx_amount =
      take (calculate_adaptive_quorum_size q tx_amount)
        (r.shuffle (r.seed tx_id epoch) (keys q.validators))

  -- `quorum.iter().filter_map(|id| self.validators.get(id)).map(|v| v.voting_weight()).sum()`
  abbrev pub quorum_weight : Vqv → List ℕ → ℕ
  quorum_weight q [] = 0
  quorum_weight q (id ∷ ids) =
      let rest = quorum_weight q ids in
      elim (lookup id q.validators) [ none ↦ rest | some v ↦ add64 (r.voting_weight v) rest ]

  -- The decision on a quorum.
  unfoldable pub decide_votes : Vqv → List ℕ → List Vote → Result ConsensusError Bool
  decide_votes q [] votes = err no_validators
  decide_votes q (id ∷ ids) votes =
      let quorum = id ∷ ids in
      let total_weight = quorum_weight q quorum in
      if total_weight == 0
      then err zero_weight
      else ok (r.meets_threshold (approving_weight quorum votes) total_weight)

  unfoldable pub validate_transaction : Vqv → ℕ → ℕ → ℕ → List Vote → Result ConsensusError Bool
  unfolding select_quorum decide_votes
  validate_transaction q epoch tx_id tx_amount votes =
      decide_votes q (select_quorum q epoch tx_id tx_amount) votes
