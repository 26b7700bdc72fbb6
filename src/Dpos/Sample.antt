-- ===== src/Dpos/Sample.antt =====
-- A contract with two validators and their delegators, for the tests.
use taraxa_evm.Prelude.{ℕ, Bool, true, false, ◌&&◌, ◌==◌, if◌then◌else◌, none, some, [], ◌∷◌}
use taraxa_evm.Dpos.State.{
  Config, Call, Dpos, Outcome, done, failed, panicked, stored, Validator, Delegation,
  ValidatorRewards,
}

abbrev pub cfg : Config
cfg = record {
  eligibility_balance_threshold = 10;
  vote_eligibility_balance_step = 5;
  validator_maximum_stake = 1000;
  minimum_deposit = 1;
  max_block_author_reward = 5;
  dag_proposers_reward = 50;
  commission_change_delta = 0;
  commission_change_frequency = 0;
  delegation_locking_period = 5;
  blocks_per_year = 100;
  yield_percentage = 20;
  fix_redelegate_block_num = 0;
  phalaenopsis_hf_block_num = 0;
  magnolia_hf_block_num = 0;
  aspen_hf_block_num_part_one = 0;
  aspen_hf_block_num_part_two = 0;
  ficus_hf_block_num = 0;
  cornus_hf_block_num = 0;
  cornus_delegation_locking_period = 5;
  max_supply = 1000000;
  generated_rewards = 0;
  genesis_balances_sum = 1000;
}

abbrev pub validator_1 : Validator
validator_1 = record {
  total_stake = 20;
  commission = 100;
  last_commission_change = 1;
  last_updated = 1;
  undelegations_count = 1;
}

abbrev pub validator_2 : Validator
validator_2 = record {
  total_stake = 30;
  commission = 100;
  last_commission_change = 1;
  last_updated = 1;
  undelegations_count = 0;
}

abbrev pub delegation_7 : Delegation
delegation_7 = record { stake = 20; last_updated = 1 }

abbrev pub rewards_0 : ValidatorRewards
rewards_0 = record { rewards_pool = 0; commission_rewards_pool = 0 }

-- Account 7 delegates to validator 1 and account 8 to validator 2; the contract is account 99.
abbrev pub dpos : Dpos
dpos = record {
  validator = λ v.
      if v == 1
      then some (stored validator_1)
      else if v == 2
      then some (stored validator_2)
      else none;
  validator_info = λ v. none;
  validator_rewards = λ v. some rewards_0;
  validator_owner = λ v. some v;
  vrf_key = λ v. none;
  validators_list = 1 ∷ 2 ∷ [];
  delegation = λ d v.
      if (d == 7) && (v == 1)
      then some delegation_7
      else if (d == 8) && (v == 2)
      then some (record { stake = 30; last_updated = 1 })
      else none;
  delegator_validators = λ d. if d == 7 then 1 ∷ [] else if d == 8 then 2 ∷ [] else [];
  undelegation_v1 = λ d v. none;
  undelegations_v1_validators = λ d. [];
  undelegation_v2 = λ d v id. none;
  undelegations_v2_validators = λ d. [];
  undelegations_v2_ids = λ d v. [];
  last_unique_id = λ d. 0;
  state = λ v b. if b == 1 then some (record { rewards_per_1_stake = 0; count = 2 }) else none;
  eligible_vote_count = 10;
  amount_delegated = 50;
  balance = λ a. if a == 99 then 100 else 50;
  logs = [];
}

abbrev pub call : (caller value block : ℕ) → Call
call caller value block = record { caller = caller; value = value; block = block; contract = 99 }

abbrev pub state_of : {A : Type 0} → Outcome A → Dpos
state_of (done a s) = s
state_of (failed e s) = s
state_of panicked = dpos

abbrev pub is_done : {A : Type 0} → Outcome A → Bool
is_done (done a s) = true
is_done (failed e s) = false
is_done panicked = false
