-- ===== src/Dpos/Errors/Steps.antt =====
-- Errors of the steps that the methods of dpos_contract.go share.
use taraxa_evm.Prelude.{ℕ, Bool, Option, none, some, List, [], ◌∷◌, Bytes, arith}
use taraxa_evm.Dpos.State.{
  Config, State, Validator, ValidatorRewards, Delegation, ValidatorInfo, Call, Log, add_log,
  transfer_contract_balance,
}
use taraxa_evm.Dpos.Votes.{
  vote_count, update_vote_count, add64p, add_amount_delegated, sub_amount_delegated,
}
use taraxa_evm.Dpos.Validators.{
  validator_exists, get_validator, get_validator_owner, check_validator_owner,
  get_validator_rewards, get_validator_info, modify_validator, modify_validator_rewards,
  modify_validator_info, create_validator, delete_validator,
}
use taraxa_evm.Dpos.Delegations.{
  delegation_exists, get_delegation, modify_delegation, create_delegation, remove_delegation,
  get_all_delegator_validators_addresses,
}
use taraxa_evm.Dpos.Undelegations.{
  undelegation_exists, get_undelegation_base_object, create_undelegation_v1, create_undelegation_v2,
  gen_unique_id, remove_undelegation, add_v2_validator, drop_v2_validator,
}
use taraxa_evm.Dpos.Rewards.{
  state_get, state_put, state_get_and_decrement, current_state, calculate_delegator_reward,
  pay_reward, claim_delegation,
}
use taraxa_evm.Dpos.Errors.{Never, Reads, never_rules, reads_rules, Never-if}

pub Reads-get_validator : (v : ℕ) → Reads (get_validator v)
unfolding get_validator
Reads-get_validator v = search reads_rules depth 30

pub Reads-check_validator_owner : (o v : ℕ) → Reads (check_validator_owner o v)
unfolding check_validator_owner get_validator_owner
Reads-check_validator_owner o v = search reads_rules depth 30

pub Reads-get_validator_rewards : (v : ℕ) → Reads (get_validator_rewards v)
unfolding get_validator_rewards
Reads-get_validator_rewards v = search reads_rules depth 30

pub Reads-validator_exists : (v : ℕ) → Reads (validator_exists v)
unfolding validator_exists
Reads-validator_exists v = search reads_rules depth 30

pub Reads-get_validator_info : (v : ℕ) → Reads (get_validator_info v)
unfolding get_validator_info
Reads-get_validator_info v = search reads_rules depth 30

pub Reads-get_delegation : (d v : ℕ) → Reads (get_delegation d v)
unfolding get_delegation
Reads-get_delegation d v = search reads_rules depth 30

pub Reads-undelegation_exists : (d v : ℕ) (id : Option ℕ) → Reads (undelegation_exists d v id)
unfolding undelegation_exists
Reads-undelegation_exists d v none = search reads_rules depth 30
Reads-undelegation_exists d v (some id) = search reads_rules depth 30

pub Reads-get_undelegation : (d v : ℕ) (id : Option ℕ) → Reads (get_undelegation_base_object d v id)
unfolding get_undelegation_base_object
Reads-get_undelegation d v none = search reads_rules depth 30
Reads-get_undelegation d v (some id) = search reads_rules depth 30

pub Reads-state_get : (v b : ℕ) → Reads (state_get v b)
unfolding state_get
Reads-state_get v b = search reads_rules depth 30

pub Reads-vote_count : (cfg : Config) (stake b : ℕ) → Reads (vote_count cfg stake b)
unfolding vote_count
Reads-vote_count cfg stake b = search reads_rules depth 30

pub Reads-get_all : (d : ℕ) → Reads (get_all_delegator_validators_addresses d)
unfolding get_all_delegator_validators_addresses
Reads-get_all d = search reads_rules depth 30

pub ruleset getters = (
  reads_rules, Reads-get_validator, Reads-check_validator_owner, Reads-get_validator_rewards,
  Reads-validator_exists, Reads-get_validator_info, Reads-get_delegation, Reads-undelegation_exists,
  Reads-get_undelegation, Reads-state_get, Reads-vote_count, Reads-get_all,
)

pub Never-vote_count : (cfg : Config) (stake b : ℕ) → Never (vote_count cfg stake b)
unfolding vote_count
Never-vote_count cfg stake b = search never_rules depth 30

pub Never-update_vote_count : (p n : ℕ) → Never (update_vote_count p n)
unfolding update_vote_count add64p
Never-update_vote_count p n = search never_rules depth 30

pub Never-transfer : (ctx : Call) (n : ℕ) → Never (transfer_contract_balance ctx n)
unfolding transfer_contract_balance
Never-transfer ctx n = record { at = λ s. ground arith }

pub Never-add_log : (l : Log) → Never (add_log l)
unfolding add_log
Never-add_log l = search never_rules

pub Never-state_put : (v b : ℕ) (o : Option State) → Never (state_put v b o)
unfolding state_put
Never-state_put v b o = search never_rules

pub Never-state_get : (v b : ℕ) → Never (state_get v b)
unfolding state_get
Never-state_get v b = search never_rules

pub ruleset base_steps = (
  never_rules, Never-vote_count, Never-update_vote_count, Never-transfer, Never-add_log,
  Never-state_put, Never-state_get,
)

pub Never-state_get_and_decrement : (v b : ℕ) → Never (state_get_and_decrement v b)
unfolding state_get_and_decrement
Never-state_get_and_decrement v b = search base_steps depth 30

pub Never-current_state :
    (cfg : Config) (b v : ℕ) (o : Option State) (val : Validator) (r : ValidatorRewards)
    → Never (current_state cfg b v o val r)
unfolding current_state
Never-current_state cfg b v none val r = search (base_steps, Never-state_get_and_decrement) depth 30
Never-current_state cfg b v (some state) val r = search base_steps depth 30

pub Never-claim_delegation :
    (cfg : Config) (ctx : Call) (v : ℕ) (state : State) (d : Delegation)
    → Never (claim_delegation cfg ctx v state d)
unfolding claim_delegation calculate_delegator_reward pay_reward
Never-claim_delegation cfg ctx v state d =
    search (base_steps, Never-state_get_and_decrement) depth 30

pub ruleset steps =
    (base_steps, Never-state_get_and_decrement, Never-current_state, Never-claim_delegation)

pub Never-get_validator : (v : ℕ) → Never (get_validator v)
unfolding get_validator
Never-get_validator v = search never_rules depth 30

pub Never-get_validator_rewards : (v : ℕ) → Never (get_validator_rewards v)
unfolding get_validator_rewards
Never-get_validator_rewards v = search never_rules depth 30

pub Never-get_delegation : (d v : ℕ) → Never (get_delegation d v)
unfolding get_delegation
Never-get_delegation d v = search never_rules depth 30

pub Never-modify_validator : (b : Bool) (v : ℕ) (val : Validator) → Never (modify_validator b v val)
unfolding modify_validator validator_exists
Never-modify_validator b v val = search never_rules depth 30

pub Never-modify_rewards : (v : ℕ) (r : ValidatorRewards) → Never (modify_validator_rewards v r)
unfolding modify_validator_rewards validator_exists
Never-modify_rewards v r = search never_rules depth 30

pub Never-modify_info : (v : ℕ) (i : ValidatorInfo) → Never (modify_validator_info v i)
unfolding modify_validator_info validator_exists
Never-modify_info v i = search never_rules depth 30

pub Never-create_validator :
    (b : Bool) (o v : ℕ) (k : Bytes) (n c : ℕ) (x y : Bytes)
    → Never (create_validator b o v k n c x y)
unfolding create_validator
Never-create_validator b o v k n c x y = search never_rules depth 30

pub Never-delete_validator : (v : ℕ) → Never (delete_validator v)
unfolding delete_validator
Never-delete_validator v = search never_rules depth 30

pub Never-modify_delegation : (d v : ℕ) (o : Delegation) → Never (modify_delegation d v o)
unfolding modify_delegation delegation_exists
Never-modify_delegation d v o = search never_rules depth 30

pub Never-create_delegation : (d v b n : ℕ) → Never (create_delegation d v b n)
unfolding create_delegation
Never-create_delegation d v b n = search never_rules depth 30

pub Never-remove_delegation : (d v : ℕ) → Never (remove_delegation d v)
unfolding remove_delegation
Never-remove_delegation d v = search never_rules depth 30

pub Never-create_undelegation_v1 : (d v b n : ℕ) → Never (create_undelegation_v1 d v b n)
unfolding create_undelegation_v1
Never-create_undelegation_v1 d v b n = search never_rules depth 30

Never-add_v2 : (d v : ℕ) (ids : List ℕ) → Never (add_v2_validator d v ids)
Never-add_v2 d v [] = search never_rules depth 30
Never-add_v2 d v (i ∷ []) = search never_rules depth 30
Never-add_v2 d v (i ∷ j ∷ ids) = search never_rules depth 30

Never-drop_v2 : (d v : ℕ) (ids : List ℕ) → Never (drop_v2_validator d v ids)
Never-drop_v2 d v [] = search never_rules depth 30
Never-drop_v2 d v (i ∷ ids) = search never_rules depth 30

pub Never-create_undelegation_v2 : (d v b n : ℕ) → Never (create_undelegation_v2 d v b n)
unfolding create_undelegation_v2 gen_unique_id
Never-create_undelegation_v2 d v b n = search (never_rules, Never-add_v2) depth 30

pub Never-remove_undelegation : (d v : ℕ) (id : Option ℕ) → Never (remove_undelegation d v id)
unfolding remove_undelegation
Never-remove_undelegation d v none = search never_rules depth 30
Never-remove_undelegation d v (some id) = search (never_rules, Never-drop_v2) depth 30

pub Never-add_amount : (n : ℕ) → Never (add_amount_delegated n)
unfolding add_amount_delegated
Never-add_amount n = search never_rules

pub Never-sub_amount : (n : ℕ) → Never (sub_amount_delegated n)
unfolding sub_amount_delegated
Never-sub_amount n = search never_rules

pub Never-check_validator_owner : (o v : ℕ) → Never (check_validator_owner o v)
unfolding check_validator_owner get_validator_owner
Never-check_validator_owner o v = search never_rules depth 30

pub Never-validator_exists : (v : ℕ) → Never (validator_exists v)
unfolding validator_exists
Never-validator_exists v = search never_rules

pub Never-get_validator_info : (v : ℕ) → Never (get_validator_info v)
unfolding get_validator_info
Never-get_validator_info v = search never_rules

pub Never-undelegation_exists : (d v : ℕ) (id : Option ℕ) → Never (undelegation_exists d v id)
unfolding undelegation_exists
Never-undelegation_exists d v none = search never_rules
Never-undelegation_exists d v (some id) = search never_rules

pub Never-get_undelegation : (d v : ℕ) (id : Option ℕ) → Never (get_undelegation_base_object d v id)
unfolding get_undelegation_base_object
Never-get_undelegation d v none = search never_rules
Never-get_undelegation d v (some id) = search never_rules

pub ruleset writes = (
  Never-check_validator_owner, Never-validator_exists, Never-get_validator_info,
  Never-undelegation_exists, Never-get_undelegation, steps, Never-get_validator,
  Never-get_validator_rewards, Never-get_delegation, Never-modify_validator, Never-modify_rewards,
  Never-modify_info, Never-create_validator, Never-delete_validator, Never-modify_delegation,
  Never-create_delegation, Never-remove_delegation, Never-create_undelegation_v1,
  Never-create_undelegation_v2, Never-remove_undelegation, Never-add_amount, Never-sub_amount,
)
