-- ===== src/Dpos/Tests.antt =====
-- The theorems at concrete inputs, and runs of the methods.
use taraxa_evm.Prelude.{
  ℕ, ◌+◌, ◌-◌, ◌≤◌, ◌≡◌, ◌≢◌, refl, true, ◌&&◌, ◌==◌, if◌then◌else◌, none, [], ◌∷◌, arith,
}
use taraxa_evm.Dpos.State.{
  Dpos, done, failed, panicked, ◌>>=◌, ◌>>◌, pure, fail, panic, gets, modify, require, some_or,
  some_or_panic, assert, add_log, transfer_contract_balance, non_existent_validator,
}
use taraxa_evm.Dpos.Votes.{
  vote_count, votes, update_vote_count, add64p, add_amount_delegated, sub_amount_delegated,
}
use taraxa_evm.Dpos.Collections.{exists_in, index_in, last_or, create_in, remove_in}
use taraxa_evm.Dpos.Validators.{
  get_validator, decode_validator, encode_validator, get_validator_rewards, modify_validator,
  modify_validator_rewards, validator_exists,
}
use taraxa_evm.Dpos.Delegations.{
  get_delegation, modify_delegation, create_delegation, remove_delegation, delegation_exists,
}
use taraxa_evm.Dpos.Undelegations.{create_undelegation_v2, gen_unique_id}
use taraxa_evm.Dpos.Rewards.{
  state_get, state_put, state_get_and_decrement, current_state, calculate_delegator_reward,
  pay_reward, claim_delegation, calculate_reward_per_1_stake,
}
use taraxa_evm.Dpos.Stake.Common.{enough, leaves_enough, add_stake, reduce_delegation, save_all}
use taraxa_evm.Dpos.Stake.{
  recount, delegate, delegate_update_values, undelegate, reduced, delete_or_save,
  create_undelegation,
}
use taraxa_evm.Dpos.Redelegate.{redelegate, redelegate_from, redelegate_to, leave_validator}
use taraxa_evm.Dpos.Run.{run_method, dispatch, is_payable_method, delegate_to}
use taraxa_evm.Dpos.Errors.Methods.{run_method-error}
use taraxa_evm.Dpos.Stuck.{redelegate-delegate-never}
use taraxa_evm.Dpos.Accounts.Sums.{
  stakes, totals, Balanced, sum_stakes, delegate-accounts, undelegate-accounts, delegate-Balanced,
  undelegate-Balanced,
}
use taraxa_evm.Storage.IterableMap.Model.{swap_remove}
use taraxa_evm.Dpos.Sample.{
  cfg, dpos, call, state_of, is_done, validator_1, delegation_7, rewards_0,
}

-- Account 7 delegates 5 more to validator 1.
delegate_runs :
    delegate cfg (call 7 5 2) 1 dpos ≡ done tt (state_of (delegate cfg (call 7 5 2) 1 dpos))
unfolding delegate ◌>>=◌ ◌>>◌ pure fail panic gets modify require some_or some_or_panic assert
    add_log transfer_contract_balance vote_count votes update_vote_count add64p add_amount_delegated
    get_validator decode_validator encode_validator get_validator_rewards modify_validator
    modify_validator_rewards validator_exists exists_in get_delegation modify_delegation
    delegation_exists state_get state_put state_get_and_decrement current_state
    calculate_delegator_reward pay_reward claim_delegation calculate_reward_per_1_stake enough
    add_stake save_all recount delegate_update_values
delegate_runs = refl

-- Account 7 undelegates 4 of its 20.
undelegate_runs :
    undelegate cfg (call 7 0 2) 1 4 true dpos
    ≡ done 1 (state_of (undelegate cfg (call 7 0 2) 1 4 true dpos))
unfolding delegate ◌>>=◌ ◌>>◌ pure fail panic gets modify require some_or some_or_panic assert
    add_log transfer_contract_balance vote_count votes update_vote_count add64p sub_amount_delegated
    get_validator decode_validator encode_validator get_validator_rewards modify_validator
    modify_validator_rewards validator_exists exists_in create_in get_delegation modify_delegation
    delegation_exists state_get state_put state_get_and_decrement current_state
    calculate_delegator_reward pay_reward claim_delegation calculate_reward_per_1_stake
    leaves_enough reduce_delegation reduced delete_or_save create_undelegation
    create_undelegation_v2 gen_unique_id save_all recount undelegate
undelegate_runs = refl

-- Account 7 moves its whole stake to validator 2, and that returns without error.
redelegate_runs : is_done (redelegate cfg (call 7 0 2) 1 2 20 dpos) ≡ true
unfolding redelegate redelegate_from redelegate_to leave_validator ◌>>=◌ ◌>>◌ pure fail panic gets
    modify require some_or some_or_panic assert add_log transfer_contract_balance vote_count votes
    update_vote_count add64p get_validator decode_validator encode_validator get_validator_rewards
    modify_validator modify_validator_rewards validator_exists exists_in index_in last_or create_in
    remove_in swap_remove get_delegation modify_delegation create_delegation remove_delegation
    delegation_exists state_get state_put state_get_and_decrement current_state
    calculate_delegator_reward pay_reward claim_delegation calculate_reward_per_1_stake
    leaves_enough add_stake reduce_delegation save_all recount
redelegate_runs = refl

-- After it account 8 delegates to validator 1 in the next block, and the contract panics.
redelegate-delegate_panics :
    (redelegate cfg (call 7 0 2) 1 2 20 >> delegate cfg (call 8 5 3) 1) dpos ≡ panicked
unfolding delegate redelegate redelegate_from redelegate_to leave_validator ◌>>=◌ ◌>>◌ pure fail
    panic gets modify require some_or some_or_panic assert add_log transfer_contract_balance
    vote_count votes update_vote_count add64p get_validator decode_validator encode_validator
    get_validator_rewards modify_validator modify_validator_rewards validator_exists exists_in
    index_in last_or create_in remove_in swap_remove get_delegation modify_delegation
    create_delegation remove_delegation delegation_exists state_get state_put
    state_get_and_decrement current_state calculate_delegator_reward pay_reward claim_delegation
    calculate_reward_per_1_stake leaves_enough enough add_stake reduce_delegation save_all recount
redelegate-delegate_panics = refl

-- A delegation to a validator that does not exist.
refused :
    run_method cfg (λ b v. none) 0 (call 7 5 2) (delegate_to 5) dpos
    ≡ failed non_existent_validator dpos
unfolding run_method dispatch is_payable_method delegate ◌>>=◌ ◌>>◌ pure fail gets require some_or
    get_validator
refused = refl

run_method-error_example : dpos ≡ dpos
run_method-error_example =
    run_method-error cfg (λ b v. none) 0 (call 7 5 2) (delegate_to 5) dpos dpos
      non_existent_validator refl refused

redelegate-delegate-never_example :
    (redelegate cfg (call 7 0 2) 1 2 20 >> delegate cfg (call 8 5 3) 1) dpos ≢ done tt dpos
redelegate-delegate-never_example =
    redelegate-delegate-never cfg (call 7 0 2) (call 8 5 3) 1 2 20 validator_1 delegation_7
      rewards_0 dpos dpos refl refl refl refl refl refl refl (omega arith) refl refl refl
      (omega arith)

abbrev delegated_5 : Dpos
delegated_5 = state_of (delegate cfg (call 7 5 2) 1 dpos)

delegate-accounts_example :
    ((d w : ℕ)
      → stakes delegated_5 d w ≡ (if (7 == d) && (1 == w) then 20 + 5 else stakes dpos d w))
    × ((w : ℕ) → totals delegated_5 w ≡ (if 1 == w then 20 + 5 else totals dpos w))
delegate-accounts_example = delegate-accounts cfg (call 7 5 2) 1 dpos delegated_5 delegate_runs

abbrev undelegated_4 : Dpos
undelegated_4 = state_of (undelegate cfg (call 7 0 2) 1 4 true dpos)

undelegate-accounts_example :
    ((4 ≤ stakes dpos 7 1) × (4 ≤ totals dpos 1))
    × (((d w : ℕ)
          → stakes undelegated_4 d w ≡ (if (7 == d) && (1 == w) then 20 - 4 else stakes dpos d w))
        × ((w : ℕ) → totals undelegated_4 w ≡ (if 1 == w then 20 - 4 else totals dpos w)))
undelegate-accounts_example =
    undelegate-accounts cfg (call 7 0 2) 1 4 true dpos undelegated_4 1 undelegate_runs

balanced : Balanced (7 ∷ 8 ∷ []) dpos
unfolding sum_stakes
balanced v = ground arith

delegate-Balanced_example : Balanced (7 ∷ 8 ∷ []) delegated_5
delegate-Balanced_example =
    delegate-Balanced cfg (call 7 5 2) 1 (7 ∷ 8 ∷ []) dpos delegated_5 refl balanced delegate_runs

undelegate-Balanced_example : Balanced (7 ∷ 8 ∷ []) undelegated_4
undelegate-Balanced_example =
    undelegate-Balanced cfg (call 7 0 2) 1 4 true (7 ∷ 8 ∷ []) dpos undelegated_4 1 refl balanced
      undelegate_runs
