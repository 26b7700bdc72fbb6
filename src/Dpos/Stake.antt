-- ===== src/Dpos/Stake.antt =====
-- `delegate`, `undelegate`, `confirmUndelegate` and `cancelUndelegate` of dpos_contract.go.
--
-- The rewards of a validator are read where the code reads them; where they are absent the model
-- panics there, and the code at their first use.
pub mod Common
use taraxa_evm.Prelude.{
  ℕ, ◌+◌, ◌-◌, ◌%◌, ◌^◌, Bool, true, false, not, ◌&&◌, ◌||◌, ltb, leb, ◌==◌, if◌then◌else◌, Option,
  none, some,
}
use taraxa_evm.Dpos.State.{
  Config, State, Validator, ValidatorRewards, Delegation, UndelegationV1, Dpos, Call, M, pure, fail,
  panic, gets, modify, assert, require, some_or, some_or_panic, ◌>>=◌, ◌>>◌, add_log,
  transfer_contract_balance, is_on_magnolia_hardfork, is_on_ficus_hardfork, is_on_cornus_hardfork,
  non_existent_validator, validators_max_stake_exceeded, insufficient_delegation,
  existent_undelegation, non_existent_delegation, non_existent_undelegation, locked_undelegation,
  delegated, undelegated_v1, undelegated_v2, undelegate_confirmed_v1, undelegate_confirmed_v2,
  undelegate_canceled_v1, undelegate_canceled_v2,
}
use taraxa_evm.Dpos.Votes.{
  vote_count, update_vote_count, add_amount_delegated, sub_amount_delegated, u64_mod,
}
use taraxa_evm.Dpos.Validators.{
  get_validator, get_validator_rewards, modify_validator, modify_validator_rewards,
  delete_validator,
}
use taraxa_evm.Dpos.Delegations.{
  get_delegation, create_delegation, modify_delegation, remove_delegation,
}
use taraxa_evm.Dpos.Undelegations.{
  undelegation_exists, get_undelegation_base_object, remove_undelegation, create_undelegation_v1,
  create_undelegation_v2,
}
use taraxa_evm.Dpos.Rewards.{
  Current, current_state, incremented, state_get, state_put, state_get_and_decrement,
  claim_delegation,
}
use taraxa_evm.Dpos.Stake.Common.{
  add_stake, enough, leaves_enough, reduce_delegation, save_all, u16_mod, uncount,
}

module _ (cfg : Config) where
  -- if prev != new { ... } after the validator's stake has changed
  unfoldable pub recount : Call → (prev_vote_count total_stake : ℕ) → M (Unit {0})
  recount ctx prev_vote_count total_stake = do
    new_vote_count ← vote_count cfg total_stake ctx.block
    update_vote_count prev_vote_count new_vote_count

  -- The change of the validator's stake, of the total and of the votes.
  unfoldable pub delegate_update_values : Call → Validator → (prev_vote_count : ℕ) → M Validator
  delegate_update_values ctx val prev_vote_count = do
    add_amount_delegated ctx.value
    recount ctx prev_vote_count (val.total_stake + ctx.value)
    pure (record val { total_stake = val.total_stake + ctx.value })

  unfoldable pub delegate : Call → (validator : ℕ) → M (Unit {0})
  delegate ctx v = do
    found ← get_validator v
    val ← some_or found non_existent_validator
    rewards ← get_validator_rewards v
    require (leb (ctx.value + val.total_stake) cfg.validator_maximum_stake)
        validators_max_stake_exceeded
    delegation ← get_delegation ctx.caller v
    require (enough cfg delegation ctx.value) insufficient_delegation
    known ← state_get v ctx.block
    current ← current_state cfg ctx.block v known val rewards
    prev_vote_count ← vote_count cfg val.total_stake ctx.block
    add_stake cfg ctx v ctx.value current.state delegation
    val' ← delegate_update_values ctx current.validator prev_vote_count
    save_all cfg ctx v (incremented current.state) val' current.rewards
    add_log (delegated ctx.caller v ctx.value)

  -- An undelegation of the first version must not exist yet.
  abbrev pub require_no_undelegation : Call → (validator : ℕ) → (v2 : Bool) → M (Unit {0})
  require_no_undelegation ctx v true = pure tt
  require_no_undelegation ctx v false = do
    known ← undelegation_exists ctx.caller v none
    require (not known) existent_undelegation

  -- A stake that would be negative panics where the validator is encoded.
  unfoldable pub reduced : Validator → (amount : ℕ) → M Validator
  reduced val amount = do
    assert (leb amount val.total_stake)
    pure (record val {
      total_stake = val.total_stake - amount;
      undelegations_count = (val.undelegations_count + 1) % u16_mod;
    })

  -- Before the magnolia hardfork a validator without stake and rewards is deleted.
  unfoldable pub delete_or_save :
      Call → (validator : ℕ) → State → Validator → ValidatorRewards → M (Unit {0})
  delete_or_save ctx v state val rewards =
      if not (is_on_magnolia_hardfork cfg ctx.block)
        && (val.total_stake == 0)
        && (rewards.commission_rewards_pool == 0)
      then delete_validator v >> state_put v ctx.block none
      else save_all cfg ctx v state val rewards

  abbrev pub locking_period : (block : ℕ) → ℕ
  locking_period block =
      if is_on_cornus_hardfork cfg block
      then cfg.cornus_delegation_locking_period
      else cfg.delegation_locking_period

  unfoldable pub create_undelegation : Call → (validator amount : ℕ) → (v2 : Bool) → M ℕ
  create_undelegation ctx v amount true = do
    id ←
        create_undelegation_v2 ctx.caller v ((ctx.block + locking_period ctx.block) % u64_mod)
          amount
    add_log (undelegated_v2 ctx.caller v id amount)
    pure id
  create_undelegation ctx v amount false = do
    create_undelegation_v1 ctx.caller v ((ctx.block + locking_period ctx.block) % u64_mod) amount
    add_log (undelegated_v1 ctx.caller v amount)
    pure 0

  unfoldable pub undelegate : Call → (validator amount : ℕ) → (v2 : Bool) → M ℕ
  undelegate ctx v amount v2 = do
    require_no_undelegation ctx v v2
    found ← get_validator v
    val ← some_or found non_existent_validator
    rewards ← get_validator_rewards v
    found_delegation ← get_delegation ctx.caller v
    delegation ← some_or found_delegation non_existent_delegation
    require (leaves_enough cfg delegation.stake amount) insufficient_delegation
    prev_vote_count ← vote_count cfg val.total_stake ctx.block
    known ← state_get v ctx.block
    current ← current_state cfg ctx.block v known val rewards
    claim_delegation cfg ctx v current.state delegation
    val' ← reduced current.validator amount
    state ← reduce_delegation ctx v (delegation.stake - amount) current.state
    sub_amount_delegated amount
    recount ctx prev_vote_count val'.total_stake
    delete_or_save ctx v state val' current.rewards
    create_undelegation ctx v amount v2

  -- The validator of a confirmed undelegation, where it still exists.
  unfoldable pub settle_validator : Call → (validator : ℕ) → Option Validator → M (Unit {0})
  settle_validator ctx v none = pure tt
  settle_validator ctx v (some found) = do
    let val : Validator = uncount found
    rewards ← get_validator_rewards v
    if (val.undelegations_count == 0)
          && (val.total_stake == 0)
          && (rewards.commission_rewards_pool == 0)
        then (delete_validator v >> state_get_and_decrement v val.last_updated) >>= (λ s. pure tt)
        else if is_on_ficus_hardfork cfg ctx.block
        then modify_validator (is_on_magnolia_hardfork cfg ctx.block) v val
        else pure tt

  abbrev pub confirmed_log : Call → (validator : ℕ) → Option ℕ → (amount : ℕ) → M (Unit {0})
  confirmed_log ctx v none amount = add_log (undelegate_confirmed_v1 ctx.caller v amount)
  confirmed_log ctx v (some id) amount = add_log (undelegate_confirmed_v2 ctx.caller v id amount)

  unfoldable pub confirm_undelegate : Call → (validator : ℕ) → Option ℕ → M (Unit {0})
  confirm_undelegate ctx v id = do
    known ← undelegation_exists ctx.caller v id
    require known non_existent_undelegation
    found ← get_undelegation_base_object ctx.caller v id
    undelegation ← some_or_panic found
    require (leb undelegation.block ctx.block) locked_undelegation
    remove_undelegation ctx.caller v id
    val ← get_validator v
    if is_on_magnolia_hardfork cfg ctx.block then settle_validator ctx v val else pure tt
    transfer_contract_balance ctx undelegation.amount
    confirmed_log ctx v id undelegation.amount

  abbrev pub canceled_log : Call → (validator : ℕ) → Option ℕ → (amount : ℕ) → M (Unit {0})
  canceled_log ctx v none amount = add_log (undelegate_canceled_v1 ctx.caller v amount)
  canceled_log ctx v (some id) amount = add_log (undelegate_canceled_v2 ctx.caller v id amount)

  unfoldable pub cancel_undelegate : Call → (validator : ℕ) → Option ℕ → M (Unit {0})
  cancel_undelegate ctx v id = do
    exists ← undelegation_exists ctx.caller v id
    require exists non_existent_undelegation
    found ← get_validator v
    val ← some_or found non_existent_validator
    rewards ← get_validator_rewards v
    prev_vote_count ← vote_count cfg val.total_stake ctx.block
    found_undelegation ← get_undelegation_base_object ctx.caller v id
    undelegation ← some_or_panic found_undelegation
    remove_undelegation ctx.caller v id
    known ← state_get v ctx.block
    current ← current_state cfg ctx.block v known val rewards
    delegation ← get_delegation ctx.caller v
    add_stake cfg ctx v undelegation.amount current.state delegation
    let grown : ℕ = val.total_stake + undelegation.amount
    add_amount_delegated undelegation.amount
    recount ctx prev_vote_count grown
    save_all cfg ctx v (incremented current.state)
        (record (uncount current.validator) { total_stake = grown }) current.rewards
    canceled_log ctx v id undelegation.amount
