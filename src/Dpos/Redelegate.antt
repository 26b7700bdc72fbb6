-- ===== src/Dpos/Redelegate.antt =====
-- `redelegate`, `claimRewards`, `claimAllRewards` and `claimCommissionRewards` of dpos_contract.go.
use taraxa_evm.Prelude.{
  ℕ, ◌+◌, ◌-◌, ◌*◌, ◌%◌, ◌^◌, take, drop, not, ◌&&◌, ◌||◌, ltb, leb, ◌==◌, if◌then◌else◌, Option,
  none, some, List, [], ◌∷◌,
}
use taraxa_evm.Dpos.State.{
  Config, State, Validator, ValidatorRewards, Call, M, pure, assert, require, some_or, ◌>>=◌, ◌>>◌,
  add_log, transfer_contract_balance, is_on_magnolia_hardfork, is_on_phalaenopsis_hardfork,
  is_on_ficus_hardfork, is_on_aspen_hardfork_part_two, same_validator, invalid_redelegation,
  non_existent_validator, non_existent_delegation, validators_max_stake_exceeded,
  insufficient_delegation, wrong_owner_acc, redelegated, commission_rewards_claimed,
}
use taraxa_evm.Dpos.Votes.{vote_count}
use taraxa_evm.Dpos.Validators.{
  get_validator, get_validator_rewards, modify_validator, modify_validator_rewards,
  delete_validator, check_validator_owner,
}
use taraxa_evm.Dpos.Delegations.{
  get_delegation, modify_delegation, get_all_delegator_validators_addresses,
}
use taraxa_evm.Dpos.Rewards.{
  current_state, state_get, state_put, state_get_and_decrement, claim_delegation, incremented,
}
use taraxa_evm.Dpos.Stake.{recount}
use taraxa_evm.Dpos.Stake.Common.{add_stake, leaves_enough, reduce_delegation, save_all}

abbrev pub claim_all_rewards_max_count : ℕ
claim_all_rewards_max_count = 10

module _ (cfg : Config) where
  -- What becomes of the validator that the stake leaves.
  unfoldable pub leave_validator :
      Call → (validator : ℕ) → State → Validator → ValidatorRewards → M (Unit {0})
  leave_validator ctx v state val rewards =
      if (val.total_stake == 0) && (rewards.commission_rewards_pool == 0)
      then (if not (is_on_magnolia_hardfork cfg ctx.block) || (val.undelegations_count == 0)
          then delete_validator v >> state_put v ctx.block none
          else if is_on_ficus_hardfork cfg ctx.block
          then modify_validator (is_on_magnolia_hardfork cfg ctx.block) v val
          else pure tt)
      else save_all cfg ctx v state val rewards

  -- "First we undelegate"
  unfoldable pub redelegate_from :
      Call
      → (validator amount : ℕ) → Validator
      → ValidatorRewards
      → (prev_vote_count : ℕ) → M (Unit {0})
  redelegate_from ctx v amount val rewards prev_vote_count = do
    found ← get_delegation ctx.caller v
    delegation ← some_or found non_existent_delegation
    require (leaves_enough cfg delegation.stake amount) insufficient_delegation
    known ← state_get v ctx.block
    current ← current_state cfg ctx.block v known val rewards
    claim_delegation cfg ctx v current.state delegation
    assert (leb amount val.total_stake)
    state ← reduce_delegation ctx v (delegation.stake - amount) current.state
    let left : Validator = record current.validator { total_stake = val.total_stake - amount }
    leave_validator ctx v state left current.rewards
    recount cfg ctx prev_vote_count left.total_stake

  -- "Now we delegate"
  unfoldable pub redelegate_to :
      Call
      → (validator amount : ℕ) → Validator
      → ValidatorRewards
      → (prev_vote_count : ℕ) → M (Unit {0})
  redelegate_to ctx v amount val rewards prev_vote_count = do
    known ← state_get v ctx.block
    current ← current_state cfg ctx.block v known val rewards
    delegation ← get_delegation ctx.caller v
    add_stake cfg ctx v amount current.state delegation
    let grown : Validator = record current.validator { total_stake = val.total_stake + amount }
    recount cfg ctx prev_vote_count grown.total_stake
    save_all cfg ctx v (incremented current.state) grown current.rewards

  unfoldable pub redelegate : Call → (validator_from validator_to amount : ℕ) → M (Unit {0})
  redelegate ctx from to amount = do
    require (not (ltb cfg.fix_redelegate_block_num ctx.block && (from == to))) same_validator
    require (not (is_on_aspen_hardfork_part_two cfg ctx.block && (amount == 0)))
        invalid_redelegation
    found_from ← get_validator from
    val_from ← some_or found_from non_existent_validator
    rewards_from ← get_validator_rewards from
    found_to ← get_validator to
    val_to ← some_or found_to non_existent_validator
    rewards_to ← get_validator_rewards to
    require
        (cfg.validator_maximum_stake == 0
          || leb (amount + val_to.total_stake) cfg.validator_maximum_stake)
        validators_max_stake_exceeded
    prev_vote_count_from ← vote_count cfg val_from.total_stake ctx.block
    prev_vote_count_to ← vote_count cfg val_to.total_stake ctx.block
    redelegate_from ctx from amount val_from rewards_from prev_vote_count_from
    redelegate_to ctx to amount val_to rewards_to prev_vote_count_to
    add_log (redelegated ctx.caller from to amount)

  -- The state of this block for a claim: a new one is saved with the validator.
  unfoldable pub claim_state : Call → (validator : ℕ) → Option State → M State
  claim_state ctx v (some state) = pure state
  claim_state ctx v none = do
    found ← get_validator v
    val ← some_or found non_existent_validator
    rewards ← get_validator_rewards v
    current ← current_state cfg ctx.block v none val rewards
    modify_validator (is_on_magnolia_hardfork cfg ctx.block) v current.validator
    modify_validator_rewards v current.rewards
    pure current.state

  unfoldable pub claim_rewards : Call → (validator : ℕ) → M (Unit {0})
  claim_rewards ctx v = do
    found ← get_delegation ctx.caller v
    delegation ← some_or found non_existent_delegation
    known ← state_get v ctx.block
    state ← claim_state ctx v known
    claim_delegation cfg ctx v state delegation
    modify_delegation ctx.caller v (record delegation { last_updated = ctx.block })
    state_put v ctx.block (some (incremented state))

  -- The loop stops at the first error, to whose text the code adds the validator.
  unfoldable pub claim_each : Call → List ℕ → M (Unit {0})
  claim_each ctx [] = pure tt
  claim_each ctx (v ∷ vs) = claim_rewards ctx v >> claim_each ctx vs

  unfoldable pub claim_all_rewards : Call → M (Unit {0})
  claim_all_rewards ctx = do
    validators ← get_all_delegator_validators_addresses ctx.caller
    claim_each ctx validators

  -- The batch of `GetDelegatorValidatorsAddresses`, which is a part of the list.
  unfoldable pub claim_all_rewards_pre_aspen_hf : Call → (batch : ℕ) → M (Unit {0})
  claim_all_rewards_pre_aspen_hf ctx batch = do
    validators ← get_all_delegator_validators_addresses ctx.caller
    claim_each ctx (
        take claim_all_rewards_max_count
          (drop (batch * claim_all_rewards_max_count % 2 ^ 32) validators))

  -- The validator whose commission was claimed.
  unfoldable pub settle_commission :
      Call → (validator : ℕ) → Validator → ValidatorRewards → M (Unit {0})
  settle_commission ctx v val rewards =
      if val.total_stake == 0
      then (if not (is_on_magnolia_hardfork cfg ctx.block) || (val.undelegations_count == 0)
          then (delete_validator v >> state_get_and_decrement v val.last_updated) >>= (λ s. pure tt)
          else if is_on_phalaenopsis_hardfork cfg ctx.block
          then modify_validator_rewards v rewards
          else pure tt)
      else modify_validator_rewards v rewards

  unfoldable pub claim_commission_rewards : Call → (validator : ℕ) → M (Unit {0})
  claim_commission_rewards ctx v = do
    owned ← check_validator_owner ctx.caller v
    require owned wrong_owner_acc
    found ← get_validator v
    val ← some_or found non_existent_validator
    rewards ← get_validator_rewards v
    transfer_contract_balance ctx rewards.commission_rewards_pool
    add_log (commission_rewards_claimed ctx.caller v rewards.commission_rewards_pool)
    settle_commission ctx v val (record rewards { commission_rewards_pool = 0 })
