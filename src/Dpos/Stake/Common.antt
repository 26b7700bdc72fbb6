-- ===== src/Dpos/Stake/Common.antt =====
-- Steps that the methods on stakes share, which the source writes out in each.
use taraxa_evm.Prelude.{
  ℕ, ◌+◌, ◌-◌, ◌^◌, Bool, true, false, ◌||◌, leb, ltb, ◌==◌, if◌then◌else◌, Option, none, some,
}
use taraxa_evm.Dpos.State.{
  Config, State, Validator, ValidatorRewards, Delegation, Call, M, pure, ◌>>◌,
  is_on_magnolia_hardfork,
}
use taraxa_evm.Dpos.Validators.{modify_validator, modify_validator_rewards}
use taraxa_evm.Dpos.Delegations.{create_delegation, modify_delegation, remove_delegation}
use taraxa_evm.Dpos.Rewards.{claim_delegation, incremented, state_put}

abbrev pub u16_mod : ℕ
u16_mod = 2 ^ 16

-- if UndelegationsCount > 0 { UndelegationsCount-- }
unfoldable pub uncount : Validator → Validator
uncount val = record val { undelegations_count = val.undelegations_count - 1 }

-- A new delegation must reach the minimum deposit.
unfoldable pub enough : Config → Option Delegation → (value : ℕ) → Bool
enough cfg none value = leb cfg.minimum_deposit value
enough cfg (some d) value = true

-- What is left of a stake is nothing or at least the minimum deposit.
unfoldable pub leaves_enough : Config → (stake amount : ℕ) → Bool
leaves_enough cfg stake amount =
    if ltb stake amount then false else stake == amount || leb cfg.minimum_deposit (stake - amount)

-- A delegation is created with the amount, or its rewards are claimed and the amount is added.
unfoldable pub add_stake :
    Config → Call → (validator amount : ℕ) → State → Option Delegation → M (Unit {0})
add_stake cfg ctx v amount state none = create_delegation ctx.caller v ctx.block amount
add_stake cfg ctx v amount state (some delegation) = do
  claim_delegation cfg ctx v state delegation
  modify_delegation ctx.caller v
      (record { stake = delegation.stake + amount; last_updated = ctx.block })

-- A delegation whose stake is gone is removed; any other refers to the state of this block.
unfoldable pub reduce_delegation : Call → (validator stake : ℕ) → State → M State
reduce_delegation ctx v stake state =
    if stake == 0
    then remove_delegation ctx.caller v >> pure state
    else modify_delegation ctx.caller v (record { stake = stake; last_updated = ctx.block })
      >> pure (incremented state)

-- state_put, ModifyValidator, ModifyValidatorRewards
unfoldable pub save_all :
    Config → Call → (validator : ℕ) → State → Validator → ValidatorRewards → M (Unit {0})
save_all cfg ctx v state val rewards = do
  state_put v ctx.block (some state)
  modify_validator (is_on_magnolia_hardfork cfg ctx.block) v val
  modify_validator_rewards v rewards
