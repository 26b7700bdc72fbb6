-- ===== src/Dpos/Rewards.antt =====
-- The rewards per stake: the states of a validator at blocks, with the number of references to each,
-- and the reward of a delegation (`state_get`, `state_get_and_decrement`, `state_put`,
-- `calculateRewardPer1Stake` and `calculateDelegatorReward` of dpos_contract.go).
use taraxa_evm.Prelude.{
  ℕ, ◌+◌, ◌-◌, ◌*◌, ◌/◌, ◌%◌, ◌^◌, not, ltb, ◌==◌, if◌then◌else◌, Option, none, some,
}
use taraxa_evm.Dpos.State.{
  Config, State, Validator, ValidatorRewards, Delegation, Call, M, pure, gets, modify, assert,
  some_or_panic, update2, add_log, transfer_contract_balance, rewards_claimed, ◌>>=◌, ◌>>◌,
}

abbrev pub u32_mod : ℕ
u32_mod = 2 ^ 32

unfoldable pub state_get : (validator block : ℕ) → M (Option State)
state_get v block = gets (λ s. s.state v block)

unfoldable pub state_put : (validator block : ℕ) → Option State → M (Unit {0})
state_put v block state = modify (λ s. record s { state = update2 s.state v block state })

-- Count--, on 32 bits
abbrev pub decremented : State → State
decremented state = record state { count = (state.count + u32_mod - 1) % u32_mod }

-- Count++, on 32 bits
abbrev pub incremented : State → State
incremented state = record state { count = (state.count + 1) % u32_mod }

unfoldable pub state_get_and_decrement : (validator block : ℕ) → M State
state_get_and_decrement v block = do
  o ← state_get v block
  old ← some_or_panic o
  let state : State = decremented old
  state_put v block (if state.count == 0 then none else some state)
  pure state

-- The state at this block, with the validator and its rewards as they are brought up to the block.
pub record Current : Type 0 where
  pub state : State
  pub validator : Validator
  pub rewards : ValidatorRewards

-- A stake of 0 is divided by nowhere: the callers test it.
unfoldable pub calculate_reward_per_1_stake : Config → (rewards_pool stake : ℕ) → ℕ
calculate_reward_per_1_stake cfg rewards_pool stake =
    rewards_pool * cfg.validator_maximum_stake / stake

-- if state == nil { ... }: the old state is left by the validator, and the pool goes to the stake.
unfoldable pub current_state :
    Config → (block : ℕ) → (address : ℕ) → Option State → Validator → ValidatorRewards → M Current
current_state cfg block address (some state) val rewards =
    pure (record { state = state; validator = val; rewards = rewards })
current_state cfg block address none val rewards = do
  old_state ← state_get_and_decrement address val.last_updated
  let per_stake : ℕ =
      (if ltb 0 val.total_stake
        then calculate_reward_per_1_stake cfg rewards.rewards_pool val.total_stake
        else 0)
  pure (record {
    state = record { rewards_per_1_stake = old_state.rewards_per_1_stake + per_stake; count = 1 };
    validator = record val { last_updated = block };
    rewards = record rewards { rewards_pool = 0 };
  })

-- A maximum stake of 0 is a division by zero.
unfoldable pub calculate_delegator_reward : Config → (reward_per_1_stake stake : ℕ) → M ℕ
calculate_delegator_reward cfg reward_per_1_stake stake = do
  assert (not (cfg.validator_maximum_stake == 0))
  pure (reward_per_1_stake * stake / cfg.validator_maximum_stake)

unfoldable pub pay_reward : Call → (validator reward : ℕ) → M (Unit {0})
pay_reward ctx v reward =
    if ltb 0 reward
    then transfer_contract_balance ctx reward >> add_log (rewards_claimed ctx.caller v reward)
    else pure tt

-- "We need to claim rewards first": the delegation leaves its old state and is paid the difference.
-- A negative difference, which is 0 here, pays nothing in the code either.
unfoldable pub claim_delegation :
    Config → Call → (validator : ℕ) → State → Delegation → M (Unit {0})
claim_delegation cfg ctx v state delegation = do
  old_state ← state_get_and_decrement v delegation.last_updated
  reward ←
      calculate_delegator_reward cfg (state.rewards_per_1_stake - old_state.rewards_per_1_stake)
        delegation.stake
  pay_reward ctx v reward
