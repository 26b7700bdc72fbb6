-- ===== src/Dpos/Stuck/Others.antt =====
-- The steps of `redelegate` of dpos_contract.go beside a validator whose state of the block is not
-- saved.
use taraxa_evm.Prelude.{ℕ, ◌≡◌, ◌≢◌, Bool, Option, none, some, arith}
use taraxa_evm.Dpos.State.{
  Config, State, Stored, Validator, ValidatorRewards, Delegation, Call, Log, Dpos, ◌>>=◌, ◌>>◌,
  pure, panic, modify, add_log, transfer_contract_balance, gets, some_or_panic,
}
use taraxa_evm.Dpos.Votes.{update_vote_count, add64p}
use taraxa_evm.Dpos.Validators.{modify_validator, modify_validator_rewards}
use taraxa_evm.Dpos.Delegations.{
  modify_delegation, create_delegation, remove_delegation, delegation_exists,
}
use taraxa_evm.Dpos.Rewards.{
  state_get, state_put, state_get_and_decrement, current_state, calculate_delegator_reward,
  pay_reward, claim_delegation,
}
use taraxa_evm.Dpos.Stake.Common.{add_stake, reduce_delegation, save_all}
use taraxa_evm.Dpos.Stake.{recount}
use taraxa_evm.Dpos.Redelegate.{redelegate_to}
use taraxa_evm.Dpos.Errors.{Reads-panic}
use taraxa_evm.Dpos.Errors.Steps.{getters}
use taraxa_evm.Dpos.Meets.{Keeps, keeps_rules, Keeps-bind, Keeps-then, Keeps-Reads}

-- The validator `v` is stored as `st`, and no state of it is saved at the blocks `b` and `c`.
abbrev pub Left : (v b c : ℕ) → Stored → Dpos → Type 0
Left v b c st s = (s.state v b ≡ none) × (s.state v c ≡ none) × (s.validator v ≡ some st)

module _ (v b c : ℕ) (st : Stored) where
  pub Keeps-decrement : (w d : ℕ) → Keeps (Left v b c st) (state_get_and_decrement w d)
  unfolding state_get_and_decrement state_get state_put ◌>>=◌ ◌>>◌ gets some_or_panic pure modify
      panic
  Keeps-decrement w d = record { at = λ s p. ground arith }

  Keeps-transfer : (ctx : Call) (n : ℕ) → Keeps (Left v b c st) (transfer_contract_balance ctx n)
  unfolding transfer_contract_balance
  Keeps-transfer ctx n = record { at = λ s p. ground arith }

  pub Keeps-add_log : (l : Log) → Keeps (Left v b c st) (add_log l)
  unfolding add_log
  Keeps-add_log l = search (keeps_rules, getters) depth 20

  pub Keeps-claim :
      (cfg : Config) (ctx : Call) (w : ℕ) (state : State) (d : Delegation)
      → Keeps (Left v b c st) (claim_delegation cfg ctx w state d)
  unfolding claim_delegation calculate_delegator_reward pay_reward
  Keeps-claim cfg ctx w state d =
      search (keeps_rules, getters, Keeps-decrement, Keeps-transfer, Keeps-add_log) depth 30

  Keeps-modify_delegation :
      (d w : ℕ) (o : Delegation) → Keeps (Left v b c st) (modify_delegation d w o)
  unfolding modify_delegation delegation_exists
  Keeps-modify_delegation d w o = search (keeps_rules, getters) depth 30

  Keeps-create_delegation : (d w x y : ℕ) → Keeps (Left v b c st) (create_delegation d w x y)
  unfolding create_delegation
  Keeps-create_delegation d w x y = search (keeps_rules, getters) depth 30

  Keeps-remove_delegation : (d w : ℕ) → Keeps (Left v b c st) (remove_delegation d w)
  unfolding remove_delegation
  Keeps-remove_delegation d w = search (keeps_rules, getters) depth 30

  Keeps-modify_rewards :
      (w : ℕ) (r : ValidatorRewards) → Keeps (Left v b c st) (modify_validator_rewards w r)
  unfolding modify_validator_rewards
  Keeps-modify_rewards w r = search (keeps_rules, getters) depth 30

  pub Keeps-recount :
      (cfg : Config) (ctx : Call) (p n : ℕ) → Keeps (Left v b c st) (recount cfg ctx p n)
  unfolding recount update_vote_count add64p
  Keeps-recount cfg ctx p n = search (keeps_rules, getters, Reads-panic) depth 30

  ruleset other_steps = (
    keeps_rules, getters, Keeps-decrement, Keeps-transfer, Keeps-add_log, Keeps-claim,
    Keeps-modify_delegation, Keeps-create_delegation, Keeps-remove_delegation, Keeps-modify_rewards,
    Keeps-recount,
  )

  pub Keeps-reduce :
      (ctx : Call) (w n : ℕ) (state : State)
      → Keeps (Left v b c st) (reduce_delegation ctx w n state)
  unfolding reduce_delegation
  Keeps-reduce ctx w n state = search other_steps depth 30

  Keeps-add_stake :
      (cfg : Config) (ctx : Call) (w n : ℕ) (state : State) (d : Option Delegation)
      → Keeps (Left v b c st) (add_stake cfg ctx w n state d)
  unfolding add_stake
  Keeps-add_stake cfg ctx w n state none = search other_steps depth 30
  Keeps-add_stake cfg ctx w n state (some d) = search other_steps depth 30

  -- Steps at another validator.
  module _ (w : ℕ) (other : w ≢ v) where
    Keeps-state_put : (d : ℕ) (o : Option State) → Keeps (Left v b c st) (state_put w d o)
    unfolding state_put modify
    Keeps-state_put d o = record { at = λ s p. ground arith }

    Keeps-modify_validator :
        (e : Bool) (val : Validator) → Keeps (Left v b c st) (modify_validator e w val)
    unfolding modify_validator modify
    Keeps-modify_validator e val = Keeps-bind _ _ (Keeps-Reads _ (search getters)) (λ known.
        Keeps-then _ _ (Keeps-Reads _ (search getters)) (record { at = λ s p. ground arith }))

    Keeps-current :
        (cfg : Config) (d : ℕ) (o : Option State) (val : Validator) (r : ValidatorRewards)
        → Keeps (Left v b c st) (current_state cfg d w o val r)
    unfolding current_state
    Keeps-current cfg d none val r = search other_steps depth 30
    Keeps-current cfg d (some state) val r = search other_steps depth 30

    Keeps-save_all :
        (cfg : Config) (ctx : Call) (state : State) (val : Validator) (r : ValidatorRewards)
        → Keeps (Left v b c st) (save_all cfg ctx w state val r)
    unfolding save_all
    Keeps-save_all cfg ctx state val r =
        search (other_steps, Keeps-state_put, Keeps-modify_validator) depth 30

    pub Keeps-redelegate_to :
        (cfg : Config) (ctx : Call) (n : ℕ) (val : Validator) (r : ValidatorRewards) (p : ℕ)
        → Keeps (Left v b c st) (redelegate_to cfg ctx w n val r p)
    unfolding redelegate_to
    Keeps-redelegate_to cfg ctx n val r p =
        search (other_steps, Keeps-current, Keeps-add_stake, Keeps-save_all) depth 40
