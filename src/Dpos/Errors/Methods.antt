-- ===== src/Dpos/Errors/Methods.antt =====
-- Errors of the methods of dpos_contract.go: their checks, and the parts that come after them.
use taraxa_evm.Prelude.{ℕ, ◌≡◌, subst, Bool, true, false, Option, none, some, Bytes}
use taraxa_evm.Dpos.State.{
  Config, State, Validator, ValidatorRewards, Delegation, DposError, Call, Dpos, failed,
}
use taraxa_evm.Dpos.Stake.Common.{add_stake, reduce_delegation, save_all}
use taraxa_evm.Dpos.Stake.{
  recount, delegate_update_values, delegate, reduced, delete_or_save, create_undelegation,
  undelegate, settle_validator, confirm_undelegate, cancel_undelegate, confirmed_log, canceled_log,
}
use taraxa_evm.Dpos.Redelegate.{
  leave_validator, redelegate_from, redelegate_to, redelegate, claim_state, claim_rewards,
  settle_commission, claim_commission_rewards,
}
use taraxa_evm.Dpos.Registry.{
  RegisterValidatorArgs, first_delegation, register_validator_without_checks, validate_proof,
  register_validator, set_validator_info, set_commission,
}
use taraxa_evm.Dpos.Run.{
  Method, run_method, dispatch, since_cornus, delegate_to, claim_rewards_of,
  claim_commission_rewards_of, undelegate_from, undelegate_v2_from, confirm, cancel, confirm_v2,
  cancel_v2, redelegate_between, claim_all, register, set_info, change_commission,
}
use taraxa_evm.Dpos.Errors.{
  Never, Clean, AtError, Clean-Never, Clean-if, Clean-some_or, Clean-require, Clean-bind-Reads,
  Clean-bind-Never, Clean-then-Reads, Clean-then-Never, Reads-require,
}
use taraxa_evm.Dpos.Errors.Steps.{getters, writes}

module _ (cfg : Config) where
  Never-add_stake :
      (ctx : Call) (v n : ℕ) (state : State) (d : Option Delegation)
      → Never (add_stake cfg ctx v n state d)
  unfolding add_stake
  Never-add_stake ctx v n state none = search writes depth 30
  Never-add_stake ctx v n state (some d) = search writes depth 30

  Never-reduce_delegation :
      (ctx : Call) (v n : ℕ) (state : State) → Never (reduce_delegation ctx v n state)
  unfolding reduce_delegation
  Never-reduce_delegation ctx v n state = search writes depth 30

  Never-save_all :
      (ctx : Call) (v : ℕ) (state : State) (val : Validator) (r : ValidatorRewards)
      → Never (save_all cfg ctx v state val r)
  unfolding save_all
  Never-save_all ctx v state val r = search writes depth 30

  Never-recount : (ctx : Call) (p n : ℕ) → Never (recount cfg ctx p n)
  unfolding recount
  Never-recount ctx p n = search writes depth 30

  ruleset tails = (writes, Never-add_stake, Never-reduce_delegation, Never-save_all, Never-recount)

  Never-delegate_update :
      (ctx : Call) (val : Validator) (p : ℕ) → Never (delegate_update_values cfg ctx val p)
  unfolding delegate_update_values
  Never-delegate_update ctx val p = search tails depth 30

  Never-reduced : (val : Validator) (n : ℕ) → Never (reduced cfg val n)
  unfolding reduced
  Never-reduced val n = search tails depth 30

  Never-delete_or_save :
      (ctx : Call) (v : ℕ) (state : State) (val : Validator) (r : ValidatorRewards)
      → Never (delete_or_save cfg ctx v state val r)
  unfolding delete_or_save
  Never-delete_or_save ctx v state val r = search tails depth 30

  Never-create_undelegation :
      (ctx : Call) (v n : ℕ) (b : Bool) → Never (create_undelegation cfg ctx v n b)
  unfolding create_undelegation
  Never-create_undelegation ctx v n true = search tails depth 30
  Never-create_undelegation ctx v n false = search tails depth 30

  Never-settle_validator :
      (ctx : Call) (v : ℕ) (o : Option Validator) → Never (settle_validator cfg ctx v o)
  unfolding settle_validator
  Never-settle_validator ctx v none = search tails depth 30
  Never-settle_validator ctx v (some val) = search tails depth 30

  Never-confirmed_log :
      (ctx : Call) (v : ℕ) (o : Option ℕ) (n : ℕ) → Never (confirmed_log cfg ctx v o n)
  Never-confirmed_log ctx v none n = search tails depth 30
  Never-confirmed_log ctx v (some id) n = search tails depth 30

  Never-canceled_log :
      (ctx : Call) (v : ℕ) (o : Option ℕ) (n : ℕ) → Never (canceled_log cfg ctx v o n)
  Never-canceled_log ctx v none n = search tails depth 30
  Never-canceled_log ctx v (some id) n = search tails depth 30

  Never-leave_validator :
      (ctx : Call) (v : ℕ) (state : State) (val : Validator) (r : ValidatorRewards)
      → Never (leave_validator cfg ctx v state val r)
  unfolding leave_validator
  Never-leave_validator ctx v state val r = search tails depth 30

  Never-redelegate_to :
      (ctx : Call) (v n : ℕ) (val : Validator) (r : ValidatorRewards) (p : ℕ)
      → Never (redelegate_to cfg ctx v n val r p)
  unfolding redelegate_to
  Never-redelegate_to ctx v n val r p = search tails depth 40

  Never-settle_commission :
      (ctx : Call) (v : ℕ) (val : Validator) (r : ValidatorRewards)
      → Never (settle_commission cfg ctx v val r)
  unfolding settle_commission
  Never-settle_commission ctx v val r = search tails depth 30

  Never-first_delegation :
      (ctx : Call) (v : ℕ) (val : Validator) → Never (first_delegation cfg ctx v val)
  unfolding first_delegation
  Never-first_delegation ctx v val = search (tails, Never-delegate_update) depth 30

  ruleset ends = (
    tails, Never-delegate_update, Never-reduced, Never-delete_or_save, Never-create_undelegation,
    Never-settle_validator, Never-confirmed_log, Never-canceled_log, Never-leave_validator,
    Never-redelegate_to, Never-settle_commission, Never-first_delegation,
  )

  ruleset checks = (
    getters, Clean-some_or, Clean-require, Clean-bind-Reads, Clean-then-Reads, Clean-bind-Never,
    Clean-then-Never, Clean-if, Clean-Never, ends,
  )

  Clean-set_validator_info :
      (ctx : Call) (v : ℕ) (x y : Bytes) → Clean (set_validator_info cfg ctx v x y)
  unfolding set_validator_info
  Clean-set_validator_info ctx v x y = search checks depth 40

  Clean-set_commission : (ctx : Call) (v n : ℕ) → Clean (set_commission cfg ctx v n)
  unfolding set_commission
  Clean-set_commission ctx v n = search checks depth 40

  Clean-claim_commission : (ctx : Call) (v : ℕ) → Clean (claim_commission_rewards cfg ctx v)
  unfolding claim_commission_rewards
  Clean-claim_commission ctx v = search checks depth 40

  Clean-delegate : (ctx : Call) (v : ℕ) → Clean (delegate cfg ctx v)
  unfolding delegate
  Clean-delegate ctx v = search checks depth 60

  Clean-undelegate : (ctx : Call) (v n : ℕ) (v2 : Bool) → Clean (undelegate cfg ctx v n v2)
  unfolding undelegate
  Clean-undelegate ctx v n true = search checks depth 60 fits 20000
  Clean-undelegate ctx v n false = search checks depth 60 fits 20000

  Clean-confirm : (ctx : Call) (v : ℕ) (id : Option ℕ) → Clean (confirm_undelegate cfg ctx v id)
  unfolding confirm_undelegate
  Clean-confirm ctx v id = search checks depth 60

  Clean-cancel : (ctx : Call) (v : ℕ) (id : Option ℕ) → Clean (cancel_undelegate cfg ctx v id)
  unfolding cancel_undelegate
  Clean-cancel ctx v id = search checks depth 60 fits 20000

  Clean-redelegate_from :
      (ctx : Call) (v n : ℕ) (val : Validator) (r : ValidatorRewards) (p : ℕ)
      → Clean (redelegate_from cfg ctx v n val r p)
  unfolding redelegate_from
  Clean-redelegate_from ctx v n val r p = search checks depth 60

  Clean-redelegate : (ctx : Call) (from to n : ℕ) → Clean (redelegate cfg ctx from to n)
  unfolding redelegate
  Clean-redelegate ctx from to n = search (checks, Clean-redelegate_from) depth 60

  Clean-claim_state : (ctx : Call) (v : ℕ) (o : Option State) → Clean (claim_state cfg ctx v o)
  unfolding claim_state
  Clean-claim_state ctx v none = search checks depth 60
  Clean-claim_state ctx v (some state) = search checks depth 60

  Clean-claim_rewards : (ctx : Call) (v : ℕ) → Clean (claim_rewards cfg ctx v)
  unfolding claim_rewards
  Clean-claim_rewards ctx v = search (checks, Clean-claim_state) depth 60

  Clean-register :
      (ctx : Call) (a : RegisterValidatorArgs) → Clean (register_validator_without_checks cfg ctx a)
  unfolding register_validator_without_checks
  Clean-register ctx a = search checks depth 60

module _ (cfg : Config) (recover_address : Bytes → ℕ → Option ℕ) where
  Clean-register_validator :
      (ctx : Call) (a : RegisterValidatorArgs)
      → Clean (register_validator cfg recover_address ctx a)
  unfolding register_validator validate_proof
  Clean-register_validator ctx a = search (checks, Clean-register) depth 60

  ruleset methods = (
    checks, Clean-delegate, Clean-undelegate, Clean-confirm, Clean-cancel, Clean-redelegate,
    Clean-claim_rewards, Clean-claim_commission, Clean-register_validator, Clean-set_validator_info,
    Clean-set_commission,
  )

  -- `claimAllRewards` is a sequence of claims.
  abbrev pub is_single : Method → Bool
  is_single (claim_all batch) = false
  is_single (delegate_to v) = true
  is_single (claim_rewards_of v) = true
  is_single (claim_commission_rewards_of v) = true
  is_single (undelegate_from v n) = true
  is_single (undelegate_v2_from v n) = true
  is_single (confirm v) = true
  is_single (cancel v) = true
  is_single (confirm_v2 v id) = true
  is_single (cancel_v2 v id) = true
  is_single (redelegate_between from to n) = true
  is_single (register a) = true
  is_single (set_info v x y) = true
  is_single (change_commission v n) = true

  Clean-dispatch :
      (ctx : Call) (m : Method) → is_single m ≡ true → Clean (dispatch cfg recover_address ctx m)
  unfolding dispatch since_cornus
  Clean-dispatch ctx (claim_all batch) h = cc
  Clean-dispatch ctx (delegate_to v) h = search methods
  Clean-dispatch ctx (claim_rewards_of v) h = search methods
  Clean-dispatch ctx (claim_commission_rewards_of v) h = search methods
  Clean-dispatch ctx (undelegate_from v n) h = search methods
  Clean-dispatch ctx (undelegate_v2_from v n) h = search methods depth 20
  Clean-dispatch ctx (confirm v) h = search methods
  Clean-dispatch ctx (cancel v) h = search methods
  Clean-dispatch ctx (confirm_v2 v id) h = search methods depth 20
  Clean-dispatch ctx (cancel_v2 v id) h = search methods depth 20
  Clean-dispatch ctx (redelegate_between from to n) h = search methods
  Clean-dispatch ctx (register a) h = search methods
  Clean-dispatch ctx (set_info v x y) h = search methods
  Clean-dispatch ctx (change_commission v n) h = search methods

  Clean-run_method :
      (depth : ℕ) (ctx : Call) (m : Method)
      → Clean (dispatch cfg recover_address ctx m)
      → Clean (run_method cfg recover_address depth ctx m)
  unfolding run_method
  Clean-run_method depth ctx m h =
      Clean-then-Reads _ _ (Reads-require _ _) (Clean-require _ _)
        (Clean-then-Reads _ _ (Reads-require _ _) (Clean-require _ _) h)

  -- A call of any method but claimAllRewards that returns an error leaves the contract's state as it
  -- was: the objects in storage, the lists, the counts, the balances and the logs.
  pub run_method-error :
      (depth : ℕ) (ctx : Call) (m : Method) (s s' : Dpos) (e : DposError)
      → is_single m ≡ true
      → run_method cfg recover_address depth ctx m s ≡ failed e s'
      → s' ≡ s
  run_method-error depth ctx m s s' e h r =
      subst (AtError (λ t. t ≡ s)) r ((Clean-run_method depth ctx m (Clean-dispatch ctx m h)).at s)
