-- ===== src/Dpos/Accounts/Kept.antt =====
-- Stakes and totals at the steps that only read them or write other objects.
use taraxa_evm.Prelude.{
  ℕ, ◌≡◌, refl, ◌∙◌, Bool, true, false, Option, none, some, List, [], ◌∷◌, ltb, inl, inr,
  Bool-cases,
}
use mathlib.Core.Option
use taraxa_evm.Dpos.State.{
  Config, State, Stored, Validator, ValidatorRewards, Delegation, DposError, Call, Log, Dpos, M,
  ◌>>=◌, pure, fail, add_log, transfer_contract_balance, gets, some_or,
}
use taraxa_evm.Dpos.Votes.{update_vote_count, add64p, add_amount_delegated, sub_amount_delegated}
use taraxa_evm.Dpos.Validators.{get_validator, decode_validator, modify_validator_rewards}
use taraxa_evm.Dpos.Delegations.{get_delegation}
use taraxa_evm.Dpos.Undelegations.{
  create_undelegation_v1, create_undelegation_v2, gen_unique_id, add_v2_validator,
}
use taraxa_evm.Dpos.Rewards.{
  state_put, state_get_and_decrement, current_state, calculate_delegator_reward, pay_reward,
  claim_delegation,
}
use taraxa_evm.Dpos.Stake.{recount, create_undelegation}
use taraxa_evm.Dpos.Errors.{Reads-panic}
use taraxa_evm.Dpos.Errors.Steps.{getters}
use taraxa_evm.Dpos.Meets.{Meets, Keeps, Ensures, keeps_rules, Meets-step}
use taraxa_evm.Dpos.Accounts.{stake_of, total_of, Shows, total-decode}

module _ (S : ℕ → ℕ → ℕ) (T : ℕ → ℕ) where
  pub Keeps-state_put : (w d : ℕ) (o : Option State) → Keeps (Shows S T) (state_put w d o)
  unfolding state_put
  Keeps-state_put w d o = search keeps_rules

  Keeps-decrement : (w d : ℕ) → Keeps (Shows S T) (state_get_and_decrement w d)
  unfolding state_get_and_decrement
  Keeps-decrement w d = search (keeps_rules, getters, Keeps-state_put) depth 30

  Keeps-transfer : (ctx : Call) (n : ℕ) → Keeps (Shows S T) (transfer_contract_balance ctx n)
  unfolding transfer_contract_balance
  Keeps-transfer ctx n = record {
    at = λ s p. elim (Bool-cases (ltb (s.balance ctx.contract) n)) [
      | inl e ↦ rw e tt
      | inr e ↦ rw e p
    ];
  }

  pub Keeps-add_log : (l : Log) → Keeps (Shows S T) (add_log l)
  unfolding add_log
  Keeps-add_log l = search keeps_rules

  pub Keeps-claim :
      (cfg : Config) (ctx : Call) (w : ℕ) (state : State) (d : Delegation)
      → Keeps (Shows S T) (claim_delegation cfg ctx w state d)
  unfolding claim_delegation calculate_delegator_reward pay_reward
  Keeps-claim cfg ctx w state d =
      search (keeps_rules, getters, Keeps-decrement, Keeps-transfer, Keeps-add_log) depth 30

  pub Keeps-modify_rewards :
      (w : ℕ) (r : ValidatorRewards) → Keeps (Shows S T) (modify_validator_rewards w r)
  unfolding modify_validator_rewards
  Keeps-modify_rewards w r = search (keeps_rules, getters) depth 30

  pub Keeps-recount :
      (cfg : Config) (ctx : Call) (p n : ℕ) → Keeps (Shows S T) (recount cfg ctx p n)
  unfolding recount update_vote_count add64p
  Keeps-recount cfg ctx p n = search (keeps_rules, getters, Reads-panic) depth 30

  pub Keeps-add_amount : (n : ℕ) → Keeps (Shows S T) (add_amount_delegated n)
  unfolding add_amount_delegated
  Keeps-add_amount n = search keeps_rules

  pub Keeps-sub_amount : (n : ℕ) → Keeps (Shows S T) (sub_amount_delegated n)
  unfolding sub_amount_delegated
  Keeps-sub_amount n = search keeps_rules

  Keeps-undelegation_v1 : (d v x n : ℕ) → Keeps (Shows S T) (create_undelegation_v1 d v x n)
  unfolding create_undelegation_v1
  Keeps-undelegation_v1 d v x n = search (keeps_rules, getters) depth 30

  Keeps-add_v2 : (d v : ℕ) (ids : List ℕ) → Keeps (Shows S T) (add_v2_validator d v ids)
  Keeps-add_v2 d v [] = search (keeps_rules, getters) depth 30
  Keeps-add_v2 d v (i ∷ []) = search (keeps_rules, getters) depth 30
  Keeps-add_v2 d v (i ∷ j ∷ ids) = search (keeps_rules, getters) depth 30

  Keeps-undelegation_v2 : (d v x n : ℕ) → Keeps (Shows S T) (create_undelegation_v2 d v x n)
  unfolding create_undelegation_v2 gen_unique_id
  Keeps-undelegation_v2 d v x n = search (keeps_rules, getters, Keeps-add_v2) depth 30

  pub Keeps-create_undelegation :
      (cfg : Config) (ctx : Call) (v n : ℕ) (b : Bool)
      → Keeps (Shows S T) (create_undelegation cfg ctx v n b)
  unfolding create_undelegation
  Keeps-create_undelegation cfg ctx v n true =
      search (keeps_rules, getters, Keeps-undelegation_v2, Keeps-add_log) depth 30
  Keeps-create_undelegation cfg ctx v n false =
      search (keeps_rules, getters, Keeps-undelegation_v1, Keeps-add_log) depth 30

  -- What the state shows of a validator that is read.
  found_total :
      (o : Option Stored) (v : ℕ) (s : Dpos) (e : DposError) {B : Type 0} {Q : B → Dpos → Type 0}
      (k : Validator → M B)
      → total_of o ≡ T v
      → Shows S T s
      → ((val : Validator) → val.total_stake ≡ T v → Meets (Shows S T) (k val) Q)
      → Ensures Q ((some_or (Option.map decode_validator o) e >>= k) s)
  unfolding some_or pure fail ◌>>=◌
  found_total none v s e k t p h = tt
  found_total (some st) v s e k t p h = (h (decode_validator st) (total-decode st ∙ t)).at s p

  pub get_validator-total :
      (v : ℕ) (e : DposError) {B : Type 0} {Q : B → Dpos → Type 0} (k : Validator → M B)
      → ((val : Validator) → val.total_stake ≡ T v → Meets (Shows S T) (k val) Q)
      → Meets (Shows S T) (get_validator v >>= λ o. some_or o e >>= k) Q
  unfolding get_validator gets ◌>>=◌
  get_validator-total v e k h = record {
    at = λ s p. found_total (s.validator v) v s e k (p.1 v) p h;
  }

  pub get_delegation-stake :
      (d v : ℕ) {B : Type 0} {Q : B → Dpos → Type 0} (k : Option Delegation → M B)
      → ((o : Option Delegation) → stake_of o ≡ S d v → Meets (Shows S T) (k o) Q)
      → Meets (Shows S T) (get_delegation d v >>= k) Q
  unfolding get_delegation gets ◌>>=◌
  get_delegation-stake d v k h = record { at = λ s p. (h (s.delegation d v) (p.0 d v)).at s p }

  pub current-total :
      (cfg : Config) (b v : ℕ) (o : Option State) (val : Validator) (r : ValidatorRewards)
      → Meets
          (Shows S T)
          (current_state cfg b v o val r)
          (λ k s. (k.validator.total_stake ≡ val.total_stake) × Shows S T s)
  unfolding current_state pure
  current-total cfg b v none val r =
      Meets-step _ _ (Keeps-decrement v val.last_updated) (λ old. record { at = λ s p. (refl, p) })
  current-total cfg b v (some state) val r = record { at = λ s p. (refl, p) }
