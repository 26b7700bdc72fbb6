-- ===== src/Dpos/Delegations.antt =====
-- `Delegations` of delegations.go over the contract's state.
use taraxa_evm.Prelude.{ℕ, Bool, Option, none, some, List}
use taraxa_evm.Dpos.Collections.{exists_in, create_in, remove_in}
use taraxa_evm.Dpos.State.{
  Delegation, M, gets, modify, assert, some_or_panic, update, update2, ◌>>=◌, ◌>>◌,
}

unfoldable pub delegation_exists : (delegator validator : ℕ) → M Bool
delegation_exists d v = gets (λ s. exists_in v (s.delegator_validators d))

unfoldable pub get_delegation : (delegator validator : ℕ) → M (Option Delegation)
get_delegation d v = gets (λ s. s.delegation d v)

abbrev pub save_delegation : (delegator validator : ℕ) → Option Delegation → M (Unit {0})
save_delegation d v o = modify (λ s. record s { delegation = update2 s.delegation d v o })

abbrev pub set_validators : (delegator : ℕ) → List ℕ → M (Unit {0})
set_validators d xs =
    modify (λ s. record s { delegator_validators = update s.delegator_validators d xs })

unfoldable pub modify_delegation : (delegator validator : ℕ) → Delegation → M (Unit {0})
modify_delegation d v delegation = do
  known ← delegation_exists d v
  assert known
  save_delegation d v (some delegation)

unfoldable pub create_delegation : (delegator validator block stake : ℕ) → M (Unit {0})
create_delegation d v block stake = do
  save_delegation d v (some (record { stake = stake; last_updated = block }))
  list ← gets (λ s. s.delegator_validators d)
  list' ← some_or_panic (create_in v list)
  set_validators d list'

unfoldable pub remove_delegation : (delegator validator : ℕ) → M (Unit {0})
remove_delegation d v = do
  save_delegation d v none
  list ← gets (λ s. s.delegator_validators d)
  list' ← some_or_panic (remove_in v list)
  set_validators d list'

unfoldable pub get_all_delegator_validators_addresses : (delegator : ℕ) → M (List ℕ)
get_all_delegator_validators_addresses d = gets (λ s. s.delegator_validators d)
