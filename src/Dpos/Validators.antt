-- ===== src/Dpos/Validators.antt =====
-- `Validators` of validators.go over the contract's state.
use taraxa_evm.Prelude.{ℕ, ◌+◌, Bool, true, false, ◌==◌, Option, none, some, List, Bytes}
use mathlib.Core.Option
use taraxa_evm.Dpos.Collections.{exists_in, create_in, remove_in}
use taraxa_evm.Dpos.State.{
  Stored, stored, stored_v1, Validator, ValidatorInfo, ValidatorRewards, M, pure, gets, modify,
  assert, some_or_panic, update, ◌>>=◌, ◌>>◌,
}

-- `GetValidator`: the bytes of the old struct have no count of undelegations.
unfoldable pub decode_validator : Stored → Validator
decode_validator (stored v) = v
decode_validator (stored_v1 v) = record {
  total_stake = v.total_stake;
  commission = v.commission;
  last_commission_change = v.last_commission_change;
  last_updated = v.last_updated;
  undelegations_count = 0;
}

unfoldable pub encode_validator : (extended_validator : Bool) → Validator → Stored
encode_validator true v = stored v
encode_validator false v = stored_v1 (record {
  total_stake = v.total_stake;
  commission = v.commission;
  last_commission_change = v.last_commission_change;
  last_updated = v.last_updated;
})

unfoldable pub validator_exists : ℕ → M Bool
validator_exists v = gets (λ s. exists_in v s.validators_list)

unfoldable pub get_validator : ℕ → M (Option Validator)
get_validator v = gets (λ s. Option.map decode_validator (s.validator v))

unfoldable pub get_validator_owner : ℕ → M ℕ
get_validator_owner v = gets (λ s. Option.get_or (s.validator_owner v) 0)

unfoldable pub check_validator_owner : (owner validator : ℕ) → M Bool
check_validator_owner owner v = do saved ← get_validator_owner v; pure (owner == saved)

-- An absent object is nil in the code, which panics where it is first used; here it panics at once.
unfoldable pub get_validator_rewards : ℕ → M ValidatorRewards
get_validator_rewards v = do r ← gets (λ s. s.validator_rewards v); some_or_panic r

unfoldable pub get_validator_info : ℕ → M (Option ValidatorInfo)
get_validator_info v = gets (λ s. s.validator_info v)

abbrev pub save_validator : Bool → ℕ → Validator → M (Unit {0})
save_validator extended v val =
    modify
      (λ s. record s { validator = update s.validator v (some (encode_validator extended val)) })

abbrev pub save_rewards : ℕ → ValidatorRewards → M (Unit {0})
save_rewards v r =
    modify (λ s. record s { validator_rewards = update s.validator_rewards v (some r) })

abbrev pub save_info : ℕ → ValidatorInfo → M (Unit {0})
save_info v i = modify (λ s. record s { validator_info = update s.validator_info v (some i) })

-- `Modify`: a validator that does not exist panics.
unfoldable pub modify_validator : Bool → ℕ → Validator → M (Unit {0})
modify_validator extended v val = do
  known ← validator_exists v
  assert known
  save_validator extended v val

unfoldable pub modify_validator_rewards : ℕ → ValidatorRewards → M (Unit {0})
modify_validator_rewards v r = do known ← validator_exists v; assert known; save_rewards v r

unfoldable pub modify_validator_info : ℕ → ValidatorInfo → M (Unit {0})
modify_validator_info v i = do known ← validator_exists v; assert known; save_info v i

unfoldable pub add_validator_rewards : ℕ → (commission_reward reward : ℕ) → M (Unit {0})
add_validator_rewards v commission_reward reward = do
  known ← validator_exists v
  assert known
  r ← get_validator_rewards v
  modify_validator_rewards v (record {
    rewards_pool = r.rewards_pool + reward;
    commission_rewards_pool = r.commission_rewards_pool + commission_reward;
  })

abbrev pub set_list : List ℕ → M (Unit {0})
set_list xs = modify (λ s. record s { validators_list = xs })

unfoldable pub create_validator :
    Bool
    → (owner validator : ℕ) → (vrf : Bytes) → (block commission : ℕ)
    → (description endpoint : Bytes) → M Validator
create_validator extended owner v vrf block commission description endpoint = do
  let val : Validator = record {
    total_stake = 0;
    commission = commission;
    last_commission_change = block;
    last_updated = block;
    undelegations_count = 0;
  }
  save_validator extended v val
  save_info v (record { description = description; endpoint = endpoint })
  save_rewards v (record { rewards_pool = 0; commission_rewards_pool = 0 })
  modify (λ s. record s {
    validator_owner = update s.validator_owner v (some owner);
    vrf_key = update s.vrf_key v (some vrf);
  })
  list ← gets (λ s. s.validators_list)
  list' ← some_or_panic (create_in v list)
  set_list list'
  pure val

unfoldable pub delete_validator : ℕ → M (Unit {0})
delete_validator v = do
  modify (λ s. record s {
    validator = update s.validator v none;
    validator_info = update s.validator_info v none;
    validator_owner = update s.validator_owner v none;
    vrf_key = update s.vrf_key v none;
    validator_rewards = update s.validator_rewards v none;
  })
  list ← gets (λ s. s.validators_list)
  list' ← some_or_panic (remove_in v list)
  set_list list'
