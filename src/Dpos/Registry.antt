-- ===== src/Dpos/Registry.antt =====
-- `registerValidator`, `registerValidatorWithoutChecks`, `setValidatorInfo` and `setCommission` of
-- dpos_contract.go.
use taraxa_evm.Prelude.{
  ℕ, ◌+◌, ◌-◌, ◌%◌, Bool, true, false, not, ◌||◌, ltb, leb, ◌==◌, if◌then◌else◌, Option, none, some,
  Bytes, length,
}
use taraxa_evm.Dpos.State.{
  Config, Validator, Call, M, pure, require, some_or, ◌>>=◌, ◌>>◌, add_log, is_on_magnolia_hardfork,
  max_endpoint_length_exceeded, max_description_length_exceeded, wrong_vrf_key, commission_overflow,
  existent_validator, existent_delegation, broken_state, validators_max_stake_exceeded, wrong_proof,
  recovery_failed, insufficient_delegation, wrong_owner_acc, non_existent_validator,
  forbidden_commission_change, delegated, validator_registered, validator_info_set, commission_set,
}
use taraxa_evm.Dpos.Votes.{get_delta, u64_mod}
use taraxa_evm.Dpos.Validators.{
  validator_exists, get_validator, check_validator_owner, create_validator, modify_validator,
  get_validator_info, modify_validator_info,
}
use taraxa_evm.Dpos.Delegations.{get_delegation, create_delegation}
use taraxa_evm.Dpos.Rewards.{state_get, state_put}
use taraxa_evm.Dpos.Stake.{delegate_update_values}

abbrev pub max_endpoint_length : ℕ
max_endpoint_length = 50

abbrev pub max_description_length : ℕ
max_description_length = 100

abbrev pub max_commission : ℕ
max_commission = 10000

abbrev pub vrf_key_length : ℕ
vrf_key_length = 32

pub record RegisterValidatorArgs : Type 0 where
  pub validator : ℕ
  pub proof : Bytes
  pub vrf_key : Bytes
  pub commission : ℕ
  pub description : Bytes
  pub endpoint : Bytes

abbrev pub is_none : {A : Type 0} → Option A → Bool
is_none none = true
is_none (some a) = false

module _ (cfg : Config) where
  -- The validator's own first delegation, where the call sends a value; the number of references.
  unfoldable pub first_delegation : Call → (validator : ℕ) → Validator → M ℕ
  first_delegation ctx v val =
      if ltb 0 ctx.value
      then (do
        add_log (delegated ctx.caller v ctx.value)
        create_delegation ctx.caller v ctx.block ctx.value
        val' ← delegate_update_values cfg ctx val 0
        modify_validator (is_on_magnolia_hardfork cfg ctx.block) v val'
        pure 2)
      else pure 1

  unfoldable pub register_validator_without_checks : Call → RegisterValidatorArgs → M (Unit {0})
  register_validator_without_checks ctx args = do
    require (leb (length args.endpoint) max_endpoint_length) max_endpoint_length_exceeded
    require (leb (length args.description) max_description_length) max_description_length_exceeded
    require (length args.vrf_key == vrf_key_length) wrong_vrf_key
    require (leb args.commission max_commission) commission_overflow
    known ← validator_exists args.validator
    require (not known) existent_validator
    delegation ← get_delegation ctx.caller args.validator
    require (is_none delegation) existent_delegation
    state ← state_get args.validator ctx.block
    require (is_none state) broken_state
    require (leb ctx.value cfg.validator_maximum_stake) validators_max_stake_exceeded
    val ←
        create_validator (is_on_magnolia_hardfork cfg ctx.block) ctx.caller args.validator
          args.vrf_key ctx.block args.commission args.description args.endpoint
    add_log (validator_registered args.validator)
    count ← first_delegation ctx args.validator val
    state_put args.validator ctx.block (some (record { rewards_per_1_stake = 0; count = count }))

  -- `crypto.Ecrecover` and the hash of the public key are a parameter: the address that a proof for
  -- a validator recovers, or no address.
  unfoldable pub validate_proof :
      (recover_address : Bytes → ℕ → Option ℕ) → (proof : Bytes) → (validator : ℕ) → M (Unit {0})
  validate_proof recover_address proof v = do
    require (length proof == 65) wrong_proof
    address ← some_or (recover_address proof v) recovery_failed
    require (address == v) wrong_proof

  unfoldable pub register_validator :
      (recover_address : Bytes → ℕ → Option ℕ) → Call → RegisterValidatorArgs → M (Unit {0})
  register_validator recover_address ctx args = do
    validate_proof recover_address args.proof args.validator
    require (leb cfg.minimum_deposit ctx.value) insufficient_delegation
    register_validator_without_checks ctx args

  unfoldable pub set_validator_info :
      Call → (validator : ℕ) → (description endpoint : Bytes) → M (Unit {0})
  set_validator_info ctx v description endpoint = do
    require (leb (length endpoint) max_endpoint_length) max_endpoint_length_exceeded
    require (leb (length description) max_description_length) max_description_length_exceeded
    owned ← check_validator_owner ctx.caller v
    require owned wrong_owner_acc
    found ← get_validator_info v
    info ← some_or found non_existent_validator
    modify_validator_info v (record info { description = description; endpoint = endpoint })
    add_log (validator_info_set v)

  -- The difference of blocks is on 64 bits.
  unfoldable pub set_commission : Call → (validator commission : ℕ) → M (Unit {0})
  set_commission ctx v commission = do
    owned ← check_validator_owner ctx.caller v
    require owned wrong_owner_acc
    require (leb commission max_commission) commission_overflow
    found ← get_validator v
    val ← some_or found non_existent_validator
    require
        (cfg.commission_change_frequency == 0
          || leb cfg.commission_change_frequency
              ((ctx.block + u64_mod - val.last_commission_change) % u64_mod))
        forbidden_commission_change
    require
        (cfg.commission_change_delta == 0
          || leb (get_delta val.commission commission) cfg.commission_change_delta)
        forbidden_commission_change
    modify_validator (is_on_magnolia_hardfork cfg ctx.block) v
        (record val { commission = commission; last_commission_change = ctx.block })
    add_log (commission_set v commission)
