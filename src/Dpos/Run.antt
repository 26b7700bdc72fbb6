-- ===== src/Dpos/Run.antt =====
-- `Run` of dpos_contract.go for the methods that change the state: the checks before a method, and
-- the switch. The ABI decodes the input, so a call is a method with its arguments.
use taraxa_evm.Prelude.{
  ℕ, Bool, true, false, not, ◌&&◌, ltb, ◌==◌, if◌then◌else◌, Option, none, some, Bytes,
}
use taraxa_evm.Dpos.State.{
  Config, Call, M, pure, require, ◌>>=◌, ◌>>◌, is_on_cornus_hardfork, is_on_aspen_hardfork_part_one,
  call_is_not_toplevel, method_not_supported, non_payable_method,
}
use taraxa_evm.Dpos.Stake.{delegate, undelegate, confirm_undelegate, cancel_undelegate}
use taraxa_evm.Dpos.Redelegate.{
  redelegate, claim_rewards, claim_all_rewards, claim_all_rewards_pre_aspen_hf,
  claim_commission_rewards,
}
use taraxa_evm.Dpos.Registry.{
  RegisterValidatorArgs, register_validator, set_validator_info, set_commission,
}

pub data Method : Type 0 where
  delegate_to claim_rewards_of claim_commission_rewards_of : (validator : ℕ) → Method
  undelegate_from undelegate_v2_from : (validator amount : ℕ) → Method
  confirm cancel : (validator : ℕ) → Method
  confirm_v2 cancel_v2 : (validator undelegation_id : ℕ) → Method
  redelegate_between : (validator_from validator_to amount : ℕ) → Method
  claim_all : (batch : ℕ) → Method
  register : RegisterValidatorArgs → Method
  set_info : (validator : ℕ) → (description endpoint : Bytes) → Method
  change_commission : (validator commission : ℕ) → Method

unfoldable pub is_payable_method : Method → Bool
is_payable_method (register args) = true
is_payable_method (delegate_to v) = true
is_payable_method _ = false

module _ (cfg : Config) (recover_address : Bytes → ℕ → Option ℕ) where
  -- A method of the second version before its hardfork.
  unfoldable pub since_cornus : Call → M (Unit {0}) → M (Unit {0})
  since_cornus ctx m = require (is_on_cornus_hardfork cfg ctx.block) method_not_supported >> m

  -- The number of an undelegation is packed as output.
  unfoldable pub dispatch : Call → Method → M (Unit {0})
  dispatch ctx (delegate_to v) = delegate cfg ctx v
  dispatch ctx (undelegate_from v amount) = undelegate cfg ctx v amount false >>= λ id. pure tt
  dispatch ctx (undelegate_v2_from v amount) =
      since_cornus ctx (undelegate cfg ctx v amount true >>= λ id. pure tt)
  dispatch ctx (confirm v) = confirm_undelegate cfg ctx v none
  dispatch ctx (confirm_v2 v id) = since_cornus ctx (confirm_undelegate cfg ctx v (some id))
  dispatch ctx (cancel v) = cancel_undelegate cfg ctx v none
  dispatch ctx (cancel_v2 v id) = since_cornus ctx (cancel_undelegate cfg ctx v (some id))
  dispatch ctx (redelegate_between from to amount) = redelegate cfg ctx from to amount
  dispatch ctx (claim_rewards_of v) = claim_rewards cfg ctx v
  -- before the first part of the aspen hardfork, a batch
  dispatch ctx (claim_all batch) =
      if is_on_aspen_hardfork_part_one cfg ctx.block
      then claim_all_rewards cfg ctx
      else claim_all_rewards_pre_aspen_hf cfg ctx batch
  dispatch ctx (claim_commission_rewards_of v) = claim_commission_rewards cfg ctx v
  dispatch ctx (register args) = register_validator cfg recover_address ctx args
  dispatch ctx (set_info v description endpoint) = set_validator_info cfg ctx v description endpoint
  dispatch ctx (change_commission v commission) = set_commission cfg ctx v commission

  unfoldable pub run_method : (depth : ℕ) → Call → Method → M (Unit {0})
  run_method depth ctx method = do
    require (not (ltb ctx.block cfg.fix_redelegate_block_num && not (depth == 0)))
        call_is_not_toplevel
    require
        (not (
          is_on_cornus_hardfork cfg ctx.block
          && (ltb 0 ctx.value && not (is_payable_method method))))
        non_payable_method
    dispatch ctx method
