-- ===== src/Vm/Transaction.antt =====
-- A transaction (`EVM.Main` of core/vm/evm.go). The balance of the sender is never negative, so
-- `bigutil.Div` is the division of natural numbers.
use taraxa_evm.Prelude.{
  ℕ, ◌+◌, ◌-◌, ◌*◌, ◌/◌, ◌%◌, Bool, ◌&&◌, not, Option, none, some, List, [], Bytes, ltb, leb, ◌==◌,
  if◌then◌else◌, true, false,
}
use taraxa_evm.Prelude.Int.{pos_part}
use taraxa_evm.Vm.Env.{
  Env, Address, Error, LogRecord, insufficient_balance_for_gas, nonce_too_low, out_of_gas,
  intrinsic_gas, insufficient_balance_for_transfer, u64_mod,
}
use taraxa_evm.Vm.Machine.{M, Evm, Contract, Fault, state_panic}
use taraxa_evm.Vm.Gas.{intrinsic_gas_of}
use taraxa_evm.Vm.Ops.Calls.{Called, returned, failed, call, create1}
use taraxa_evm.Vm.Interpreter.{RunResult, balance_gte, evm_call, evm_create_at, with_state}

pub record ExecutionResult : Type 0 where
  pub code_retval : Bytes
  pub new_contract_addr : Address
  pub logs : List LogRecord
  pub gas_used : ℕ
  pub execution_err : Option Error
  pub consensus_err : Option Error

pub data Executed (W : Type 0) : Type 0 where
  executed : ExecutionResult → Evm W → Executed W
  panicked : Fault → Executed W

module _ (env : Env) where
  open env use {World as W, state_ops as st, trx, rules}

  -- `consensusErr`, at a result that is still empty but for what the execution set
  abbrev pub consensus_err_of : Bytes → Address → (gas : ℕ) → Error → Evm W → Executed W
  consensus_err_of ret addr gas e evm =
      executed
        (record {
          code_retval = ret;
          new_contract_addr = addr;
          logs = [];
          gas_used = gas;
          execution_err = none;
          consensus_err = some e;
        })
        evm

  -- The transaction is refused; its nonce may count as used, where SetNonce panics on a lower one.
  unfoldable pub refuse : (bump : Bool) → (gas : ℕ) → Error → Evm W → Executed W
  refuse bump gas e evm =
      if bump
      then elim (st.set_nonce trx.from (trx.nonce + 1) evm.state) [
        | none ↦ panicked state_panic
        | some w ↦ consensus_err_of [] 0 gas e (with_state env w evm)
      ]
      else consensus_err_of [] 0 gas e evm

  -- What follows the call or the creation.
  unfoldable pub settle_transaction : Address → Called W → Executed W
  settle_transaction addr (failed f) = panicked f
  settle_transaction addr (returned ret gas (some insufficient_balance_for_transfer) evm) =
      consensus_err_of ret addr trx.gas insufficient_balance_for_transfer evm
  settle_transaction addr (returned ret gas e evm) =
      let half = (trx.gas - gas) / 2 in
      let refund = if ltb (st.get_refund evm.state) half then st.get_refund evm.state else half in
      let left = (gas + refund) % u64_mod in
      executed
        (record {
          code_retval = ret;
          new_contract_addr = addr;
          logs = st.get_logs evm.state;
          gas_used = trx.gas - left;
          execution_err = e;
          consensus_err = none;
        })
        (with_state env (st.add_balance trx.from (left * trx.gas_price) evm.state) evm)

  -- The sender as the caller of the outermost call.
  abbrev pub sender : Contract
  sender = record {
    frame = record { caller_account = 0; account = trx.from; input = []; gas = 0; value = 0 };
    code = [];
    code_hash = none;
  }

  -- The creation, from the state in which the nonce is that of the transaction.
  unfoldable pub create_contract : M W RunResult → (gas : ℕ) → Evm W → Option W → Executed W
  create_contract loop gas evm none = panicked state_panic
  create_contract loop gas evm (some w) =
      let created =
        evm_create_at env loop create1 trx.from trx.input gas trx.value (with_state env w evm) in
      settle_transaction (created.0) (created.1)

  -- The call, from the state in which the nonce is the next one.
  unfoldable pub call_contract :
      M W RunResult → (to : Address) → (gas : ℕ) → Evm W → Option W → Executed W
  call_contract loop to gas evm none = panicked state_panic
  call_contract loop to gas evm (some w) =
      settle_transaction 0
        (evm_call env loop call sender to trx.input gas trx.value (with_state env w evm))

  unfoldable pub execute_transaction :
      M W RunResult → Option Address → (gas : ℕ) → Evm W → Executed W
  execute_transaction loop none gas evm =
      create_contract loop gas evm (st.set_nonce trx.from trx.nonce evm.state)
  execute_transaction loop (some to) gas evm =
      call_contract loop to gas evm (st.set_nonce trx.from (trx.nonce + 1) evm.state)

  -- What follows the charge of the whole fee, from the intrinsic gas.
  unfoldable pub charged_transaction : M W RunResult → Option ℕ → Evm W → Executed W
  charged_transaction loop none charged = refuse rules.is_cornus trx.gas out_of_gas charged
  charged_transaction loop (some intrinsic) charged =
      if ltb trx.gas intrinsic
      then refuse rules.is_cornus trx.gas intrinsic_gas charged
      else execute_transaction loop trx.to (trx.gas - intrinsic) charged

  -- `EVM.Main`
  unfoldable pub main : M W RunResult → Evm W → Executed W
  main loop evm =
      let w = evm.state in
      let gas_fee = trx.gas * trx.gas_price in
      let available = pos_part (st.get_balance trx.from w) / trx.gas_price in
      let charged = with_state env (st.sub_balance trx.from gas_fee w) evm in
      if not (trx.from == 0) && not (balance_gte env trx.from gas_fee w)
      then refuse (rules.is_cornus && leb (st.get_nonce trx.from w) trx.nonce) (available % u64_mod)
          insufficient_balance_for_gas
          (with_state env (st.sub_balance trx.from (available * trx.gas_price) w) evm)
      else if ltb trx.nonce (st.get_nonce trx.from w)
      then consensus_err_of [] 0 trx.gas nonce_too_low charged
      else charged_transaction loop
          (intrinsic_gas_of trx.input (elim trx.to [ none ↦ true | some _ ↦ false ])) charged
