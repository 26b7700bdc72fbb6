-- ===== src/Vm/Interpreter.antt =====
-- The main loop (`EVM.run` of core/vm/evm.go) and calls and creations, which run it again. The
-- loop recurs on fuel, of which each round and each nested run spends one unit.
mod Round
unfoldable pub use Round.*
use taraxa_evm.Prelude.{
  ℕ, zero, suc, ◌+◌, ◌-◌, ◌*◌, ◌%◌, Bool, true, false, ◌&&◌, ◌||◌, not, Option, none, some, Bytes,
  [], ⊤, length, ltb, leb, ◌==◌, if◌then◌else◌,
}
use taraxa_evm.Prelude.Int.{pos, leb_ℤ}
use taraxa_evm.Vm.Env.{
  Env, Address, CallFrame, PrecompiledContract, Error, execution_reverted, write_protection,
  gas_uint_overflow, out_of_gas, invalid_opcode, max_depth, insufficient_balance_for_transfer,
  contract_address_collision, max_code_size_exceeded, code_store_out_of_gas, u64_mod,
}
use taraxa_evm.Vm.Machine.{
  Machine, Evm, Contract, M, Outcome, ok, err, fault, out_of_fuel, state_panic, gets, pure, raise,
  raise_if, modify, modify_evm, ◌>>=◌, ◌>>◌,
}
use taraxa_evm.Vm.Stack.{back}
use taraxa_evm.Vm.Common.{safe_mul, to_word_size, uint64_with_overflow}
use taraxa_evm.Vm.Memory.{empty_memory, resize}
use taraxa_evm.Vm.Jumpdest.{get_op}
use taraxa_evm.Vm.Ops.Calls.{
  CallKind, call, call_code, delegate_call, static_call, CreateKind, create1, create2, Called,
  returned, failed, Calls, reverted,
}
use taraxa_evm.Vm.JumpTable.{Operation, instruction_set}

module _ (env : Env) where
  open env use {
    World as W, u256 as u, state_ops as st, keccak256, create_address, create_address2, precompiles,
    preallocated_mem,
  }

  -- `EVM.run` around its loop. The memory starts where the pool's reserved part ends.
  abbrev pub enter : Contract → (gas : ℕ) → (read_only : Bool) → Evm W → Machine W
  enter contract gas read_only evm = record {
    contract = contract;
    pc = 0;
    stack = [];
    mem = empty_memory evm.reserved;
    gas = gas;
    evm = record evm {
      depth = evm.depth + 1;
      read_only = evm.read_only || read_only;
      last_retval = [];
    };
  }

  -- The deferred calls of `EVM.run`; `set_read_only` says whether this run set the flag.
  abbrev pub leave : (set_read_only : Bool) → Machine W → Evm W
  leave set_read_only m = record (m.evm) {
    depth = m.evm.depth - 1;
    read_only = if set_read_only then false else m.evm.read_only;
    reserved = if m.mem.using_pool then m.mem.pool_offset else m.evm.reserved;
  }

  unfoldable pub run : M W RunResult → Contract → (gas : ℕ) → (read_only : Bool) → Evm W → Called W
  run loop contract gas read_only evm =
      let set_read_only = read_only && not evm.read_only in
      elim (loop (enter contract gas read_only evm)) [
        | ok res m ↦ returned res.0 m.gas res.1 (leave set_read_only m)
        | err e m ↦ returned [] m.gas (some e) (leave set_read_only m)
        | fault f ↦ failed f
      ]

  unfoldable pub balance_gte : Address → ℕ → W → Bool
  balance_gte a val w = (val == 0) || leb_ℤ (pos val) (st.get_balance a w)

  unfoldable pub transfer : (from to : Address) → ℕ → W → W
  transfer from to amount w = st.add_balance to amount (st.sub_balance from amount w)

  abbrev pub with_state : W → Evm W → Evm W
  with_state w evm = record evm { state = w }

  -- The end of `EVM.call`: an error reverts the state and, but for a revert or an error of a
  -- precompiled contract, takes all the gas.
  unfoldable pub settle_call : (snapshot : ℕ) → (is_precompiled : Bool) → Called W → Called W
  settle_call snapshot is_precompiled (failed f) = failed f
  settle_call snapshot is_precompiled (returned ret gas none evm) = returned ret gas none evm
  settle_call snapshot is_precompiled (returned ret gas (some e) evm) =
      returned ret (if reverted (some e) || is_precompiled then gas else 0) (some e)
        (with_state (st.revert_to_snapshot snapshot evm.state) evm)

  unfoldable pub run_precompiled : PrecompiledContract W → CallFrame → Evm W → Called W
  run_precompiled p frame evm =
      if leb (p.required_gas frame evm.state) frame.gas
      then elim (p.run frame evm.state) [
        | none ↦ failed state_panic
        | some (ret, e, w) ↦
            returned ret (frame.gas - p.required_gas frame evm.state) e (with_state w evm)
      ]
      else returned [] frame.gas (some out_of_gas) evm

  abbrev pub frame_of : CallKind → Contract → Address → Bytes → (gas value : ℕ) → CallFrame
  frame_of call caller callee input gas value = record {
    caller_account = caller.frame.account;
    account = callee;
    input = input;
    gas = gas;
    value = value;
  }
  frame_of call_code caller callee input gas value = record {
    caller_account = caller.frame.account;
    account = caller.frame.account;
    input = input;
    gas = gas;
    value = value;
  }
  frame_of delegate_call caller callee input gas value = record {
    caller_account = caller.frame.caller_account;
    account = caller.frame.account;
    input = input;
    gas = gas;
    value = caller.frame.value;
  }
  frame_of static_call caller callee input gas value = record {
    caller_account = caller.frame.account;
    account = callee;
    input = input;
    gas = gas;
    value = value;
  }

  abbrev pub pays : CallKind → Bool
  pays call = true
  pays call_code = true
  pays _ = false

  abbrev pub is_static : CallKind → Bool
  is_static static_call = true
  is_static _ = false

  abbrev pub is_call : CallKind → Bool
  is_call call = true
  is_call _ = false

  -- The transfer of CALL, and the touch of STATICCALL.
  abbrev pub touch : CallKind → (caller callee : Address) → ℕ → W → W
  touch call caller callee value w = transfer caller callee value w
  touch static_call caller callee value w = st.add_balance callee 0 w
  touch _ caller callee value w = w

  -- The code of the callee is run: a precompiled contract, the contract, or nothing.
  unfoldable pub run_callee : M W RunResult → CallKind → CallFrame → Address → Evm W → Called W
  run_callee loop kind frame callee evm = elim (precompiles callee) [
    | some p ↦ run_precompiled p frame evm
    | none ↦
        if length (st.get_code callee evm.state) == 0
        then returned [] frame.gas none evm
        else run loop
            (record {
              frame = frame;
              code = st.get_code callee evm.state;
              code_hash = st.get_code_hash callee evm.state;
            })
            frame.gas (is_static kind) evm
  ]

  abbrev pub is_precompiled : Address → Bool
  is_precompiled a = elim (precompiles a) [ none ↦ false | some _ ↦ true ]

  -- `EVM.call`
  unfoldable pub evm_call :
      M W RunResult → CallKind → Contract → Address → Bytes → (gas value : ℕ) → Evm W → Called W
  evm_call loop kind caller callee input gas value evm =
      let from = caller.frame.account in
      let evm' = with_state (touch kind from callee value evm.state) evm in
      if ltb 1024 evm.depth
      then returned [] gas (some max_depth) evm
      else if pays kind && (not (from == 0) && not (balance_gte from value evm.state))
      then returned [] gas (some insufficient_balance_for_transfer) evm
      else if is_call kind
          && ((value == 0) && (st.is_nil callee evm.state && not (is_precompiled callee)))
      then returned [] gas none evm
      else settle_call (st.snapshot evm.state) (is_precompiled callee)
          (run_callee loop kind (frame_of kind caller callee input gas value) callee evm')

  -- The end of `EVM.create`, from the result of the run.
  abbrev pub fail_create : (snapshot : ℕ) → Bytes → (gas : ℕ) → Error → Evm W → Called W
  fail_create snapshot ret gas e evm =
      returned ret (if reverted (some e) then gas else 0) (some e)
        (with_state (st.revert_to_snapshot snapshot evm.state) evm)

  unfoldable pub settle_create : (snapshot : ℕ) → Address → Called W → Called W
  settle_create snapshot address (failed f) = failed f
  settle_create snapshot address (returned ret gas (some e) evm) =
      fail_create snapshot ret gas e evm
  settle_create snapshot address (returned ret gas none evm) =
      if ltb 24576 (length ret)
      then fail_create snapshot ret gas max_code_size_exceeded evm
      else if ltb gas (length ret * 200)
      then fail_create snapshot ret gas code_store_out_of_gas evm
      else returned ret (gas - length ret * 200) none
          (with_state (st.set_code address ret evm.state) evm)

  -- `EVM.create`
  unfoldable pub evm_create :
      M W RunResult
      → (caller : Address) → (code : Bytes) → (code_hash : Option ℕ) → (gas value : ℕ)
      → (address : Address) → Evm W
      → Called W
  evm_create loop caller code code_hash gas value address evm =
      let counted = st.increment_nonce caller evm.state in
      let opened = transfer caller address value (st.increment_nonce address counted) in
      if ltb 1024 evm.depth
      then returned [] gas (some max_depth) evm
      else if not (caller == 0) && not (balance_gte caller value evm.state)
      then returned [] gas (some insufficient_balance_for_transfer) evm
      else if not (st.get_nonce address counted == 0) || not (st.get_code_size address counted == 0)
      then returned [] 0 (some contract_address_collision) (with_state counted evm)
      else settle_create (st.snapshot counted) address (
          run loop
            (record {
              frame = record {
                caller_account = caller;
                account = address;
                input = [];
                gas = gas;
                value = value;
              };
              code = code;
              code_hash = code_hash;
            })
            gas false (with_state opened evm))

  -- `EVM.create_1` and `EVM.create_2`
  unfoldable pub evm_create_at :
      M W RunResult
      → CreateKind
      → (caller : Address) → (code : Bytes) → (gas value : ℕ) → Evm W
      → Address × Called W
  evm_create_at loop create1 caller code gas value evm =
      let address = create_address caller (st.get_nonce caller evm.state) in
      (address, evm_create loop caller code none gas value address evm)
  evm_create_at loop (create2 salt) caller code gas value evm =
      let hash = keccak256 code in
      let address = create_address2 caller salt hash in
      (address, evm_create loop caller code (some (u.set_bytes hash)) gas value address evm)

  abbrev pub calls_of : M W RunResult → Calls W
  calls_of loop = record { run_call = evm_call loop; run_create = evm_create_at loop }

  abbrev pub continue_with : M W RunResult → Outcome W Control → Outcome W RunResult
  continue_with loop (ok next m) = loop m
  continue_with loop (ok (halted ret) m) = ok (ret, none) m
  continue_with loop (ok (reverting ret) m) = ok (ret, some execution_reverted) m
  continue_with loop (err e m) = err e m
  continue_with loop (fault f) = fault f

  -- The loop of `EVM.run`.
  unfoldable pub run_loop : ℕ → M W RunResult
  run_loop zero m = fault out_of_fuel
  run_loop (suc fuel) m =
      let rest = run_loop fuel in continue_with rest (step env (calls_of rest) m)
