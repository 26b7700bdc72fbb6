-- ===== src/Vm/JumpTable.antt =====
-- The jump table (core/vm/jump_table.go, core/vm/eips.go): what each operation code does, costs
-- and demands of the stack, and its flags.
use taraxa_evm.Prelude.{ℕ, ◌+◌, Bool, true, false, Option, none, some, List, Bytes, if◌then◌else◌}
use taraxa_evm.Vm.Env.{Env, Error}
use taraxa_evm.Vm.Machine.{M}
use taraxa_evm.Vm.Stack.{make_stack_func, make_dup_stack_func, make_swap_stack_func}
use taraxa_evm.Vm.MemorySize.{
  memory_call, memory_call_data_copy, memory_code_copy, memory_create, memory_create2,
  memory_delegate_call, memory_ext_code_copy, memory_keccak256, memory_log, memory_mcopy,
  memory_mload, memory_mstore, memory_mstore8, memory_return, memory_return_data_copy,
  memory_revert, memory_static_call,
}
use taraxa_evm.Vm.Gas.{
  const_gas, gas_balance, gas_call, gas_call_code, gas_call_data_copy, gas_code_copy, gas_create,
  gas_create2, gas_delegate_call, gas_dup, gas_exp, gas_ext_code_copy, gas_ext_code_hash,
  gas_ext_code_size, gas_keccak256, gas_mcopy, gas_mload, gas_mstore, gas_mstore8, gas_push,
  gas_return, gas_return_data_copy, gas_revert, gas_sload, gas_sstore, gas_static_call, gas_suicide,
  gas_swap, gas_tload, make_gas_log,
}
use taraxa_evm.Vm.Ops.Arithmetic.{
  op_add, op_addmod, op_and, op_byte, op_div, op_eq, op_exp, op_gt, op_iszero, op_keccak256, op_lt,
  op_mod, op_mul, op_mulmod, op_not, op_or, op_sar, op_sdiv, op_sgt, op_shl, op_shr, op_sign_extend,
  op_slt, op_smod, op_sub, op_xor,
}
use taraxa_evm.Vm.Ops.Environment.{
  op_address, op_balance, op_blockhash, op_call_data_copy, op_call_data_load, op_call_data_size,
  op_call_value, op_caller, op_chain_id, op_code_copy, op_code_size, op_coinbase, op_difficulty,
  op_ext_code_copy, op_ext_code_hash, op_ext_code_size, op_gas_limit, op_gasprice, op_number,
  op_origin, op_return_data_copy, op_return_data_size, op_self_balance, op_timestamp,
}
use taraxa_evm.Vm.Ops.Storage.{
  op_gas, op_mcopy, op_mload, op_msize, op_mstore, op_mstore8, op_pop, op_sload, op_sstore,
  op_tload, op_tstore,
}
use taraxa_evm.Vm.Ops.Control.{
  make_dup, make_log, make_push, make_swap, op_jump, op_jumpdest, op_jumpi, op_pc, op_push0,
  op_return, op_revert, op_stop, op_suicide,
}
use taraxa_evm.Vm.Ops.Calls.{
  op_call, op_call_code, op_create, op_create2, op_delegate_call, op_static_call, Calls,
}
use taraxa_evm.Vm.OpCode.{OpCode, decode}

pub record Operation (W : Type 0) : Type 0 where
  pub execute : Calls W → M W Bytes
  -- from the size of the memory after the operation
  pub gas_cost : ℕ → M W ℕ
  pub validate_stack : List ℕ → Option Error
  pub memory_size : Option (M W ℕ)
  pub halts : Bool
  pub jumps : Bool
  pub writes : Bool
  pub reverts : Bool
  pub returns : Bool

module _ (env : Env) where
  open env use {World as W, u256 as u, rules}

  -- An operation with no memory size and no flag.
  abbrev plain : (Calls W → M W Bytes) → (ℕ → M W ℕ) → (List ℕ → Option Error) → Operation W
  plain execute gas_cost validate_stack = record {
    execute = execute;
    gas_cost = gas_cost;
    validate_stack = validate_stack;
    memory_size = none;
    halts = false;
    jumps = false;
    writes = false;
    reverts = false;
    returns = false;
  }

  unfoldable pub operation_of : OpCode → Operation W
  operation_of OpCode.stop = record (plain (λ _. op_stop env) (const_gas 0) (make_stack_func 0 0)) {
    halts = true;
  }
  operation_of OpCode.add = plain (λ _. op_add env) (const_gas 3) (make_stack_func 2 1)
  operation_of OpCode.mul = plain (λ _. op_mul env) (const_gas 5) (make_stack_func 2 1)
  operation_of OpCode.sub = plain (λ _. op_sub env) (const_gas 3) (make_stack_func 2 1)
  operation_of OpCode.div = plain (λ _. op_div env) (const_gas 5) (make_stack_func 2 1)
  operation_of OpCode.sdiv = plain (λ _. op_sdiv env) (const_gas 5) (make_stack_func 2 1)
  operation_of OpCode.modulo = plain (λ _. op_mod env) (const_gas 5) (make_stack_func 2 1)
  operation_of OpCode.smod = plain (λ _. op_smod env) (const_gas 5) (make_stack_func 2 1)
  operation_of OpCode.addmod = plain (λ _. op_addmod env) (const_gas 8) (make_stack_func 3 1)
  operation_of OpCode.mulmod = plain (λ _. op_mulmod env) (const_gas 8) (make_stack_func 3 1)
  operation_of OpCode.exp = plain (λ _. op_exp env) (gas_exp env) (make_stack_func 2 1)
  operation_of OpCode.signextend =
      plain (λ _. op_sign_extend env) (const_gas 5) (make_stack_func 2 1)
  operation_of OpCode.lt = plain (λ _. op_lt env) (const_gas 3) (make_stack_func 2 1)
  operation_of OpCode.gt = plain (λ _. op_gt env) (const_gas 3) (make_stack_func 2 1)
  operation_of OpCode.slt = plain (λ _. op_slt env) (const_gas 3) (make_stack_func 2 1)
  operation_of OpCode.sgt = plain (λ _. op_sgt env) (const_gas 3) (make_stack_func 2 1)
  operation_of OpCode.eq = plain (λ _. op_eq env) (const_gas 3) (make_stack_func 2 1)
  operation_of OpCode.iszero = plain (λ _. op_iszero env) (const_gas 3) (make_stack_func 1 1)
  operation_of OpCode.and = plain (λ _. op_and env) (const_gas 3) (make_stack_func 2 1)
  operation_of OpCode.or = plain (λ _. op_or env) (const_gas 3) (make_stack_func 2 1)
  operation_of OpCode.xor = plain (λ _. op_xor env) (const_gas 3) (make_stack_func 2 1)
  operation_of OpCode.not = plain (λ _. op_not env) (const_gas 3) (make_stack_func 1 1)
  operation_of OpCode.byte = plain (λ _. op_byte env) (const_gas 3) (make_stack_func 2 1)
  operation_of OpCode.shl = plain (λ _. op_shl env) (const_gas 3) (make_stack_func 2 1)
  operation_of OpCode.shr = plain (λ _. op_shr env) (const_gas 3) (make_stack_func 2 1)
  operation_of OpCode.sar = plain (λ _. op_sar env) (const_gas 3) (make_stack_func 2 1)
  operation_of OpCode.keccak256 =
      record (plain (λ _. op_keccak256 env) (gas_keccak256 env) (make_stack_func 2 1)) {
        memory_size = some (memory_keccak256 u);
      }
  operation_of OpCode.address = plain (λ _. op_address env) (const_gas 2) (make_stack_func 0 1)
  operation_of OpCode.balance = plain (λ _. op_balance env) (gas_balance env) (make_stack_func 1 1)
  operation_of OpCode.origin = plain (λ _. op_origin env) (const_gas 2) (make_stack_func 0 1)
  operation_of OpCode.caller = plain (λ _. op_caller env) (const_gas 2) (make_stack_func 0 1)
  operation_of OpCode.callvalue = plain (λ _. op_call_value env) (const_gas 2) (make_stack_func 0 1)
  operation_of OpCode.calldataload =
      plain (λ _. op_call_data_load env) (const_gas 3) (make_stack_func 1 1)
  operation_of OpCode.calldatasize =
      plain (λ _. op_call_data_size env) (const_gas 2) (make_stack_func 0 1)
  operation_of OpCode.calldatacopy =
      record (plain (λ _. op_call_data_copy env) (gas_call_data_copy env) (make_stack_func 3 0)) {
        memory_size = some (memory_call_data_copy u);
      }
  operation_of OpCode.codesize = plain (λ _. op_code_size env) (const_gas 2) (make_stack_func 0 1)
  operation_of OpCode.codecopy =
      record (plain (λ _. op_code_copy env) (gas_code_copy env) (make_stack_func 3 0)) {
        memory_size = some (memory_code_copy u);
      }
  operation_of OpCode.gasprice = plain (λ _. op_gasprice env) (const_gas 2) (make_stack_func 0 1)
  operation_of OpCode.extcodesize =
      plain (λ _. op_ext_code_size env) (gas_ext_code_size env) (make_stack_func 1 1)
  operation_of OpCode.extcodecopy =
      record (plain (λ _. op_ext_code_copy env) (gas_ext_code_copy env) (make_stack_func 4 0)) {
        memory_size = some (memory_ext_code_copy u);
      }
  operation_of OpCode.returndatasize =
      plain (λ _. op_return_data_size env) (const_gas 2) (make_stack_func 0 1)
  operation_of OpCode.returndatacopy =
      record (plain (λ _. op_return_data_copy env) (gas_return_data_copy env)
        (make_stack_func 3 0)) { memory_size = some (memory_return_data_copy u) }
  operation_of OpCode.extcodehash =
      plain (λ _. op_ext_code_hash env) (gas_ext_code_hash env) (make_stack_func 1 1)
  operation_of OpCode.blockhash = plain (λ _. op_blockhash env) (const_gas 20) (make_stack_func 1 1)
  operation_of OpCode.coinbase = plain (λ _. op_coinbase env) (const_gas 2) (make_stack_func 0 1)
  operation_of OpCode.timestamp = plain (λ _. op_timestamp env) (const_gas 2) (make_stack_func 0 1)
  operation_of OpCode.number = plain (λ _. op_number env) (const_gas 2) (make_stack_func 0 1)
  operation_of OpCode.difficulty =
      plain (λ _. op_difficulty env) (const_gas 2) (make_stack_func 0 1)
  operation_of OpCode.gaslimit = plain (λ _. op_gas_limit env) (const_gas 2) (make_stack_func 0 1)
  operation_of OpCode.chainid = plain (λ _. op_chain_id env) (const_gas 2) (make_stack_func 0 1)
  operation_of OpCode.selfbalance =
      plain (λ _. op_self_balance env) (const_gas 5) (make_stack_func 0 1)
  operation_of OpCode.pop = plain (λ _. op_pop env) (const_gas 2) (make_stack_func 1 0)
  operation_of OpCode.mload =
      record (plain (λ _. op_mload env) (gas_mload env) (make_stack_func 1 1)) {
        memory_size = some (memory_mload u);
      }
  operation_of OpCode.mstore =
      record (plain (λ _. op_mstore env) (gas_mstore env) (make_stack_func 2 0)) {
        memory_size = some (memory_mstore u);
      }
  operation_of OpCode.mstore8 =
      record (plain (λ _. op_mstore8 env) (gas_mstore8 env) (make_stack_func 2 0)) {
        memory_size = some (memory_mstore8 u);
      }
  operation_of OpCode.sload = plain (λ _. op_sload env) (gas_sload env) (make_stack_func 1 1)
  operation_of OpCode.sstore =
      record (plain (λ _. op_sstore env) (gas_sstore env) (make_stack_func 2 0)) { writes = true }
  operation_of OpCode.jump = record (plain (λ _. op_jump env) (const_gas 8) (make_stack_func 1 0)) {
    jumps = true;
  }
  operation_of OpCode.jumpi =
      record (plain (λ _. op_jumpi env) (const_gas 10) (make_stack_func 2 0)) { jumps = true }
  operation_of OpCode.pc = plain (λ _. op_pc env) (const_gas 2) (make_stack_func 0 1)
  operation_of OpCode.msize = plain (λ _. op_msize env) (const_gas 2) (make_stack_func 0 1)
  operation_of OpCode.gas = plain (λ _. op_gas env) (const_gas 2) (make_stack_func 0 1)
  operation_of OpCode.jumpdest = plain (λ _. op_jumpdest env) (const_gas 1) (make_stack_func 0 0)
  operation_of OpCode.tload = plain (λ _. op_tload env) (gas_tload env) (make_stack_func 1 1)
  operation_of OpCode.tstore = plain (λ _. op_tstore env) (gas_tload env) (make_stack_func 2 0)
  operation_of OpCode.mcopy =
      record (plain (λ _. op_mcopy env) (gas_mcopy env) (make_stack_func 3 0)) {
        memory_size = some (memory_mcopy u);
      }
  operation_of OpCode.push0 = plain (λ _. op_push0 env) (const_gas 2) (make_stack_func 0 1)
  operation_of (OpCode.push n) = plain (λ _. make_push env n) (gas_push env) (make_stack_func 0 1)
  operation_of (OpCode.dup n) = plain (λ _. make_dup env n) (gas_dup env) (make_dup_stack_func n)
  operation_of (OpCode.swap n) =
      plain (λ _. make_swap env n) (gas_swap env) (make_swap_stack_func (n + 1))
  operation_of (OpCode.log n) =
      record (plain (λ _. make_log env n) (make_gas_log env n) (make_stack_func (n + 2) 0)) {
        memory_size = some (memory_log u);
        writes = true;
      }
  operation_of OpCode.create =
      record (plain (op_create env) (gas_create env) (make_stack_func 3 1)) {
        memory_size = some (memory_create u);
        writes = true;
        returns = true;
      }
  operation_of OpCode.call = record (plain (op_call env) (gas_call env) (make_stack_func 7 1)) {
    memory_size = some (memory_call u);
    returns = true;
  }
  operation_of OpCode.callcode =
      record (plain (op_call_code env) (gas_call_code env) (make_stack_func 7 1)) {
        memory_size = some (memory_call u);
        returns = true;
      }
  operation_of OpCode.return =
      record (plain (λ _. op_return env) (gas_return env) (make_stack_func 2 0)) {
        memory_size = some (memory_return u);
        halts = true;
      }
  operation_of OpCode.delegatecall =
      record (plain (op_delegate_call env) (gas_delegate_call env) (make_stack_func 6 1)) {
        memory_size = some (memory_delegate_call u);
        returns = true;
      }
  operation_of OpCode.create2 =
      record (plain (op_create2 env) (gas_create2 env) (make_stack_func 4 1)) {
        memory_size = some (memory_create2 u);
        writes = true;
        returns = true;
      }
  operation_of OpCode.staticcall =
      record (plain (op_static_call env) (gas_static_call env) (make_stack_func 6 1)) {
        memory_size = some (memory_static_call u);
        returns = true;
      }
  operation_of OpCode.revert =
      record (plain (λ _. op_revert env) (gas_revert env) (make_stack_func 2 0)) {
        memory_size = some (memory_revert u);
        reverts = true;
        returns = true;
      }
  operation_of OpCode.selfdestruct =
      record (plain (λ _. op_suicide env) (gas_suicide env) (make_stack_func 1 0)) {
        halts = true;
        writes = true;
      }

  -- MCOPY came with the Ficus hard fork.
  abbrev pub enabled : OpCode → Bool
  enabled OpCode.mcopy = rules.is_ficus
  enabled _ = true

  -- `self.instruction_set[op]`
  unfoldable pub instruction_set : ℕ → Option (Operation W)
  unfolding operation_of
  instruction_set op = elim (decode op) [
    | none ↦ none
    | some code ↦ if enabled code then some (operation_of code) else none
  ]
