-- ===== src/Vm/Effect/Execute.antt =====
-- Every operation has the effect that the jump table declares.
use taraxa_evm.Prelude.{ℕ, zero, suc, ◌+◌, ◌≤◌, List, length, arith}
use taraxa_evm.Vm.Env.{Env}
use taraxa_evm.Vm.Machine.{Machine}
use taraxa_evm.Prelude.Int.{pos}
use taraxa_evm.Vm.Memory.{mem_len}
use taraxa_evm.Vm.Gas.{account_of}
use taraxa_evm.Vm.Ops.Calls.{Calls}
use taraxa_evm.Vm.OpCode.{OpCode}
use taraxa_evm.Vm.JumpTable.{operation_of}
use taraxa_evm.Vm.Effect.Rules.{Effect, with_stack}
use taraxa_evm.Vm.Effect.Values.{
  unary-Effect, binary-Effect, ternary-Effect, push_of-Effect, replace_account-Effect,
  op_keccak256-Effect, op_call_data_load-Effect, op_ext_code_hash-Effect, op_blockhash-Effect,
}
use taraxa_evm.Vm.Effect.Moves.{
  make_dup-Effect, make_log-Effect, make_push-Effect, make_swap-Effect, op_call_data_copy-Effect,
  op_code_copy-Effect, op_ext_code_copy-Effect, op_jump-Effect, op_jumpi-Effect, op_mcopy-Effect,
  op_mload-Effect, op_mstore-Effect, op_mstore8-Effect, op_pop-Effect, op_return-Effect,
  op_return_data_copy-Effect, op_revert-Effect, op_sload-Effect, op_sstore-Effect,
  op_suicide-Effect, op_tload-Effect, op_tstore-Effect,
}
use taraxa_evm.Vm.Effect.Nested.{
  Serves, op_create-Effect, op_call-Effect, op_call_code-Effect, op_delegate_call-Effect,
  op_create2-Effect, op_static_call-Effect,
}
use taraxa_evm.Vm.Effect.Table.{pops, pushes, IsValid, comes_back, least_cost}
use taraxa_evm.Vm.Ops.Control.{op_stop, op_pc, op_jumpdest, op_push0}
use taraxa_evm.Vm.Ops.Arithmetic.{
  op_add, op_mul, op_sub, op_div, op_sdiv, op_mod, op_smod, op_addmod, op_mulmod, op_exp,
  op_sign_extend, op_lt, op_gt, op_slt, op_sgt, op_eq, op_iszero, op_and, op_or, op_xor, op_not,
  op_byte, op_shl, op_shr, op_sar,
}
use taraxa_evm.Vm.Ops.Environment.{
  op_address, op_balance, op_origin, op_caller, op_call_value, op_call_data_size, op_code_size,
  op_gasprice, op_ext_code_size, op_return_data_size, op_coinbase, op_timestamp, op_number,
  op_difficulty, op_gas_limit, op_chain_id, op_self_balance,
}
use taraxa_evm.Vm.Ops.Storage.{op_msize, op_gas}

module _ (env : Env) (m : Machine (env.World)) (bound : ℕ) (calls : Calls (env.World))
    (serves : Serves bound calls) where
  -- Whenever nested runs with less gas than `bound` give back at most the gas that they get, and the
  -- gas, with what may come back and the least cost, is within `bound`: a valid code executed on a
  -- stack with enough items changes the height of the stack as the jump table declares, gives back
  -- at most the gas of a call and its stipend, and ends in no fault of the stack.
  pub execute-Effect :
      (code : OpCode)
      → IsValid code
      → (s : List ℕ) → pops code ≤ length s
      → m.gas + comes_back env code m.evm.call_gas_tmp s + least_cost code ≤ bound
      → Effect
          (pops code)
          (pushes code)
          (comes_back env code m.evm.call_gas_tmp s)
          (with_stack m s)
          ((operation_of env code).execute calls (with_stack m s))
  unfolding operation_of op_stop op_add op_mul op_sub op_div op_sdiv op_mod op_smod op_addmod
      op_mulmod op_exp op_sign_extend op_lt op_gt op_slt op_sgt op_eq op_iszero op_and op_or op_xor
      op_not op_byte op_shl op_shr op_sar op_address op_balance op_origin op_caller op_call_value
      op_call_data_size op_code_size op_gasprice op_ext_code_size op_return_data_size op_coinbase
      op_timestamp op_number op_difficulty op_gas_limit op_chain_id op_self_balance op_pc op_msize
      op_gas op_jumpdest op_push0
  execute-Effect OpCode.stop v s h g = omega arith
  execute-Effect OpCode.add v s h g = binary-Effect m _ s h
  execute-Effect OpCode.mul v s h g = binary-Effect m _ s h
  execute-Effect OpCode.sub v s h g = binary-Effect m _ s h
  execute-Effect OpCode.div v s h g = binary-Effect m _ s h
  execute-Effect OpCode.sdiv v s h g = binary-Effect m _ s h
  execute-Effect OpCode.modulo v s h g = binary-Effect m _ s h
  execute-Effect OpCode.smod v s h g = binary-Effect m _ s h
  execute-Effect OpCode.addmod v s h g = ternary-Effect m _ s h
  execute-Effect OpCode.mulmod v s h g = ternary-Effect m _ s h
  execute-Effect OpCode.exp v s h g = binary-Effect m _ s h
  execute-Effect OpCode.signextend v s h g = binary-Effect m _ s h
  execute-Effect OpCode.lt v s h g = binary-Effect m _ s h
  execute-Effect OpCode.gt v s h g = binary-Effect m _ s h
  execute-Effect OpCode.slt v s h g = binary-Effect m _ s h
  execute-Effect OpCode.sgt v s h g = binary-Effect m _ s h
  execute-Effect OpCode.eq v s h g = binary-Effect m _ s h
  execute-Effect OpCode.iszero v s h g = unary-Effect m _ s h
  execute-Effect OpCode.and v s h g = binary-Effect m _ s h
  execute-Effect OpCode.or v s h g = binary-Effect m _ s h
  execute-Effect OpCode.xor v s h g = binary-Effect m _ s h
  execute-Effect OpCode.not v s h g = unary-Effect m _ s h
  execute-Effect OpCode.byte v s h g = binary-Effect m _ s h
  execute-Effect OpCode.shl v s h g = binary-Effect m _ s h
  execute-Effect OpCode.shr v s h g = binary-Effect m _ s h
  execute-Effect OpCode.sar v s h g = binary-Effect m _ s h
  execute-Effect OpCode.keccak256 v s h g = op_keccak256-Effect env m s h
  execute-Effect OpCode.address v s h g = push_of-Effect m account_of s
  execute-Effect OpCode.balance v s h g =
      replace_account-Effect env m (λ a w. env.u256.set_from_big (env.state_ops.get_balance a w)) s
        h
  execute-Effect OpCode.origin v s h g = push_of-Effect m (λ _. env.trx.from) s
  execute-Effect OpCode.caller v s h g = push_of-Effect m (λ m. m.contract.frame.caller_account) s
  execute-Effect OpCode.callvalue v s h g =
      push_of-Effect m (λ m. env.u256.set_from_big (pos m.contract.frame.value)) s
  execute-Effect OpCode.calldataload v s h g = op_call_data_load-Effect env m s h
  execute-Effect OpCode.calldatasize v s h g =
      push_of-Effect m (λ m. length m.contract.frame.input) s
  execute-Effect OpCode.calldatacopy v s h g = op_call_data_copy-Effect env m s h
  execute-Effect OpCode.codesize v s h g = push_of-Effect m (λ m. length m.contract.code) s
  execute-Effect OpCode.codecopy v s h g = op_code_copy-Effect env m s h
  execute-Effect OpCode.gasprice v s h g =
      push_of-Effect m (λ _. env.u256.set_from_big (pos env.trx.gas_price)) s
  execute-Effect OpCode.extcodesize v s h g =
      replace_account-Effect env m env.state_ops.get_code_size s h
  execute-Effect OpCode.extcodecopy v s h g = op_ext_code_copy-Effect env m s h
  execute-Effect OpCode.returndatasize v s h g = push_of-Effect m (λ m. length m.evm.last_retval) s
  execute-Effect OpCode.returndatacopy v s h g = op_return_data_copy-Effect env m s h
  execute-Effect OpCode.extcodehash v s h g = op_ext_code_hash-Effect env m s h
  execute-Effect OpCode.blockhash v s h g = op_blockhash-Effect env m s h
  execute-Effect OpCode.coinbase v s h g = push_of-Effect m (λ _. env.block.author) s
  execute-Effect OpCode.timestamp v s h g = push_of-Effect m (λ _. env.block.time) s
  execute-Effect OpCode.number v s h g = push_of-Effect m (λ _. env.block.number) s
  execute-Effect OpCode.difficulty v s h g =
      push_of-Effect m (λ _. env.u256.set_from_big env.block.difficulty) s
  execute-Effect OpCode.gaslimit v s h g = push_of-Effect m (λ _. env.block.gas_limit) s
  execute-Effect OpCode.chainid v s h g = push_of-Effect m (λ _. env.chain_id) s
  execute-Effect OpCode.selfbalance v s h g =
      push_of-Effect m
        (λ m. env.u256.set_from_big (env.state_ops.get_balance (account_of m) m.evm.state)) s
  execute-Effect OpCode.pop v s h g = op_pop-Effect env m s h
  execute-Effect OpCode.mload v s h g = op_mload-Effect env m s h
  execute-Effect OpCode.mstore v s h g = op_mstore-Effect env m s h
  execute-Effect OpCode.mstore8 v s h g = op_mstore8-Effect env m s h
  execute-Effect OpCode.sload v s h g = op_sload-Effect env m s h
  execute-Effect OpCode.sstore v s h g = op_sstore-Effect env m s h
  execute-Effect OpCode.jump v s h g = op_jump-Effect env m s h
  execute-Effect OpCode.jumpi v s h g = op_jumpi-Effect env m s h
  execute-Effect OpCode.pc v s h g = push_of-Effect m (λ m. m.pc) s
  execute-Effect OpCode.msize v s h g = push_of-Effect m mem_len s
  execute-Effect OpCode.gas v s h g = push_of-Effect m (λ m. m.gas) s
  execute-Effect OpCode.jumpdest v s h g = omega arith
  execute-Effect OpCode.tload v s h g = op_tload-Effect env m s h
  execute-Effect OpCode.tstore v s h g = op_tstore-Effect env m s h
  execute-Effect OpCode.mcopy v s h g = op_mcopy-Effect env m s h
  execute-Effect OpCode.push0 v s h g = push_of-Effect m (λ _. 0) s
  execute-Effect (OpCode.push n) v s h g = make_push-Effect env m n s
  execute-Effect (OpCode.dup zero) v s h g = absurd (omega arith)
  execute-Effect (OpCode.dup (suc n)) v s h g = make_dup-Effect env m n s h
  execute-Effect (OpCode.swap n) v s h g = make_swap-Effect env m n s (omega arith)
  execute-Effect (OpCode.log n) v s h g = make_log-Effect env m n s h
  execute-Effect OpCode.create v s h g =
      op_create-Effect env m bound calls serves s h (omega (arith, g))
  execute-Effect OpCode.call v s h g =
      op_call-Effect env m bound calls serves s h (omega (arith, g))
  execute-Effect OpCode.callcode v s h g =
      op_call_code-Effect env m bound calls serves s h (omega (arith, g))
  execute-Effect OpCode.return v s h g = op_return-Effect env m s h
  execute-Effect OpCode.delegatecall v s h g =
      op_delegate_call-Effect env m bound calls serves s h (omega (arith, g))
  execute-Effect OpCode.create2 v s h g =
      op_create2-Effect env m bound calls serves s h (omega (arith, g))
  execute-Effect OpCode.staticcall v s h g =
      op_static_call-Effect env m bound calls serves s h (omega (arith, g))
  execute-Effect OpCode.revert v s h g = op_revert-Effect env m s h
  execute-Effect OpCode.selfdestruct v s h g = op_suicide-Effect env m s h
