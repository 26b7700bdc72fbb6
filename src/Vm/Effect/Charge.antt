-- ===== src/Vm/Effect/Charge.antt =====
-- What the gas functions charge, against what can come back from an operation (core/vm/gas.go).
use taraxa_evm.Prelude.{ℕ, suc, ◌+◌, ◌≤◌, ◌≡◌, refl, List, length, arith}
use taraxa_evm.Vm.Env.{Env}
use taraxa_evm.Vm.Machine.{Machine, Outcome, ok, err, fault}
use taraxa_evm.Vm.Gas.{
  const_gas, gas_balance, gas_ext_code_size, gas_ext_code_hash, gas_sload, gas_tload, gas_push,
  gas_dup, gas_swap,
}
use taraxa_evm.Vm.OpCode.{OpCode}
use taraxa_evm.Vm.JumpTable.{operation_of}
use taraxa_evm.Vm.Effect.Rules.{Ends, with_stack}
use taraxa_evm.Vm.Effect.Prices.{
  Priced, SetsAside, gas_call-SetsAside, gas_call_code-SetsAside, gas_call_data_copy-Priced,
  gas_code_copy-Priced, gas_create-Priced, gas_create2-Priced, gas_delegate_call-SetsAside,
  gas_exp-Priced, gas_ext_code_copy-Priced, gas_keccak256-Priced, gas_mcopy-Priced,
  gas_mload-Priced, gas_mstore-Priced, gas_mstore8-Priced, gas_return-Priced,
  gas_return_data_copy-Priced, gas_revert-Priced, gas_sstore-Priced, gas_static_call-SetsAside,
  gas_suicide-Priced, make_gas_log-Priced,
}
use taraxa_evm.Vm.Effect.Nested.{stipend}
use taraxa_evm.Vm.Effect.Table.{pops, comes_back, least_cost}

-- The stack and the gas stay, and the cost covers what comes back and the least cost.
abbrev pub Covers : (env : Env) → OpCode → Machine (env.World) → Outcome (env.World) ℕ → Type 0
Covers env code m = Ends m.gas (λ cost m'.
    (m'.stack ≡ m.stack)
    × (m'.gas ≡ m.gas)
    × (comes_back env code m'.evm.call_gas_tmp m.stack + least_cost code ≤ cost))

module _ {W : Type 0} (m : Machine W) where
  at_least :
      (least less : ℕ) (o : Outcome W ℕ)
      → less ≤ least
      → Priced least m o
      → Ends m.gas (λ cost m'. (m'.stack ≡ m.stack) × (m'.gas ≡ m.gas) × (0 + less ≤ cost)) o
  at_least least less (ok a m') h p = ground (arith, p)
  at_least least less (err e m') h p = p
  at_least least less (fault f) h p = p

  more_aside :
      (back extra : ℕ) (o : Outcome W ℕ)
      → back + 1 ≤ extra
      → SetsAside extra m o
      → Ends m.gas
          (λ cost m'.
            (m'.stack ≡ m.stack) × (m'.gas ≡ m.gas) × (m'.evm.call_gas_tmp + back + 1 ≤ cost))
          o
  more_aside back extra (ok a m') h p = ground (arith, p)
  more_aside back extra (err e m') h p = p
  more_aside back extra (fault f) h p = p

module _ (env : Env) (size : ℕ) (m : Machine (env.World)) where
  -- On a stack with enough items, the gas function of a code that returns leaves the stack and the
  -- gas alone, and its cost is at least what may come back from the operation and the least cost of
  -- the code: 1, or 0 for STOP, RETURN and REVERT. If it fails it leaves no more gas.
  pub gas_cost-Covers :
      (code : OpCode) (s : List ℕ)
      → pops code ≤ length s
      → Covers env code (with_stack m s) ((operation_of env code).gas_cost size (with_stack m s))
  unfolding operation_of const_gas gas_balance gas_ext_code_size gas_ext_code_hash gas_sload
      gas_tload gas_push gas_dup gas_swap
  gas_cost-Covers OpCode.stop s h = (refl, refl, omega arith)
  gas_cost-Covers OpCode.add s h = (refl, refl, omega arith)
  gas_cost-Covers OpCode.mul s h = (refl, refl, omega arith)
  gas_cost-Covers OpCode.sub s h = (refl, refl, omega arith)
  gas_cost-Covers OpCode.div s h = (refl, refl, omega arith)
  gas_cost-Covers OpCode.sdiv s h = (refl, refl, omega arith)
  gas_cost-Covers OpCode.modulo s h = (refl, refl, omega arith)
  gas_cost-Covers OpCode.smod s h = (refl, refl, omega arith)
  gas_cost-Covers OpCode.addmod s h = (refl, refl, omega arith)
  gas_cost-Covers OpCode.mulmod s h = (refl, refl, omega arith)
  gas_cost-Covers OpCode.exp s h =
      at_least (with_stack m s) 10 1 _ (omega arith) (gas_exp-Priced env size (with_stack m s) h)
  gas_cost-Covers OpCode.signextend s h = (refl, refl, omega arith)
  gas_cost-Covers OpCode.lt s h = (refl, refl, omega arith)
  gas_cost-Covers OpCode.gt s h = (refl, refl, omega arith)
  gas_cost-Covers OpCode.slt s h = (refl, refl, omega arith)
  gas_cost-Covers OpCode.sgt s h = (refl, refl, omega arith)
  gas_cost-Covers OpCode.eq s h = (refl, refl, omega arith)
  gas_cost-Covers OpCode.iszero s h = (refl, refl, omega arith)
  gas_cost-Covers OpCode.and s h = (refl, refl, omega arith)
  gas_cost-Covers OpCode.or s h = (refl, refl, omega arith)
  gas_cost-Covers OpCode.xor s h = (refl, refl, omega arith)
  gas_cost-Covers OpCode.not s h = (refl, refl, omega arith)
  gas_cost-Covers OpCode.byte s h = (refl, refl, omega arith)
  gas_cost-Covers OpCode.shl s h = (refl, refl, omega arith)
  gas_cost-Covers OpCode.shr s h = (refl, refl, omega arith)
  gas_cost-Covers OpCode.sar s h = (refl, refl, omega arith)
  gas_cost-Covers OpCode.keccak256 s h =
      at_least (with_stack m s) 6 1 _ (omega arith)
        (gas_keccak256-Priced env size (with_stack m s) h)
  gas_cost-Covers OpCode.address s h = (refl, refl, omega arith)
  gas_cost-Covers OpCode.balance s h = (refl, refl, omega arith)
  gas_cost-Covers OpCode.origin s h = (refl, refl, omega arith)
  gas_cost-Covers OpCode.caller s h = (refl, refl, omega arith)
  gas_cost-Covers OpCode.callvalue s h = (refl, refl, omega arith)
  gas_cost-Covers OpCode.calldataload s h = (refl, refl, omega arith)
  gas_cost-Covers OpCode.calldatasize s h = (refl, refl, omega arith)
  gas_cost-Covers OpCode.calldatacopy s h =
      at_least (with_stack m s) 3 1 _ (omega arith)
        (gas_call_data_copy-Priced env size (with_stack m s) h)
  gas_cost-Covers OpCode.codesize s h = (refl, refl, omega arith)
  gas_cost-Covers OpCode.codecopy s h =
      at_least (with_stack m s) 3 1 _ (omega arith)
        (gas_code_copy-Priced env size (with_stack m s) h)
  gas_cost-Covers OpCode.gasprice s h = (refl, refl, omega arith)
  gas_cost-Covers OpCode.extcodesize s h = (refl, refl, omega arith)
  gas_cost-Covers OpCode.extcodecopy s h =
      at_least (with_stack m s) 700 1 _ (omega arith)
        (gas_ext_code_copy-Priced env size (with_stack m s) h)
  gas_cost-Covers OpCode.returndatasize s h = (refl, refl, omega arith)
  gas_cost-Covers OpCode.returndatacopy s h =
      at_least (with_stack m s) 3 1 _ (omega arith)
        (gas_return_data_copy-Priced env size (with_stack m s) h)
  gas_cost-Covers OpCode.extcodehash s h = (refl, refl, omega arith)
  gas_cost-Covers OpCode.blockhash s h = (refl, refl, omega arith)
  gas_cost-Covers OpCode.coinbase s h = (refl, refl, omega arith)
  gas_cost-Covers OpCode.timestamp s h = (refl, refl, omega arith)
  gas_cost-Covers OpCode.number s h = (refl, refl, omega arith)
  gas_cost-Covers OpCode.difficulty s h = (refl, refl, omega arith)
  gas_cost-Covers OpCode.gaslimit s h = (refl, refl, omega arith)
  gas_cost-Covers OpCode.chainid s h = (refl, refl, omega arith)
  gas_cost-Covers OpCode.selfbalance s h = (refl, refl, omega arith)
  gas_cost-Covers OpCode.pop s h = (refl, refl, omega arith)
  gas_cost-Covers OpCode.mload s h =
      at_least (with_stack m s) 3 1 _ (omega arith) (gas_mload-Priced env size (with_stack m s))
  gas_cost-Covers OpCode.mstore s h =
      at_least (with_stack m s) 3 1 _ (omega arith) (gas_mstore-Priced env size (with_stack m s))
  gas_cost-Covers OpCode.mstore8 s h =
      at_least (with_stack m s) 3 1 _ (omega arith) (gas_mstore8-Priced env size (with_stack m s))
  gas_cost-Covers OpCode.sload s h = (refl, refl, omega arith)
  gas_cost-Covers OpCode.sstore s h =
      at_least (with_stack m s) 200 1 _ (omega arith)
        (gas_sstore-Priced env size (with_stack m s) h)
  gas_cost-Covers OpCode.jump s h = (refl, refl, omega arith)
  gas_cost-Covers OpCode.jumpi s h = (refl, refl, omega arith)
  gas_cost-Covers OpCode.pc s h = (refl, refl, omega arith)
  gas_cost-Covers OpCode.msize s h = (refl, refl, omega arith)
  gas_cost-Covers OpCode.gas s h = (refl, refl, omega arith)
  gas_cost-Covers OpCode.jumpdest s h = (refl, refl, omega arith)
  gas_cost-Covers OpCode.tload s h = (refl, refl, omega arith)
  gas_cost-Covers OpCode.tstore s h = (refl, refl, omega arith)
  gas_cost-Covers OpCode.mcopy s h =
      at_least (with_stack m s) 3 1 _ (omega arith) (gas_mcopy-Priced env size (with_stack m s) h)
  gas_cost-Covers OpCode.push0 s h = (refl, refl, omega arith)
  gas_cost-Covers (OpCode.push n) s h = (refl, refl, omega arith)
  gas_cost-Covers (OpCode.dup n) s h = (refl, refl, omega arith)
  gas_cost-Covers (OpCode.swap n) s h = (refl, refl, omega arith)
  gas_cost-Covers (OpCode.log n) s h =
      at_least (with_stack m s) 375 1 _ (omega arith)
        (make_gas_log-Priced env size (with_stack m s) n (omega (arith, h)))
  gas_cost-Covers OpCode.create s h =
      at_least (with_stack m s) 32000 1 _ (omega arith)
        (gas_create-Priced env size (with_stack m s))
  gas_cost-Covers OpCode.call s h =
      more_aside (with_stack m s) (stipend env s) (suc (stipend env s)) _ (omega arith)
        (gas_call-SetsAside env size m s h)
  gas_cost-Covers OpCode.callcode s h =
      more_aside (with_stack m s) (stipend env s) (suc (stipend env s)) _ (omega arith)
        (gas_call_code-SetsAside env size m s h)
  gas_cost-Covers OpCode.return s h =
      at_least (with_stack m s) 0 0 _ (omega arith) (gas_return-Priced env size (with_stack m s))
  gas_cost-Covers OpCode.delegatecall s h =
      more_aside (with_stack m s) 0 700 _ (omega arith)
        (gas_delegate_call-SetsAside env size (with_stack m s) (omega (arith, h)))
  gas_cost-Covers OpCode.create2 s h =
      at_least (with_stack m s) 32000 1 _ (omega arith)
        (gas_create2-Priced env size (with_stack m s) h)
  gas_cost-Covers OpCode.staticcall s h =
      more_aside (with_stack m s) 0 700 _ (omega arith)
        (gas_static_call-SetsAside env size (with_stack m s) (omega (arith, h)))
  gas_cost-Covers OpCode.revert s h =
      at_least (with_stack m s) 0 0 _ (omega arith) (gas_revert-Priced env size (with_stack m s))
  gas_cost-Covers OpCode.selfdestruct s h =
      at_least (with_stack m s) 5000 1 _ (omega arith)
        (gas_suicide-Priced env size (with_stack m s) h)
