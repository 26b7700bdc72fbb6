-- ===== src/Vm/Effect/Validate.antt =====
-- What the validations and the flags of the jump table say.
use taraxa_evm.Prelude.{ℕ, ◌+◌, ◌≤◌, ◌≡◌, Option, none, some, List, length, arith, false}
use taraxa_evm.Vm.Env.{Env, Error}
use taraxa_evm.Vm.Stack.{make_stack_func, make_dup_stack_func, make_swap_stack_func}
use taraxa_evm.Vm.Ops.Calls.{reverted}
use taraxa_evm.Vm.OpCode.{OpCode}
use taraxa_evm.Vm.JumpTable.{operation_of}
use taraxa_evm.Vm.Effect.Table.{pops, pushes, least_cost}

-- What a validation says of the stack.
abbrev pub Allows : (popped pushed height : ℕ) → Option Error → Type 0
Allows popped pushed height none = (popped ≤ height) × (height + pushed ≤ 1024 + popped)
Allows popped pushed height (some e) = reverted (some e) ≡ false

make_stack_func-Allows :
    (popped pushed : ℕ) (s : List ℕ)
    → Allows popped pushed (length s) (make_stack_func popped pushed s)
unfolding make_stack_func
make_stack_func-Allows popped pushed s = ground arith

-- The validation of an operation code lets a stack through only if it holds all the items that the
-- code takes and at most 1024 items after it; the error else is not ErrExecutionReverted.
pub validate_stack-Allows :
    (env : Env) (code : OpCode) (s : List ℕ)
    → Allows (pops code) (pushes code) (length s) ((operation_of env code).validate_stack s)
unfolding operation_of make_dup_stack_func make_swap_stack_func
validate_stack-Allows env OpCode.stop s = make_stack_func-Allows (0) (0) s
validate_stack-Allows env OpCode.add s = make_stack_func-Allows (2) (1) s
validate_stack-Allows env OpCode.mul s = make_stack_func-Allows (2) (1) s
validate_stack-Allows env OpCode.sub s = make_stack_func-Allows (2) (1) s
validate_stack-Allows env OpCode.div s = make_stack_func-Allows (2) (1) s
validate_stack-Allows env OpCode.sdiv s = make_stack_func-Allows (2) (1) s
validate_stack-Allows env OpCode.modulo s = make_stack_func-Allows (2) (1) s
validate_stack-Allows env OpCode.smod s = make_stack_func-Allows (2) (1) s
validate_stack-Allows env OpCode.addmod s = make_stack_func-Allows (3) (1) s
validate_stack-Allows env OpCode.mulmod s = make_stack_func-Allows (3) (1) s
validate_stack-Allows env OpCode.exp s = make_stack_func-Allows (2) (1) s
validate_stack-Allows env OpCode.signextend s = make_stack_func-Allows (2) (1) s
validate_stack-Allows env OpCode.lt s = make_stack_func-Allows (2) (1) s
validate_stack-Allows env OpCode.gt s = make_stack_func-Allows (2) (1) s
validate_stack-Allows env OpCode.slt s = make_stack_func-Allows (2) (1) s
validate_stack-Allows env OpCode.sgt s = make_stack_func-Allows (2) (1) s
validate_stack-Allows env OpCode.eq s = make_stack_func-Allows (2) (1) s
validate_stack-Allows env OpCode.iszero s = make_stack_func-Allows (1) (1) s
validate_stack-Allows env OpCode.and s = make_stack_func-Allows (2) (1) s
validate_stack-Allows env OpCode.or s = make_stack_func-Allows (2) (1) s
validate_stack-Allows env OpCode.xor s = make_stack_func-Allows (2) (1) s
validate_stack-Allows env OpCode.not s = make_stack_func-Allows (1) (1) s
validate_stack-Allows env OpCode.byte s = make_stack_func-Allows (2) (1) s
validate_stack-Allows env OpCode.shl s = make_stack_func-Allows (2) (1) s
validate_stack-Allows env OpCode.shr s = make_stack_func-Allows (2) (1) s
validate_stack-Allows env OpCode.sar s = make_stack_func-Allows (2) (1) s
validate_stack-Allows env OpCode.keccak256 s = make_stack_func-Allows (2) (1) s
validate_stack-Allows env OpCode.address s = make_stack_func-Allows (0) (1) s
validate_stack-Allows env OpCode.balance s = make_stack_func-Allows (1) (1) s
validate_stack-Allows env OpCode.origin s = make_stack_func-Allows (0) (1) s
validate_stack-Allows env OpCode.caller s = make_stack_func-Allows (0) (1) s
validate_stack-Allows env OpCode.callvalue s = make_stack_func-Allows (0) (1) s
validate_stack-Allows env OpCode.calldataload s = make_stack_func-Allows (1) (1) s
validate_stack-Allows env OpCode.calldatasize s = make_stack_func-Allows (0) (1) s
validate_stack-Allows env OpCode.calldatacopy s = make_stack_func-Allows (3) (0) s
validate_stack-Allows env OpCode.codesize s = make_stack_func-Allows (0) (1) s
validate_stack-Allows env OpCode.codecopy s = make_stack_func-Allows (3) (0) s
validate_stack-Allows env OpCode.gasprice s = make_stack_func-Allows (0) (1) s
validate_stack-Allows env OpCode.extcodesize s = make_stack_func-Allows (1) (1) s
validate_stack-Allows env OpCode.extcodecopy s = make_stack_func-Allows (4) (0) s
validate_stack-Allows env OpCode.returndatasize s = make_stack_func-Allows (0) (1) s
validate_stack-Allows env OpCode.returndatacopy s = make_stack_func-Allows (3) (0) s
validate_stack-Allows env OpCode.extcodehash s = make_stack_func-Allows (1) (1) s
validate_stack-Allows env OpCode.blockhash s = make_stack_func-Allows (1) (1) s
validate_stack-Allows env OpCode.coinbase s = make_stack_func-Allows (0) (1) s
validate_stack-Allows env OpCode.timestamp s = make_stack_func-Allows (0) (1) s
validate_stack-Allows env OpCode.number s = make_stack_func-Allows (0) (1) s
validate_stack-Allows env OpCode.difficulty s = make_stack_func-Allows (0) (1) s
validate_stack-Allows env OpCode.gaslimit s = make_stack_func-Allows (0) (1) s
validate_stack-Allows env OpCode.chainid s = make_stack_func-Allows (0) (1) s
validate_stack-Allows env OpCode.selfbalance s = make_stack_func-Allows (0) (1) s
validate_stack-Allows env OpCode.pop s = make_stack_func-Allows (1) (0) s
validate_stack-Allows env OpCode.mload s = make_stack_func-Allows (1) (1) s
validate_stack-Allows env OpCode.mstore s = make_stack_func-Allows (2) (0) s
validate_stack-Allows env OpCode.mstore8 s = make_stack_func-Allows (2) (0) s
validate_stack-Allows env OpCode.sload s = make_stack_func-Allows (1) (1) s
validate_stack-Allows env OpCode.sstore s = make_stack_func-Allows (2) (0) s
validate_stack-Allows env OpCode.jump s = make_stack_func-Allows (1) (0) s
validate_stack-Allows env OpCode.jumpi s = make_stack_func-Allows (2) (0) s
validate_stack-Allows env OpCode.pc s = make_stack_func-Allows (0) (1) s
validate_stack-Allows env OpCode.msize s = make_stack_func-Allows (0) (1) s
validate_stack-Allows env OpCode.gas s = make_stack_func-Allows (0) (1) s
validate_stack-Allows env OpCode.jumpdest s = make_stack_func-Allows (0) (0) s
validate_stack-Allows env OpCode.tload s = make_stack_func-Allows (1) (1) s
validate_stack-Allows env OpCode.tstore s = make_stack_func-Allows (2) (0) s
validate_stack-Allows env OpCode.mcopy s = make_stack_func-Allows (3) (0) s
validate_stack-Allows env OpCode.push0 s = make_stack_func-Allows (0) (1) s
validate_stack-Allows env (OpCode.push n) s = make_stack_func-Allows (0) (1) s
validate_stack-Allows env (OpCode.dup n) s = make_stack_func-Allows (n) (n + 1) s
validate_stack-Allows env (OpCode.swap n) s = make_stack_func-Allows (n + 1) (n + 1) s
validate_stack-Allows env (OpCode.log n) s = make_stack_func-Allows (n + 2) (0) s
validate_stack-Allows env OpCode.create s = make_stack_func-Allows (3) (1) s
validate_stack-Allows env OpCode.call s = make_stack_func-Allows (7) (1) s
validate_stack-Allows env OpCode.callcode s = make_stack_func-Allows (7) (1) s
validate_stack-Allows env OpCode.return s = make_stack_func-Allows (2) (0) s
validate_stack-Allows env OpCode.delegatecall s = make_stack_func-Allows (6) (1) s
validate_stack-Allows env OpCode.create2 s = make_stack_func-Allows (4) (1) s
validate_stack-Allows env OpCode.staticcall s = make_stack_func-Allows (6) (1) s
validate_stack-Allows env OpCode.revert s = make_stack_func-Allows (2) (0) s
validate_stack-Allows env OpCode.selfdestruct s = make_stack_func-Allows (1) (0) s

-- An operation after which the run goes on is not free.
pub next-least_cost :
    (env : Env) (code : OpCode)
    → (operation_of env code).reverts ≡ false
    → (operation_of env code).halts ≡ false
    → 1 ≤ least_cost code
unfolding operation_of
next-least_cost env OpCode.stop r h = ground (arith, r, h)
next-least_cost env OpCode.add r h = omega arith
next-least_cost env OpCode.mul r h = omega arith
next-least_cost env OpCode.sub r h = omega arith
next-least_cost env OpCode.div r h = omega arith
next-least_cost env OpCode.sdiv r h = omega arith
next-least_cost env OpCode.modulo r h = omega arith
next-least_cost env OpCode.smod r h = omega arith
next-least_cost env OpCode.addmod r h = omega arith
next-least_cost env OpCode.mulmod r h = omega arith
next-least_cost env OpCode.exp r h = omega arith
next-least_cost env OpCode.signextend r h = omega arith
next-least_cost env OpCode.lt r h = omega arith
next-least_cost env OpCode.gt r h = omega arith
next-least_cost env OpCode.slt r h = omega arith
next-least_cost env OpCode.sgt r h = omega arith
next-least_cost env OpCode.eq r h = omega arith
next-least_cost env OpCode.iszero r h = omega arith
next-least_cost env OpCode.and r h = omega arith
next-least_cost env OpCode.or r h = omega arith
next-least_cost env OpCode.xor r h = omega arith
next-least_cost env OpCode.not r h = omega arith
next-least_cost env OpCode.byte r h = omega arith
next-least_cost env OpCode.shl r h = omega arith
next-least_cost env OpCode.shr r h = omega arith
next-least_cost env OpCode.sar r h = omega arith
next-least_cost env OpCode.keccak256 r h = omega arith
next-least_cost env OpCode.address r h = omega arith
next-least_cost env OpCode.balance r h = omega arith
next-least_cost env OpCode.origin r h = omega arith
next-least_cost env OpCode.caller r h = omega arith
next-least_cost env OpCode.callvalue r h = omega arith
next-least_cost env OpCode.calldataload r h = omega arith
next-least_cost env OpCode.calldatasize r h = omega arith
next-least_cost env OpCode.calldatacopy r h = omega arith
next-least_cost env OpCode.codesize r h = omega arith
next-least_cost env OpCode.codecopy r h = omega arith
next-least_cost env OpCode.gasprice r h = omega arith
next-least_cost env OpCode.extcodesize r h = omega arith
next-least_cost env OpCode.extcodecopy r h = omega arith
next-least_cost env OpCode.returndatasize r h = omega arith
next-least_cost env OpCode.returndatacopy r h = omega arith
next-least_cost env OpCode.extcodehash r h = omega arith
next-least_cost env OpCode.blockhash r h = omega arith
next-least_cost env OpCode.coinbase r h = omega arith
next-least_cost env OpCode.timestamp r h = omega arith
next-least_cost env OpCode.number r h = omega arith
next-least_cost env OpCode.difficulty r h = omega arith
next-least_cost env OpCode.gaslimit r h = omega arith
next-least_cost env OpCode.chainid r h = omega arith
next-least_cost env OpCode.selfbalance r h = omega arith
next-least_cost env OpCode.pop r h = omega arith
next-least_cost env OpCode.mload r h = omega arith
next-least_cost env OpCode.mstore r h = omega arith
next-least_cost env OpCode.mstore8 r h = omega arith
next-least_cost env OpCode.sload r h = omega arith
next-least_cost env OpCode.sstore r h = omega arith
next-least_cost env OpCode.jump r h = omega arith
next-least_cost env OpCode.jumpi r h = omega arith
next-least_cost env OpCode.pc r h = omega arith
next-least_cost env OpCode.msize r h = omega arith
next-least_cost env OpCode.gas r h = omega arith
next-least_cost env OpCode.jumpdest r h = omega arith
next-least_cost env OpCode.tload r h = omega arith
next-least_cost env OpCode.tstore r h = omega arith
next-least_cost env OpCode.mcopy r h = omega arith
next-least_cost env OpCode.push0 r h = omega arith
next-least_cost env (OpCode.push n) r h = omega arith
next-least_cost env (OpCode.dup n) r h = omega arith
next-least_cost env (OpCode.swap n) r h = omega arith
next-least_cost env (OpCode.log n) r h = omega arith
next-least_cost env OpCode.create r h = omega arith
next-least_cost env OpCode.call r h = omega arith
next-least_cost env OpCode.callcode r h = omega arith
next-least_cost env OpCode.return r h = ground (arith, r, h)
next-least_cost env OpCode.delegatecall r h = omega arith
next-least_cost env OpCode.create2 r h = omega arith
next-least_cost env OpCode.staticcall r h = omega arith
next-least_cost env OpCode.revert r h = ground (arith, r, h)
next-least_cost env OpCode.selfdestruct r h = omega arith
