-- ===== src/Vm/Effect/Table.antt =====
-- What each operation code takes off the stack and puts there, as the jump table declares it, and
-- the gas that may come back from it.
use taraxa_evm.Prelude.{ℕ, ◌+◌, ◌≤◌, List}
use taraxa_evm.Vm.Env.{Env}
use taraxa_evm.Vm.OpCode.{OpCode}
use taraxa_evm.Vm.Effect.Nested.{stipend}

abbrev pub pops : OpCode → ℕ
pops OpCode.stop = 0
pops OpCode.add = 2
pops OpCode.mul = 2
pops OpCode.sub = 2
pops OpCode.div = 2
pops OpCode.sdiv = 2
pops OpCode.modulo = 2
pops OpCode.smod = 2
pops OpCode.addmod = 3
pops OpCode.mulmod = 3
pops OpCode.exp = 2
pops OpCode.signextend = 2
pops OpCode.lt = 2
pops OpCode.gt = 2
pops OpCode.slt = 2
pops OpCode.sgt = 2
pops OpCode.eq = 2
pops OpCode.iszero = 1
pops OpCode.and = 2
pops OpCode.or = 2
pops OpCode.xor = 2
pops OpCode.not = 1
pops OpCode.byte = 2
pops OpCode.shl = 2
pops OpCode.shr = 2
pops OpCode.sar = 2
pops OpCode.keccak256 = 2
pops OpCode.address = 0
pops OpCode.balance = 1
pops OpCode.origin = 0
pops OpCode.caller = 0
pops OpCode.callvalue = 0
pops OpCode.calldataload = 1
pops OpCode.calldatasize = 0
pops OpCode.calldatacopy = 3
pops OpCode.codesize = 0
pops OpCode.codecopy = 3
pops OpCode.gasprice = 0
pops OpCode.extcodesize = 1
pops OpCode.extcodecopy = 4
pops OpCode.returndatasize = 0
pops OpCode.returndatacopy = 3
pops OpCode.extcodehash = 1
pops OpCode.blockhash = 1
pops OpCode.coinbase = 0
pops OpCode.timestamp = 0
pops OpCode.number = 0
pops OpCode.difficulty = 0
pops OpCode.gaslimit = 0
pops OpCode.chainid = 0
pops OpCode.selfbalance = 0
pops OpCode.pop = 1
pops OpCode.mload = 1
pops OpCode.mstore = 2
pops OpCode.mstore8 = 2
pops OpCode.sload = 1
pops OpCode.sstore = 2
pops OpCode.jump = 1
pops OpCode.jumpi = 2
pops OpCode.pc = 0
pops OpCode.msize = 0
pops OpCode.gas = 0
pops OpCode.jumpdest = 0
pops OpCode.tload = 1
pops OpCode.tstore = 2
pops OpCode.mcopy = 3
pops OpCode.push0 = 0
pops (OpCode.push n) = 0
pops (OpCode.dup n) = n
pops (OpCode.swap n) = n + 1
pops (OpCode.log n) = n + 2
pops OpCode.create = 3
pops OpCode.call = 7
pops OpCode.callcode = 7
pops OpCode.return = 2
pops OpCode.delegatecall = 6
pops OpCode.create2 = 4
pops OpCode.staticcall = 6
pops OpCode.revert = 2
pops OpCode.selfdestruct = 1

abbrev pub pushes : OpCode → ℕ
pushes OpCode.stop = 0
pushes OpCode.add = 1
pushes OpCode.mul = 1
pushes OpCode.sub = 1
pushes OpCode.div = 1
pushes OpCode.sdiv = 1
pushes OpCode.modulo = 1
pushes OpCode.smod = 1
pushes OpCode.addmod = 1
pushes OpCode.mulmod = 1
pushes OpCode.exp = 1
pushes OpCode.signextend = 1
pushes OpCode.lt = 1
pushes OpCode.gt = 1
pushes OpCode.slt = 1
pushes OpCode.sgt = 1
pushes OpCode.eq = 1
pushes OpCode.iszero = 1
pushes OpCode.and = 1
pushes OpCode.or = 1
pushes OpCode.xor = 1
pushes OpCode.not = 1
pushes OpCode.byte = 1
pushes OpCode.shl = 1
pushes OpCode.shr = 1
pushes OpCode.sar = 1
pushes OpCode.keccak256 = 1
pushes OpCode.address = 1
pushes OpCode.balance = 1
pushes OpCode.origin = 1
pushes OpCode.caller = 1
pushes OpCode.callvalue = 1
pushes OpCode.calldataload = 1
pushes OpCode.calldatasize = 1
pushes OpCode.calldatacopy = 0
pushes OpCode.codesize = 1
pushes OpCode.codecopy = 0
pushes OpCode.gasprice = 1
pushes OpCode.extcodesize = 1
pushes OpCode.extcodecopy = 0
pushes OpCode.returndatasize = 1
pushes OpCode.returndatacopy = 0
pushes OpCode.extcodehash = 1
pushes OpCode.blockhash = 1
pushes OpCode.coinbase = 1
pushes OpCode.timestamp = 1
pushes OpCode.number = 1
pushes OpCode.difficulty = 1
pushes OpCode.gaslimit = 1
pushes OpCode.chainid = 1
pushes OpCode.selfbalance = 1
pushes OpCode.pop = 0
pushes OpCode.mload = 1
pushes OpCode.mstore = 0
pushes OpCode.mstore8 = 0
pushes OpCode.sload = 1
pushes OpCode.sstore = 0
pushes OpCode.jump = 0
pushes OpCode.jumpi = 0
pushes OpCode.pc = 1
pushes OpCode.msize = 1
pushes OpCode.gas = 1
pushes OpCode.jumpdest = 0
pushes OpCode.tload = 1
pushes OpCode.tstore = 0
pushes OpCode.mcopy = 0
pushes OpCode.push0 = 1
pushes (OpCode.push n) = 1
pushes (OpCode.dup n) = n + 1
pushes (OpCode.swap n) = n + 1
pushes (OpCode.log n) = 0
pushes OpCode.create = 1
pushes OpCode.call = 1
pushes OpCode.callcode = 1
pushes OpCode.return = 0
pushes OpCode.delegatecall = 1
pushes OpCode.create2 = 1
pushes OpCode.staticcall = 1
pushes OpCode.revert = 0
pushes OpCode.selfdestruct = 0

-- DUP0 is no operation code.
abbrev pub IsValid : OpCode → Type 0
IsValid (OpCode.dup n) = 1 ≤ n
IsValid _ = Unit

-- The gas that a call may give back, from the gas set aside for it and the stack.
abbrev pub comes_back : Env → OpCode → (call_gas_tmp : ℕ) → List ℕ → ℕ
comes_back env OpCode.call tmp s = tmp + stipend env s
comes_back env OpCode.callcode tmp s = tmp + stipend env s
comes_back env OpCode.delegatecall tmp s = tmp + 0
comes_back env OpCode.staticcall tmp s = tmp + 0
comes_back env _ tmp s = 0

-- What an operation costs at least; those that end the run may be free.
abbrev pub least_cost : OpCode → ℕ
least_cost OpCode.stop = 0
least_cost OpCode.return = 0
least_cost OpCode.revert = 0
least_cost _ = 1
