-- ===== src/Vm/OpCode.antt =====
-- The operation codes (core/vm/opcodes.go).
use taraxa_evm.Prelude.{ℕ, ◌+◌, ◌-◌, ◌&&◌, Option, none, some, ltb, leb, ◌==◌, if◌then◌else◌}

-- `push n` is PUSHn for n from 1, `dup n` and `swap n` are DUPn and SWAPn, `log n` is LOGn.
pub data OpCode : Type 0 where
  stop add mul sub div sdiv modulo smod addmod mulmod exp signextend lt gt slt sgt eq iszero :
      OpCode
  and or xor not byte shl shr sar keccak256 address balance origin caller callvalue : OpCode
  calldataload calldatasize calldatacopy codesize codecopy gasprice extcodesize extcodecopy : OpCode
  returndatasize returndatacopy extcodehash blockhash coinbase timestamp number difficulty : OpCode
  gaslimit chainid selfbalance pop mload mstore mstore8 sload sstore jump jumpi pc msize gas :
      OpCode
  jumpdest tload tstore mcopy push0 : OpCode
  push dup swap log : ℕ → OpCode
  create call callcode return delegatecall create2 staticcall revert selfdestruct : OpCode

-- STOP to KECCAK256
unfoldable pub decode_arithmetic : ℕ → Option OpCode
decode_arithmetic op =
    if op == 0x0
    then some OpCode.stop
    else if op == 0x1
    then some OpCode.add
    else if op == 0x2
    then some OpCode.mul
    else if op == 0x3
    then some OpCode.sub
    else if op == 0x4
    then some OpCode.div
    else if op == 0x5
    then some OpCode.sdiv
    else if op == 0x6
    then some OpCode.modulo
    else if op == 0x7
    then some OpCode.smod
    else if op == 0x8
    then some OpCode.addmod
    else if op == 0x9
    then some OpCode.mulmod
    else if op == 0xa
    then some OpCode.exp
    else if op == 0xb
    then some OpCode.signextend
    else if op == 0x10
    then some OpCode.lt
    else if op == 0x11
    then some OpCode.gt
    else if op == 0x12
    then some OpCode.slt
    else if op == 0x13
    then some OpCode.sgt
    else if op == 0x14
    then some OpCode.eq
    else if op == 0x15
    then some OpCode.iszero
    else if op == 0x16
    then some OpCode.and
    else if op == 0x17
    then some OpCode.or
    else if op == 0x18
    then some OpCode.xor
    else if op == 0x19
    then some OpCode.not
    else if op == 0x1a
    then some OpCode.byte
    else if op == 0x1b
    then some OpCode.shl
    else if op == 0x1c
    then some OpCode.shr
    else if op == 0x1d
    then some OpCode.sar
    else if op == 0x20
    then some OpCode.keccak256
    else none

-- ADDRESS to SELFBALANCE
unfoldable pub decode_environment : ℕ → Option OpCode
decode_environment op =
    if op == 0x30
    then some OpCode.address
    else if op == 0x31
    then some OpCode.balance
    else if op == 0x32
    then some OpCode.origin
    else if op == 0x33
    then some OpCode.caller
    else if op == 0x34
    then some OpCode.callvalue
    else if op == 0x35
    then some OpCode.calldataload
    else if op == 0x36
    then some OpCode.calldatasize
    else if op == 0x37
    then some OpCode.calldatacopy
    else if op == 0x38
    then some OpCode.codesize
    else if op == 0x39
    then some OpCode.codecopy
    else if op == 0x3a
    then some OpCode.gasprice
    else if op == 0x3b
    then some OpCode.extcodesize
    else if op == 0x3c
    then some OpCode.extcodecopy
    else if op == 0x3d
    then some OpCode.returndatasize
    else if op == 0x3e
    then some OpCode.returndatacopy
    else if op == 0x3f
    then some OpCode.extcodehash
    else if op == 0x40
    then some OpCode.blockhash
    else if op == 0x41
    then some OpCode.coinbase
    else if op == 0x42
    then some OpCode.timestamp
    else if op == 0x43
    then some OpCode.number
    else if op == 0x44
    then some OpCode.difficulty
    else if op == 0x45
    then some OpCode.gaslimit
    else if op == 0x46
    then some OpCode.chainid
    else if op == 0x47
    then some OpCode.selfbalance
    else none

-- POP to PUSH0
unfoldable pub decode_storage : ℕ → Option OpCode
decode_storage op =
    if op == 0x50
    then some OpCode.pop
    else if op == 0x51
    then some OpCode.mload
    else if op == 0x52
    then some OpCode.mstore
    else if op == 0x53
    then some OpCode.mstore8
    else if op == 0x54
    then some OpCode.sload
    else if op == 0x55
    then some OpCode.sstore
    else if op == 0x56
    then some OpCode.jump
    else if op == 0x57
    then some OpCode.jumpi
    else if op == 0x58
    then some OpCode.pc
    else if op == 0x59
    then some OpCode.msize
    else if op == 0x5a
    then some OpCode.gas
    else if op == 0x5b
    then some OpCode.jumpdest
    else if op == 0x5e
    then some OpCode.mcopy
    else if op == 0x5f
    then some OpCode.push0
    else none

-- PUSH1 to SELFDESTRUCT
unfoldable pub decode_rest : ℕ → Option OpCode
decode_rest op =
    if leb 0x60 op && leb op 0x7f
    then some (OpCode.push (op - 0x60 + 1))
    else if leb 0x80 op && leb op 0x8f
    then some (OpCode.dup (op - 0x80 + 1))
    else if leb 0x90 op && leb op 0x9f
    then some (OpCode.swap (op - 0x90 + 1))
    else if leb 0xa0 op && leb op 0xa4
    then some (OpCode.log (op - 0xa0))
    else if op == 0xb3
    then some OpCode.tload
    else if op == 0xb4
    then some OpCode.tstore
    else if op == 0xf0
    then some OpCode.create
    else if op == 0xf1
    then some OpCode.call
    else if op == 0xf2
    then some OpCode.callcode
    else if op == 0xf3
    then some OpCode.return
    else if op == 0xf4
    then some OpCode.delegatecall
    else if op == 0xf5
    then some OpCode.create2
    else if op == 0xfa
    then some OpCode.staticcall
    else if op == 0xfd
    then some OpCode.revert
    else if op == 0xff
    then some OpCode.selfdestruct
    else none

unfoldable pub decode : ℕ → Option OpCode
decode op =
    if ltb op 0x30
    then decode_arithmetic op
    else if ltb op 0x50
    then decode_environment op
    else if ltb op 0x60
    then decode_storage op
    else decode_rest op
