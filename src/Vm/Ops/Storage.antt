-- ===== src/Vm/Ops/Storage.antt =====
-- Memory, storage and transient storage (core/vm/instructions.go, core/vm/eips.go).
use taraxa_evm.Prelude.{◌%◌, Bytes, []}
use taraxa_evm.Prelude.Int.{pos}
use taraxa_evm.Vm.Env.{Env, write_protection}
use taraxa_evm.Vm.Machine.{M, gets, pure, raise_if, ◌>>=◌, ◌>>◌}
use taraxa_evm.Vm.Machine
use taraxa_evm.Vm.Stack.{pop, peek, set_peek}
use taraxa_evm.Vm.Memory.{mem_len, mem_set32, get_ptr, mem_copy, store_byte}
use taraxa_evm.Vm.Gas.{account_of}
use taraxa_evm.Vm.Ops.Environment.{push_of}

module _ (env : Env) where
  open env use {World as W, u256 as u, state_ops as st}

  unfoldable pub op_pop : M W Bytes
  unfolding pop
  op_pop = do x ← pop; pure []

  unfoldable pub op_mload : M W Bytes
  unfolding peek set_peek get_ptr
  op_mload = do v ← peek; bytes ← get_ptr (u.uint64 v) 32; set_peek (u.set_bytes bytes); pure []

  unfoldable pub op_mstore : M W Bytes
  unfolding pop mem_set32
  op_mstore = do m_start ← pop; val ← pop; mem_set32 u.bytes32 (u.uint64 m_start) val; pure []

  unfoldable pub op_mstore8 : M W Bytes
  unfolding pop store_byte
  op_mstore8 = do off ← pop; val ← pop; store_byte (u.uint64 off) (u.uint64 val % 256); pure []

  unfoldable pub op_sload : M W Bytes
  unfolding peek set_peek
  op_sload = do
    loc ← peek
    v ← gets (λ m. st.get_state (account_of m) loc m.evm.state)
    set_peek (u.set_from_big (pos v))
    pure []

  unfoldable pub op_sstore : M W Bytes
  unfolding pop
  op_sstore = do
    loc ← pop
    val ← pop
    account ← gets account_of
    Machine.modify_state (st.set_state account loc val)
    pure []

  unfoldable pub op_tload : M W Bytes
  unfolding peek set_peek
  op_tload = do
    loc ← peek
    val ← gets (λ m. st.get_transient_state (account_of m) (u.bytes32 loc) m.evm.state)
    set_peek (u.set_bytes val)
    pure []

  unfoldable pub op_tstore : M W Bytes
  unfolding pop
  op_tstore = do
    read_only ← gets (λ m. m.evm.read_only)
    raise_if read_only write_protection
    loc ← pop
    val ← pop
    account ← gets account_of
    Machine.modify_state (st.set_transient_state account (u.bytes32 loc) (u.bytes32 val))
    pure []

  unfoldable pub op_mcopy : M W Bytes
  unfolding pop mem_copy
  op_mcopy = do
    dst ← pop
    src ← pop
    len ← pop
    mem_copy (u.uint64 dst) (u.uint64 src) (u.uint64 len)
    pure []

  unfoldable pub op_msize : M W Bytes
  unfolding push_of
  op_msize = push_of mem_len

  unfoldable pub op_gas : M W Bytes
  unfolding push_of
  op_gas = push_of (λ m. m.gas)
