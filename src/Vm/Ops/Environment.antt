-- ===== src/Vm/Ops/Environment.antt =====
-- What the transaction, the block, the accounts and the call data show (core/vm/instructions.go).
use taraxa_evm.Prelude.{
  ℕ, ◌-◌, ◌&&◌, ◌||◌, not, Bytes, [], length, take, drop, ltb, leb, if◌then◌else◌,
}
use taraxa_evm.Prelude.Int.{pos}
use taraxa_evm.Vm.Env.{Env, return_data_out_of_bounds, max_uint64, Address}
use taraxa_evm.Vm.Machine.{
  Machine, M, gets, pure, raise_if, or_panic, panic_if, state_panic, slice_bounds, ◌>>=◌, ◌>>◌,
}
use taraxa_evm.Vm.Stack.{push, pop, peek, set_peek}
use taraxa_evm.Vm.Common.{get_data}
use taraxa_evm.Vm.Memory.{mem_set}
use taraxa_evm.Vm.Gas.{account_of}

module _ {W : Type 0} where
  -- A word read off the machine is pushed.
  unfoldable pub push_of : (Machine W → ℕ) → M W Bytes
  unfolding push
  push_of f = do v ← gets f; push v; pure []

module _ (env : Env) where
  open env use {World as W, u256 as u, state_ops as st, get_hash, block, trx, chain_id}

  -- `evm.get_account(slot)`: the top, read as an address, is replaced by a word about the account.
  unfoldable pub replace_account : (Address → W → ℕ) → M W Bytes
  unfolding peek set_peek
  replace_account f = do
    slot ← peek
    v ← gets (λ m. f (u.bytes20 slot) m.evm.state)
    set_peek v
    pure []

  unfoldable pub op_address : M W Bytes
  unfolding push_of
  op_address = push_of account_of

  unfoldable pub op_balance : M W Bytes
  unfolding replace_account
  op_balance = replace_account (λ a w. u.set_from_big (st.get_balance a w))

  unfoldable pub op_origin : M W Bytes
  unfolding push_of
  op_origin = push_of (λ _. trx.from)

  unfoldable pub op_caller : M W Bytes
  unfolding push_of
  op_caller = push_of (λ m. m.contract.frame.caller_account)

  unfoldable pub op_call_value : M W Bytes
  unfolding push_of
  op_call_value = push_of (λ m. u.set_from_big (pos m.contract.frame.value))

  unfoldable pub op_call_data_load : M W Bytes
  unfolding peek set_peek get_data
  op_call_data_load = do
    x ← peek
    input ← gets (λ m. m.contract.frame.input)
    if u.is_uint64 x
        then (or_panic slice_bounds (get_data input (u.uint64 x) 32)
            >>= (λ got. set_peek (u.set_bytes got)))
        else set_peek 0
    pure []

  unfoldable pub op_call_data_size : M W Bytes
  unfolding push_of
  op_call_data_size = push_of (λ m. length m.contract.frame.input)

  -- An offset past 2^64 - 1 stands for the largest uint64.
  abbrev clamp_offset : ℕ → ℕ
  clamp_offset x = if u.is_uint64 x then u.uint64 x else max_uint64

  unfoldable pub copy_data : (Machine W → Bytes) → (mem_offset data_offset length : ℕ) → M W Bytes
  copy_data source mem_offset data_offset len = do
    bytes ← gets source
    got ← or_panic slice_bounds (get_data bytes (clamp_offset data_offset) (u.uint64 len))
    mem_set (u.uint64 mem_offset) (u.uint64 len) got
    pure []

  unfoldable pub op_call_data_copy : M W Bytes
  unfolding pop copy_data
  op_call_data_copy = do
    mem_offset ← pop
    data_offset ← pop
    len ← pop
    copy_data (λ m. m.contract.frame.input) mem_offset data_offset len

  unfoldable pub op_return_data_size : M W Bytes
  unfolding push_of
  op_return_data_size = push_of (λ m. length m.evm.last_retval)

  unfoldable pub op_return_data_copy : M W Bytes
  unfolding pop mem_set
  op_return_data_copy = do
    mem_offset ← pop
    data_offset ← pop
    len ← pop
    raise_if (not (u.is_uint64 data_offset)) return_data_out_of_bounds
    retval ← gets (λ m. m.evm.last_retval)
    let last = u.add data_offset len
    raise_if (not (u.is_uint64 last) || ltb (length retval) (u.uint64 last))
        return_data_out_of_bounds
    panic_if (ltb (u.uint64 last) (u.uint64 data_offset)) slice_bounds
    mem_set (u.uint64 mem_offset) (u.uint64 len)
        (take (u.uint64 last - u.uint64 data_offset) (drop (u.uint64 data_offset) retval))
    pure []

  unfoldable pub op_ext_code_size : M W Bytes
  unfolding replace_account
  op_ext_code_size = replace_account st.get_code_size

  unfoldable pub op_code_size : M W Bytes
  unfolding push_of
  op_code_size = push_of (λ m. length m.contract.code)

  unfoldable pub op_code_copy : M W Bytes
  unfolding pop copy_data
  op_code_copy = do
    mem_offset ← pop
    code_offset ← pop
    len ← pop
    copy_data (λ m. m.contract.code) mem_offset code_offset len

  unfoldable pub op_ext_code_copy : M W Bytes
  unfolding pop copy_data
  op_ext_code_copy = do
    addr ← pop
    mem_offset ← pop
    code_offset ← pop
    len ← pop
    copy_data (λ m. st.get_code (u.bytes20 addr) m.evm.state) mem_offset code_offset len

  unfoldable pub op_ext_code_hash : M W Bytes
  unfolding peek set_peek
  op_ext_code_hash = do
    slot ← peek
    empty ← gets (λ m. st.is_eip161_empty (u.bytes20 slot) m.evm.state)
    hash ← gets (λ m. st.get_code_hash (u.bytes20 slot) m.evm.state)
    if empty then set_peek 0 else or_panic state_panic hash >>= set_peek
    pure []

  unfoldable pub op_gasprice : M W Bytes
  unfolding push_of
  op_gasprice = push_of (λ _. u.set_from_big (pos trx.gas_price))

  unfoldable pub op_blockhash : M W Bytes
  unfolding peek set_peek
  op_blockhash = do
    num ← peek
    let num64 = u.uint64 num
    let upper = block.number
    let lower = if ltb upper 257 then 0 else upper - 256
    set_peek (
        if u.is_uint64 num && (leb lower num64 && ltb num64 upper)
        then u.set_from_big (get_hash num64)
        else 0)
    pure []

  unfoldable pub op_coinbase : M W Bytes
  unfolding push_of
  op_coinbase = push_of (λ _. block.author)

  unfoldable pub op_timestamp : M W Bytes
  unfolding push_of
  op_timestamp = push_of (λ _. block.time)

  unfoldable pub op_number : M W Bytes
  unfolding push_of
  op_number = push_of (λ _. block.number)

  unfoldable pub op_difficulty : M W Bytes
  unfolding push_of
  op_difficulty = push_of (λ _. u.set_from_big block.difficulty)

  unfoldable pub op_gas_limit : M W Bytes
  unfolding push_of
  op_gas_limit = push_of (λ _. block.gas_limit)

  unfoldable pub op_chain_id : M W Bytes
  unfolding push_of
  op_chain_id = push_of (λ _. chain_id)

  unfoldable pub op_self_balance : M W Bytes
  unfolding push_of
  op_self_balance = push_of (λ m. u.set_from_big (st.get_balance (account_of m) m.evm.state))
