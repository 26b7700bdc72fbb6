-- ===== src/Vm/Gas.antt =====
-- Gas prices (core/vm/gas.go, core/vm/constants.go, core/vm/gas_table.go). A gas function may also
-- change the memory's last cost, the gas set aside for a call, and the refund counter.
use taraxa_evm.Prelude.{
  ℕ, ◌+◌, ◌-◌, ◌*◌, ◌/◌, ◌%◌, Bool, ◌||◌, ◌&&◌, not, Option, none, some, [], ◌∷◌, Bytes, ⊤, length,
  ltb, ◌==◌, if◌then◌else◌,
}
use taraxa_evm.Prelude.Int.{is_zero_ℤ}
use taraxa_evm.Vm.Env.{Env, gas_uint_overflow, u64_mod, max_uint64, gas_table, Address}
use taraxa_evm.Vm.Machine.{
  Machine, M, ok, err, state_panic, gets, or_panic, pure, raise_if, modify_evm, modify_state,
  get_state, ◌>>=◌, ◌>>◌,
}
use taraxa_evm.Vm.Stack.{back}
use taraxa_evm.Vm.Common.{safe_add, safe_mul, to_word_size, uint64_with_overflow}
use taraxa_evm.Vm.Memory.{mem_len}

module _ {W : Type 0} where
  abbrev pub account_of : Machine W → Address
  account_of m = m.contract.frame.account

  -- `if x, overflow = math.SafeAdd(x, y); overflow { return 0, errGasUintOverflow }`
  abbrev pub add_gas : ℕ → ℕ → M W ℕ
  add_gas x y = do raise_if ((safe_add x y).1) gas_uint_overflow; pure ((safe_add x y).0)

  abbrev pub mul_gas : ℕ → ℕ → M W ℕ
  mul_gas x y = do raise_if ((safe_mul x y).1) gas_uint_overflow; pure ((safe_mul x y).0)

  unfoldable pub memory_gas_cost : ℕ → M W ℕ
  unfolding to_word_size
  memory_gas_cost new_mem_size m =
      let words = to_word_size new_mem_size in
      let square = (words * words) % u64_mod in
      let lin_coef = (words * 3) % u64_mod in
      let quad_coef = square / 512 in
      let new_total_fee = (lin_coef + quad_coef) % u64_mod in
      if new_mem_size == 0
      then ok 0 m
      else if ltb 0xffffffffe0 new_mem_size
      then err gas_uint_overflow m
      else if ltb (mem_len m) ((words * 32) % u64_mod)
      then ok ((new_total_fee + u64_mod - m.mem.last_gas_cost) % u64_mod)
          (record m { mem = record (m.mem) { last_gas_cost = new_total_fee } })
      else ok 0 m

  unfoldable pub const_gas : ℕ → ℕ → M W ℕ
  const_gas gas _ = pure gas

-- `IntrinsicGas`: the loop that counts the bytes that are not zero
unfoldable pub count_nonzero : Bytes → ℕ
count_nonzero [] = 0
count_nonzero (b ∷ bs) = if b == 0 then count_nonzero bs else count_nonzero bs + 1

-- `none` is ErrOutOfGas.
unfoldable pub intrinsic_gas_of : Bytes → Bool → Option ℕ
unfolding count_nonzero
intrinsic_gas_of bytes contract_creation =
    let gas = if contract_creation then 53000 else 21000 in
    let nz = count_nonzero bytes in
    let gas' = (gas + nz * 68) % u64_mod in
    let z = length bytes - nz in
    if ltb 0 (length bytes)
    then if ltb ((max_uint64 - gas) / 68) nz
      then none
      else if ltb ((max_uint64 - gas') / 4) z
      then none
      else some ((gas' + z * 4) % u64_mod)
    else some gas

module _ (env : Env) where
  open env use {World as W, u256 as u, state_ops as st}

  -- `callGas`, at the gas table of the machine, where CreateBySuicide is positive
  unfoldable pub call_gas : (available_gas base call_cost : ℕ) → ℕ
  call_gas available_gas base call_cost =
      let available = (available_gas + u64_mod - base) % u64_mod in
      let gas = available - available / 64 in
      if ltb 64 (u.bit_len call_cost) || ltb gas (u.uint64 call_cost)
      then gas
      else u.uint64 call_cost

  -- A word of the stack as a uint64, or errGasUintOverflow.
  unfoldable pub word64 : ℕ → M W ℕ
  unfolding back
  word64 n = do
    x ← back n
    raise_if ((uint64_with_overflow u x).1) gas_uint_overflow
    pure (u.uint64 x)

  -- The price of the words of a range, whose size is on the stack, is added.
  unfoldable pub add_word_gas : (stackpos word_price : ℕ) → ℕ → M W ℕ
  unfolding to_word_size
  add_word_gas stackpos word_price gas = do
    size ← word64 stackpos
    word_gas ← mul_gas (to_word_size size) word_price
    add_gas gas word_gas

  unfoldable pub memory_copier_gas : (stackpos static_gas : ℕ) → ℕ → M W ℕ
  unfolding back
  memory_copier_gas stackpos static_gas memory_size = do
    memory_gas ← memory_gas_cost memory_size
    gas ← add_gas memory_gas static_gas
    add_word_gas stackpos 3 gas

  unfoldable pub gas_call_data_copy : ℕ → M W ℕ
  gas_call_data_copy = memory_copier_gas 2 3

  unfoldable pub gas_code_copy : ℕ → M W ℕ
  gas_code_copy = memory_copier_gas 2 3

  unfoldable pub gas_mcopy : ℕ → M W ℕ
  gas_mcopy = memory_copier_gas 2 3

  unfoldable pub gas_return_data_copy : ℕ → M W ℕ
  gas_return_data_copy = memory_copier_gas 2 3

  abbrev add_refund : ℕ → M W ⊤
  add_refund n = modify_state (st.add_refund n)

  abbrev sub_refund : ℕ → M W ⊤
  sub_refund n = do
    w ← get_state
    w' ← or_panic state_panic (st.sub_refund n w)
    modify_state (λ _. w')

  -- The refunds of a write to a slot that this transaction has already written.
  abbrev dirty_refund : (original current new : ℕ) → M W ⊤
  dirty_refund original current new =
      if original == 0
      then pure tt
      else if current == 0
      then sub_refund 15000
      else if new == 0
      then add_refund 15000
      else pure tt

  abbrev reset_refund : (original new : ℕ) → M W ⊤
  reset_refund original new =
      if original == new
      then if original == 0 then add_refund 19800 else add_refund 4800
      else pure tt

  -- The net gas metering of EIP-1283, by the three values of the slot.
  unfoldable pub sstore_gas : (original current new : ℕ) → M W ℕ
  sstore_gas original current new =
      if current == new
      then pure 200
      else if original == current
      then if original == 0
        then pure 20000
        else (if new == 0 then add_refund 15000 else pure tt) >> pure 5000
      else dirty_refund original current new >> reset_refund original new >> pure 200

  unfoldable pub gas_sstore : ℕ → M W ℕ
  unfolding back
  gas_sstore memory_size = do
    y ← back 1
    x ← back 0
    current ← gets (λ m. st.get_state (account_of m) x m.evm.state)
    original ← gets (λ m. st.get_committed_state (account_of m) x m.evm.state)
    sstore_gas original current y

  unfoldable pub make_gas_log : ℕ → ℕ → M W ℕ
  unfolding back
  make_gas_log n memory_size = do
    requested_size ← word64 1
    memory_gas ← memory_gas_cost memory_size
    gas ← add_gas memory_gas 375
    gas' ← add_gas gas (n * 375)
    memory_size_gas ← mul_gas requested_size 8
    add_gas gas' memory_size_gas

  unfoldable pub gas_keccak256 : ℕ → M W ℕ
  unfolding back
  gas_keccak256 memory_size = do
    memory_gas ← memory_gas_cost memory_size
    gas ← add_gas memory_gas 6
    add_word_gas 1 6 gas

  unfoldable pub gas_ext_code_copy : ℕ → M W ℕ
  unfolding back
  gas_ext_code_copy memory_size = do
    memory_gas ← memory_gas_cost memory_size
    gas ← add_gas memory_gas gas_table.extcode_copy
    add_word_gas 3 3 gas

  unfoldable pub gas_ext_code_hash : ℕ → M W ℕ
  gas_ext_code_hash memory_size = pure gas_table.extcode_hash

  unfoldable pub gas_mload : ℕ → M W ℕ
  gas_mload memory_size = do gas ← memory_gas_cost memory_size; add_gas gas 3

  unfoldable pub gas_mstore8 : ℕ → M W ℕ
  gas_mstore8 memory_size = do gas ← memory_gas_cost memory_size; add_gas gas 3

  unfoldable pub gas_mstore : ℕ → M W ℕ
  gas_mstore memory_size = do gas ← memory_gas_cost memory_size; add_gas gas 3

  unfoldable pub gas_create : ℕ → M W ℕ
  gas_create memory_size = do gas ← memory_gas_cost memory_size; add_gas gas 32000

  unfoldable pub gas_create2 : ℕ → M W ℕ
  unfolding back
  gas_create2 memory_size = do
    memory_gas ← memory_gas_cost memory_size
    gas ← add_gas memory_gas 32000
    add_word_gas 2 6 gas

  unfoldable pub gas_balance : ℕ → M W ℕ
  gas_balance memory_size = pure gas_table.balance

  unfoldable pub gas_ext_code_size : ℕ → M W ℕ
  gas_ext_code_size memory_size = pure gas_table.extcode_size

  unfoldable pub gas_sload : ℕ → M W ℕ
  gas_sload memory_size = pure gas_table.sload

  unfoldable pub gas_tload : ℕ → M W ℕ
  gas_tload memory_size = pure gas_table.warm_storage_read_cost

  unfoldable pub gas_exp : ℕ → M W ℕ
  unfolding back
  gas_exp memory_size = do
    exponent ← back 1
    add_gas (((u.bit_len exponent + 7) / 8) * gas_table.exp_byte) 10

  -- The end of `gasCall` and of its variants: the gas for the callee is set aside and charged.
  unfoldable pub set_aside : ℕ → M W ℕ
  unfolding back
  set_aside gas = do
    call_cost ← back 0
    available ← gets (λ m. m.gas)
    modify_evm (λ e. record e { call_gas_tmp = call_gas available gas call_cost })
    add_gas gas (call_gas available gas call_cost)

  unfoldable pub gas_call : ℕ → M W ℕ
  unfolding back
  gas_call memory_size = do
    value ← back 2
    addr ← back 1
    empty ← gets (λ m. st.is_eip161_empty (u.bytes20 addr) m.evm.state)
    let transfers_value = not (u.is_zero value)
    let gas = if transfers_value && empty then gas_table.calls + 25000 else gas_table.calls
    memory_gas ← memory_gas_cost memory_size
    total ← add_gas (if transfers_value then gas + 9000 else gas) memory_gas
    set_aside total

  unfoldable pub gas_call_code : ℕ → M W ℕ
  unfolding back
  gas_call_code memory_size = do
    value ← back 2
    memory_gas ← memory_gas_cost memory_size
    total ← add_gas (if u.is_zero value then gas_table.calls else gas_table.calls + 9000) memory_gas
    set_aside total

  unfoldable pub gas_return : ℕ → M W ℕ
  gas_return = memory_gas_cost

  unfoldable pub gas_revert : ℕ → M W ℕ
  gas_revert = memory_gas_cost

  unfoldable pub gas_suicide : ℕ → M W ℕ
  unfolding back
  gas_suicide memory_size = do
    addr ← back 0
    creates ← gets (λ m.
        st.is_eip161_empty (u.bytes20 addr) m.evm.state
        && not (is_zero_ℤ (st.get_balance (account_of m) m.evm.state)))
    again ← gets (λ m. st.has_suicided (account_of m) m.evm.state)
    if again then pure tt else add_refund 24000
    pure (if creates then gas_table.suicide + gas_table.create_by_suicide else gas_table.suicide)

  unfoldable pub gas_delegate_call : ℕ → M W ℕ
  gas_delegate_call memory_size = do
    memory_gas ← memory_gas_cost memory_size
    total ← add_gas memory_gas gas_table.calls
    set_aside total

  unfoldable pub gas_static_call : ℕ → M W ℕ
  gas_static_call memory_size = do
    memory_gas ← memory_gas_cost memory_size
    total ← add_gas memory_gas gas_table.calls
    set_aside total

  unfoldable pub gas_push : ℕ → M W ℕ
  gas_push memory_size = pure 3

  unfoldable pub gas_swap : ℕ → M W ℕ
  gas_swap memory_size = pure 3

  unfoldable pub gas_dup : ℕ → M W ℕ
  gas_dup memory_size = pure 3
