-- ===== src/Vm/Ops/Calls.antt =====
-- Creation and calls (core/vm/instructions.go). What runs the callee is an argument.
use taraxa_evm.Prelude.{
  ℕ, ◌+◌, ◌-◌, ◌/◌, ◌%◌, ◌||◌, Bool, true, false, Option, none, some, Bytes, [], ⊤, if◌then◌else◌,
}
use taraxa_evm.Vm.Env.{Env, Error, execution_reverted, u64_mod, Address}
use taraxa_evm.Vm.Machine.{Evm, Contract, M, Fault, gets, pure, panic, modify, ◌>>=◌, ◌>>◌}
use taraxa_evm.Vm.Stack.{push, pop}
use taraxa_evm.Vm.Memory.{get_ptr, mem_set}
use taraxa_evm.Vm.Gas.{account_of}

pub data CallKind : Type 0 where
  call call_code delegate_call static_call : CallKind

pub data CreateKind : Type 0 where
  create1 : CreateKind
  -- with the salt
  create2 : ℕ → CreateKind

-- What comes back from a callee: the bytes, the gas that is left, the error, and EVM.
pub data Called (W : Type 0) : Type 0 where
  returned : Bytes → ℕ → Option Error → Evm W → Called W
  failed : Fault → Called W

-- `EVM.call` and `EVM.create_1`, `EVM.create_2`, the calling contract first. A creation also
-- returns the address of the new contract.
pub record Calls (W : Type 0) : Type 0 where
  pub run_call :
      CallKind
      → Contract
      → (callee : Address) → (input : Bytes) → (gas value : ℕ) → Evm W
      → Called W
  pub run_create :
      CreateKind
      → (caller : Address) → (code : Bytes) → (gas value : ℕ) → Evm W
      → Address × Called W

abbrev pub reverted : Option Error → Bool
reverted (some execution_reverted) = true
reverted _ = false

abbrev pub nil_error : Option Error → Bool
nil_error none = true
nil_error (some _) = false

module _ (env : Env) where
  open env use {World as W, u256 as u}

  -- `if err == nil || err == ErrExecutionReverted { memory.Set(...) }`
  abbrev write_back : (ret_offset ret_size : ℕ) → Bytes → Option Error → M W ⊤
  write_back ret_offset ret_size ret e =
      if nil_error e || reverted e
      then mem_set (u.uint64 ret_offset) (u.uint64 ret_size) ret
      else pure tt

  -- The word pushed by the result of a call, and its bytes written to the memory unless it failed.
  unfoldable pub finish_call : (ret_offset ret_size : ℕ) → Called W → M W Bytes
  unfolding push mem_set
  finish_call ret_offset ret_size (failed f) = panic f
  finish_call ret_offset ret_size (returned ret return_gas e evm) = do
    modify (λ m. record m { evm = evm })
    push (if nil_error e then 1 else 0)
    write_back ret_offset ret_size ret e
    modify (λ m. record m { gas = (m.gas + return_gas) % u64_mod })
    pure ret

  -- The parameters after the address and, for CALL and CALLCODE, the value.
  unfoldable pub enter_call : (Calls W) → CallKind → (addr value stipend : ℕ) → M W Bytes
  unfolding pop
  enter_call calls kind addr value stipend = do
    in_offset ← pop
    in_size ← pop
    ret_offset ← pop
    ret_size ← pop
    args ← get_ptr (u.uint64 in_offset) (u.uint64 in_size)
    called ← gets (λ m.
        calls.run_call kind m.contract (u.bytes20 addr) args
          ((m.evm.call_gas_tmp + stipend) % u64_mod) value m.evm)
    finish_call ret_offset ret_size called

  abbrev stipend_for : ℕ → ℕ
  stipend_for value = if u.is_zero value then 0 else 2300

  unfoldable pub op_call : Calls W → M W Bytes
  unfolding pop
  op_call calls = do
    gas ← pop
    addr ← pop
    value ← pop
    enter_call calls call addr value (stipend_for value)

  unfoldable pub op_call_code : Calls W → M W Bytes
  unfolding pop
  op_call_code calls = do
    gas ← pop
    addr ← pop
    value ← pop
    enter_call calls call_code addr value (stipend_for value)

  unfoldable pub op_delegate_call : Calls W → M W Bytes
  unfolding pop
  op_delegate_call calls = do gas ← pop; addr ← pop; enter_call calls delegate_call addr 0 0

  unfoldable pub op_static_call : Calls W → M W Bytes
  unfolding pop
  op_static_call calls = do gas ← pop; addr ← pop; enter_call calls static_call addr 0 0

  -- The address, or 0 after any error; the bytes are returned only after a revert.
  unfoldable pub finish_create : Address × Called W → M W Bytes
  unfolding push
  finish_create (addr, failed f) = panic f
  finish_create (addr, returned res return_gas e evm) = do
    modify (λ m. record m { evm = evm })
    push (if nil_error e then addr else 0)
    modify (λ m. record m { gas = (m.gas + return_gas) % u64_mod })
    pure (if reverted e then res else [])

  -- All but one 64th of the gas goes to the new contract.
  unfoldable pub enter_create : Calls W → CreateKind → (value : ℕ) → (input : Bytes) → M W Bytes
  enter_create calls kind value input = do
    available ← gets (λ m. m.gas)
    let gas = available - available / 64
    modify (λ m. record m { gas = m.gas - gas })
    called ← gets (λ m. calls.run_create kind (account_of m) input gas value m.evm)
    finish_create called

  unfoldable pub op_create : Calls W → M W Bytes
  unfolding pop
  op_create calls = do
    value ← pop
    offset ← pop
    size ← pop
    input ← get_ptr (u.uint64 offset) (u.uint64 size)
    enter_create calls create1 value input

  unfoldable pub op_create2 : Calls W → M W Bytes
  unfolding pop
  op_create2 calls = do
    endowment ← pop
    offset ← pop
    size ← pop
    salt ← pop
    input ← get_ptr (u.uint64 offset) (u.uint64 size)
    enter_create calls (create2 salt) endowment input
