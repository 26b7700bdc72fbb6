-- ===== src/Vm/Interpreter/Round.antt =====
-- One round of the main loop: the body of the loop of `EVM.run` (core/vm/evm.go).
use taraxa_evm.Prelude.{
  ℕ, ◌+◌, ◌-◌, ◌%◌, ◌&&◌, Option, none, some, Bytes, ⊤, ltb, ◌==◌, if◌then◌else◌,
}
use taraxa_evm.Vm.Env.{
  Env, Error, write_protection, gas_uint_overflow, out_of_gas, invalid_opcode, u64_mod,
}
use taraxa_evm.Vm.Machine.{
  M, ok, err, fault, gets, pure, raise, raise_if, modify, modify_evm, ◌>>=◌, ◌>>◌,
}
use taraxa_evm.Vm.Stack.{back}
use taraxa_evm.Vm.Common.{safe_mul, to_word_size, uint64_with_overflow}
use taraxa_evm.Vm.Memory.{resize}
use taraxa_evm.Vm.Jumpdest.{get_op}
use taraxa_evm.Vm.Ops.Calls.{Calls}
use taraxa_evm.Vm.JumpTable.{Operation, instruction_set}

-- How a round of the loop ends, unless in an error.
pub data Control : Type 0 where
  next : Control
  halted reverting : Bytes → Control

-- What a run returns: the bytes and, after a revert, the error.
abbrev pub RunResult : Type 0
RunResult = Bytes × Option Error

module _ {W : Type 0} where
  -- `Contract.UseGas`, with its failure as ErrOutOfGas
  unfoldable pub use_gas : ℕ → M W ⊤
  use_gas cost m =
      if ltb m.gas cost then err out_of_gas m else ok tt (record m { gas = m.gas - cost })

  -- The loop reports every error of a gas function as ErrOutOfGas.
  abbrev pub as_out_of_gas : {A : Type 0} → M W A → M W A
  as_out_of_gas c m = elim (c m) [
    | ok a m' ↦ ok a m'
    | err e m' ↦ err out_of_gas m'
    | fault f ↦ fault f
  ]

  abbrev pub or_raise : Option Error → M W ⊤
  or_raise none = pure tt
  or_raise (some e) = raise e

module _ (env : Env) where
  open env use {
    World as W, u256 as u, state_ops as st, keccak256, create_address, create_address2, precompiles,
    preallocated_mem,
  }

  unfoldable pub check_writes : Operation W → (op : ℕ) → M W ⊤
  unfolding back
  check_writes operation op = do
    read_only ← gets (λ m. m.evm.read_only)
    let forbidden = read_only && operation.writes
    let transfers = read_only && (op == 0xf1)
    raise_if forbidden write_protection
    if transfers then back 2 >>= (λ v. raise_if (ltb 0 (u.bit_len v)) write_protection) else pure tt

  unfoldable pub needed_memory : Option (M W ℕ) → M W ℕ
  needed_memory none = pure 0
  needed_memory (some memory_size) = do
    size ← memory_size
    raise_if ((uint64_with_overflow u size).1) gas_uint_overflow
    let rounded = safe_mul (to_word_size (u.uint64 size)) 32
    raise_if (rounded.1) gas_uint_overflow
    pure (rounded.0)

  -- Everything that the loop does before it executes the operation.
  unfoldable pub prepare : Operation W → (op : ℕ) → M W ⊤
  prepare operation op = do
    stack ← gets (λ m. m.stack)
    or_raise (operation.validate_stack stack)
    check_writes operation op
    memory_size ← needed_memory operation.memory_size
    cost ← as_out_of_gas (operation.gas_cost memory_size)
    use_gas cost
    if ltb 0 memory_size then resize preallocated_mem memory_size else pure tt

  -- What it does with the result.
  unfoldable pub conclude : Operation W → Bytes → M W Control
  conclude operation res = do
    modify_evm (λ e. if operation.returns then record e { last_retval = res } else e)
    if operation.reverts
        then pure (reverting res)
        else if operation.halts
        then pure (halted res)
        else (if operation.jumps
            then pure next
            else modify (λ m. record m { pc = (m.pc + 1) % u64_mod }) >> pure next)

  unfoldable pub perform : Calls W → Operation W → (op : ℕ) → M W Control
  perform calls operation op = do
    prepare operation op
    res ← operation.execute calls
    conclude operation res

  unfoldable pub step : Calls W → M W Control
  step calls m =
      let op = get_op m.contract.code m.pc in
      elim (instruction_set env op) [
        | none ↦ err (invalid_opcode op) m
        | some operation ↦ perform calls operation op m
      ]
