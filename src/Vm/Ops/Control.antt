-- ===== src/Vm/Ops/Control.antt =====
-- Jumps, pushes, DUP, SWAP, LOG and the instructions that halt (core/vm/instructions.go).
use taraxa_evm.Prelude.{
  ℕ, zero, suc, ◌+◌, ◌-◌, ◌%◌, Bytes, List, [], ◌∷◌, ⊤, length, take, drop, ltb, if◌then◌else◌,
}
use taraxa_evm.Vm.Env.{Env, invalid_jump, u64_mod}
use taraxa_evm.Vm.Machine.{Machine, M, gets, pure, raise, modify, ◌>>=◌, ◌>>◌}
use taraxa_evm.Vm.Machine
use taraxa_evm.Vm.Stack.{push, pop, swap, dup}
use taraxa_evm.Vm.Common.{right_pad_bytes}
use taraxa_evm.Vm.Memory.{get_ptr}
use taraxa_evm.Vm.Gas.{account_of}
use taraxa_evm.Vm.Jumpdest.{valid_jumpdest}
use taraxa_evm.Vm.Ops.Environment.{push_of}

module _ (env : Env) where
  open env use {World as W, u256 as u, state_ops as st}

  abbrev set_pc : ℕ → M W ⊤
  set_pc pc = modify (λ m. record m { pc = pc })

  abbrev jump_to : ℕ → M W ⊤
  jump_to pos = do
    code ← gets (λ m. m.contract.code)
    if valid_jumpdest u code pos then set_pc (u.uint64 pos) else raise (invalid_jump pos)

  unfoldable pub op_jump : M W Bytes
  unfolding pop
  op_jump = do pos ← pop; jump_to pos; pure []

  unfoldable pub op_jumpi : M W Bytes
  unfolding pop
  op_jumpi = do
    pos ← pop
    cond ← pop
    pc ← gets (λ m. m.pc)
    if u.is_zero cond then set_pc ((pc + 1) % u64_mod) else jump_to pos
    pure []

  unfoldable pub op_jumpdest : M W Bytes
  op_jumpdest = pure []

  unfoldable pub op_push0 : M W Bytes
  unfolding push_of
  op_push0 = push_of (λ _. 0)

  unfoldable pub op_pc : M W Bytes
  unfolding push_of
  op_pc = push_of (λ m. m.pc)

  -- `makePush(size, size)`: the bytes after the instruction, zeros past the end of the code
  unfoldable pub make_push : ℕ → M W Bytes
  unfolding push right_pad_bytes
  make_push size = do
    code ← gets (λ m. m.contract.code)
    pc ← gets (λ m. m.pc)
    let start_min = if ltb (pc + 1) (length code) then pc + 1 else length code
    let end_min = if ltb (start_min + size) (length code) then start_min + size else length code
    push (u.set_bytes (right_pad_bytes (take (end_min - start_min) (drop start_min code)) size))
    set_pc ((pc + size) % u64_mod)
    pure []

  unfoldable pub make_dup : ℕ → M W Bytes
  unfolding dup
  make_dup size = do dup size; pure []

  -- `size++`: otherwise n would be swapped with n.
  unfoldable pub make_swap : ℕ → M W Bytes
  unfolding swap
  make_swap size = do swap (size + 1); pure []

  -- The loop over the topics.
  unfoldable pub pop_topics : ℕ → M W (List Bytes)
  unfolding pop
  pop_topics zero = pure []
  pop_topics (suc size) = do topic ← pop; topics ← pop_topics size; pure (u.bytes32 topic ∷ topics)

  unfoldable pub make_log : ℕ → M W Bytes
  unfolding pop
  make_log size = do
    m_start ← pop
    m_size ← pop
    topics ← pop_topics size
    bytes ← get_ptr (u.uint64 m_start) (u.uint64 m_size)
    account ← gets account_of
    Machine.modify_state
        (st.add_log (record { address = account; topics = topics; content = bytes }))
    pure []

  unfoldable pub op_return : M W Bytes
  unfolding pop get_ptr
  op_return = do offset ← pop; size ← pop; get_ptr (u.uint64 offset) (u.uint64 size)

  unfoldable pub op_revert : M W Bytes
  unfolding pop get_ptr
  op_revert = do offset ← pop; size ← pop; get_ptr (u.uint64 offset) (u.uint64 size)

  unfoldable pub op_stop : M W Bytes
  op_stop = pure []

  unfoldable pub op_suicide : M W Bytes
  unfolding pop
  op_suicide = do
    beneficiary ← pop
    account ← gets account_of
    Machine.modify_state (st.suicide account (u.bytes20 beneficiary))
    pure []
