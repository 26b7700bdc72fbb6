-- ===== src/Vm/MemorySize.antt =====
-- The memory that an operation needs, from its operands (core/vm/memory_table.go, core/vm/eips.go).
use taraxa_evm.Prelude.{ℕ, if◌then◌else◌}
use taraxa_evm.Vm.Env.{Uint256}
use taraxa_evm.Vm.Machine.{M, pure, ◌>>=◌}
use taraxa_evm.Vm.Stack.{back}
use taraxa_evm.Vm.Common.{calc_mem_size, big_max}

module _ {W : Type 0} (u : Uint256) where
  -- `calcMemSize(stack.Back(i), stack.Back(j))`
  unfoldable pub range_at : ℕ → ℕ → M W ℕ
  unfolding back calc_mem_size
  range_at i j = do off ← back i; l ← back j; pure (calc_mem_size u off l)

  unfoldable pub memory_keccak256 : M W ℕ
  unfolding range_at
  memory_keccak256 = range_at 0 1

  unfoldable pub memory_call_data_copy : M W ℕ
  unfolding range_at
  memory_call_data_copy = range_at 0 2

  unfoldable pub memory_return_data_copy : M W ℕ
  unfolding range_at
  memory_return_data_copy = range_at 0 2

  unfoldable pub memory_code_copy : M W ℕ
  unfolding range_at
  memory_code_copy = range_at 0 2

  unfoldable pub memory_ext_code_copy : M W ℕ
  unfolding range_at
  memory_ext_code_copy = range_at 1 3

  unfoldable pub memory_mload : M W ℕ
  unfolding back calc_mem_size
  memory_mload = do off ← back 0; pure (calc_mem_size u off 32)

  unfoldable pub memory_mstore8 : M W ℕ
  unfolding back calc_mem_size
  memory_mstore8 = do off ← back 0; pure (calc_mem_size u off 1)

  unfoldable pub memory_mstore : M W ℕ
  unfolding back calc_mem_size
  memory_mstore = do off ← back 0; pure (calc_mem_size u off 32)

  unfoldable pub memory_mcopy : M W ℕ
  unfolding back calc_mem_size
  memory_mcopy = do
    dst ← back 0
    src ← back 1
    l ← back 2
    let size = calc_mem_size u (if u.lt dst src then src else dst) l
    pure (if u.is_uint64 size then size else 0)

  unfoldable pub memory_create : M W ℕ
  unfolding range_at
  memory_create = range_at 1 2

  unfoldable pub memory_create2 : M W ℕ
  unfolding range_at
  memory_create2 = range_at 1 2

  unfoldable pub memory_call : M W ℕ
  unfolding range_at big_max
  memory_call = do x ← range_at 5 6; y ← range_at 3 4; pure (big_max u x y)

  unfoldable pub memory_delegate_call : M W ℕ
  unfolding range_at big_max
  memory_delegate_call = do x ← range_at 4 5; y ← range_at 2 3; pure (big_max u x y)

  unfoldable pub memory_static_call : M W ℕ
  unfolding range_at big_max
  memory_static_call = do x ← range_at 4 5; y ← range_at 2 3; pure (big_max u x y)

  unfoldable pub memory_return : M W ℕ
  unfolding range_at
  memory_return = range_at 0 1

  unfoldable pub memory_revert : M W ℕ
  unfolding range_at
  memory_revert = range_at 0 1

  unfoldable pub memory_log : M W ℕ
  unfolding range_at
  memory_log = range_at 0 1
