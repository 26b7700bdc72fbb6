-- ===== src/Vm/Laws/Wrapping.antt =====
-- Offsets at the end of the address space of the memory (calcMemSize of core/vm/common.go).
use taraxa_evm.Prelude.{ℕ, ◌+◌, ◌-◌, ◌%◌, ◌≤◌, ◌<◌, ◌≡◌, ap, List, ◌∷◌, arith}
use taraxa_evm.Vm.Env.{Env, u64_mod, u256_mod}
use taraxa_evm.Vm.Machine.{Machine, ok, fault, slice_bounds}
use taraxa_evm.Vm.Common.{calc_mem_size}
use taraxa_evm.Vm.MemorySize.{memory_mstore}
use taraxa_evm.Vm.Ops.Storage.{op_mstore}
use taraxa_evm.Vm.Effect.Rules.{with_stack}

calc_mem_size-wraps :
    (env : Env) (off : ℕ)
    → u256_mod ≤ off + 32
    → off < u256_mod
    → calc_mem_size env.u256 off 32 ≡ off + 32 - u256_mod
unfolding calc_mem_size
calc_mem_size-wraps env off high word =
    ground (arith, high, word, env.u256.is_zero-eq 32, env.u256.add-eq off 32)

low_word : (off : ℕ) → u256_mod ≤ off + 32 → off < u256_mod → u64_mod ≤ off % u64_mod + 32
low_word off high word = omega arith

-- An MSTORE at one of the last 32 offsets below 2 ^ 256 asks for a memory of fewer than 32 bytes,
-- since the end of its range wraps around, and it then ends in a panic, whatever the memory.
pub op_mstore-wraps :
    (env : Env) (off val : ℕ) (s : List ℕ) (m : Machine (env.World))
    → u256_mod ≤ off + 32
    → off < u256_mod
    → (memory_mstore env.u256 (with_stack m (off ∷ val ∷ s))
        ≡ ok (off + 32 - u256_mod) (with_stack m (off ∷ val ∷ s)))
      × (op_mstore env (with_stack m (off ∷ val ∷ s)) ≡ fault slice_bounds)
unfolding memory_mstore op_mstore
op_mstore-wraps env off val s m high word = (
  ap (λ n. ok n (with_stack m (off ∷ val ∷ s))) (calc_mem_size-wraps env off high word),
  ground (arith, env.u256.uint64-eq off, low_word off high word, word),
)
