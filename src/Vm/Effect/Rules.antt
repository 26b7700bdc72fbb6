-- ===== src/Vm/Effect/Rules.antt =====
-- Postconditions of an operation, and what the accesses to the memory keep.
use taraxa_evm.Prelude.{ℕ, ◌+◌, ◌≤◌, ◌≡◌, ◌≢◌, Bytes, List, length, some, arith, false}
use taraxa_evm.Vm.Machine.{Machine, M, Outcome, ok, err, fault, Fault, stack_index, out_of_fuel}
use taraxa_evm.Vm.Ops.Calls.{reverted}
use taraxa_evm.Vm.Memory.{mem_set, mem_set32, get_ptr, mem_copy, store_byte, resize}

-- The faults of the Go program that are not an access below the bottom of the stack.
abbrev pub IsSafe : Fault → Type 0
IsSafe f = (f ≢ stack_index) × (f ≢ out_of_fuel)

module _ {W A : Type 0} where
  -- What holds of the value and the machine at the end, and the most gas that an error leaves.
  abbrev pub Ends : (most : ℕ) → (A → Machine W → Type 0) → Outcome W A → Type 0
  Ends most P (ok a m) = P a m
  -- Only REVERT, which ends the run normally, stands for ErrExecutionReverted.
  Ends most P (err e m) = (reverted (some e) ≡ false) × (m.gas ≤ most)
  Ends most P (fault f) = IsSafe f

  -- The stack, the gas and the gas set aside for a call stay.
  abbrev pub Keeps : Machine W → Outcome W A → Type 0
  Keeps m =
      Ends m.gas (λ _ m'.
        (m'.stack ≡ m.stack) × (m'.gas ≡ m.gas) × (m'.evm.call_gas_tmp ≡ m.evm.call_gas_tmp))

  -- `popped` items are replaced by `pushed` ones, and at most `extra` gas comes back.
  abbrev pub Effect : (popped pushed extra : ℕ) → Machine W → Outcome W A → Type 0
  Effect popped pushed extra m =
      Ends (m.gas + extra)
        (λ _ m'. (length m'.stack + popped ≡ length m.stack + pushed) × (m'.gas ≤ m.gas + extra))

-- The rule for a sequence.
pub Ends-bind :
    {W A B : Type 0} (low high : ℕ) (le : low ≤ high) (P : A → Machine W → Type 0)
    (Q : B → Machine W → Type 0) (o : Outcome W A) (k : A → M W B)
    → Ends low P o
    → ((a : A) (m : Machine W) → P a m → Ends high Q (k a m))
    → Ends high Q (elim o [ ok a m' ↦ k a m' | err e m' ↦ err e m' | fault f ↦ fault f ])
Ends-bind low high le P Q (ok a m) k p next = next a m p
Ends-bind low high le P Q (err e m) k p next = (p.0, omega (arith, p, le))
Ends-bind low high le P Q (fault f) k p next = p

abbrev pub with_stack : {W : Type 0} → Machine W → List ℕ → Machine W
with_stack m s = record m { stack = s }

module _ {W : Type 0} where
  pub mem_set-Keeps :
      (offset size : ℕ) (value : Bytes) (m : Machine W) → Keeps m (mem_set offset size value m)
  unfolding mem_set
  mem_set-Keeps offset size value m = ground arith

  pub mem_set32-Keeps :
      (bytes32 : ℕ → Bytes) (offset val : ℕ) (m : Machine W)
      → Keeps m (mem_set32 bytes32 offset val m)
  unfolding mem_set32
  mem_set32-Keeps bytes32 offset val m = ground arith

  pub mem_copy-Keeps : (dst src len : ℕ) (m : Machine W) → Keeps m (mem_copy dst src len m)
  unfolding mem_copy
  mem_copy-Keeps dst src len m = ground arith

  pub store_byte-Keeps : (i b : ℕ) (m : Machine W) → Keeps m (store_byte i b m)
  unfolding store_byte
  store_byte-Keeps i b m = ground arith

  pub resize-Keeps : (pool_size size : ℕ) (m : Machine W) → Keeps m (resize pool_size size m)
  unfolding resize
  resize-Keeps pool_size size m = ground arith

  pub get_ptr-Ends :
      (offset size : ℕ) (m : Machine W) → Ends m.gas (λ _ m'. m' ≡ m) (get_ptr offset size m)
  unfolding get_ptr
  get_ptr-Ends offset size m = ground arith
