-- ===== src/Vm/Effect/Round.antt =====
-- One round of the loop: what it does to the stack and the gas.
use taraxa_evm.Prelude.{
  ℕ, ◌+◌, ◌≤◌, ◌<◌, ◌≡◌, refl, length, arith, none, some, Option, true, false, ltb, subst, sym,
  ◌&&◌, if◌then◌else◌, Bytes,
}
use taraxa_evm.Vm.Env.{Env, Error, out_of_gas, write_protection, invalid_opcode}
use taraxa_evm.Vm.Machine.{Machine, M, ok, err, fault, ◌>>=◌, ◌>>◌, raise_if, pure}
use taraxa_evm.Vm.Memory.{resize}
use taraxa_evm.Vm.Ops.Calls.{Calls}
use taraxa_evm.Vm.OpCode.{OpCode, decode}
use taraxa_evm.Vm.JumpTable.{Operation, operation_of, instruction_set, enabled}
use taraxa_evm.Vm.Interpreter.{
  Control, next, halted, reverting, use_gas, as_out_of_gas, or_raise, check_writes, needed_memory,
  prepare, conclude, perform, step,
}
use taraxa_evm.Vm.Effect.Rules.{Ends, Ends-bind, resize-Keeps}
use taraxa_evm.Vm.Jumpdest.{get_op}
use taraxa_evm.Vm.Effect.Decoded.{Decodes, decode-Decodes}
use taraxa_evm.Vm.Effect.Nested.{Serves}
use taraxa_evm.Vm.Effect.Prices.{back-Ends, raise_if-Ends}
use taraxa_evm.Vm.Effect.Table.{pops, pushes, IsValid, comes_back, least_cost}
use taraxa_evm.Vm.Effect.Validate.{next-least_cost, Allows, validate_stack-Allows}
use taraxa_evm.Vm.Effect.Execute.{execute-Effect}
use taraxa_evm.Vm.Effect.Charge.{gas_cost-Covers}
use taraxa_evm.Vm.Effect.Reach.{Stays, Stays-bind, Ends-stay, Ends-quiet, Reads, memory_size-Stays}

module _ {W : Type 0} where
  or_raise-Ends :
      (popped pushed : ℕ) (o : Option Error) (m : Machine W)
      → Allows popped pushed (length m.stack) o
      → Ends m.gas
          (λ _ m'.
            (m' ≡ m) × ((popped ≤ length m.stack) × (length m.stack + pushed ≤ 1024 + popped)))
          (or_raise o m)
  or_raise-Ends popped pushed none m h = (refl, h)
  or_raise-Ends popped pushed (some e) m h = (h, omega arith)

  as_out_of_gas-Ends :
      {A : Type 0} (most : ℕ) (P : A → Machine W → Type 0) (c : M W A) (m : Machine W)
      → Ends most P (c m)
      → Ends most P (as_out_of_gas c m)
  as_out_of_gas-Ends most P c m h =
      elim (c m)
          as (λ o.
            Ends most P o
            → Ends most P
                (elim o [ ok a m' ↦ ok a m' | err e m' ↦ err out_of_gas m' | fault f ↦ fault f ])) [
                  | ok a m' ↦ λ p. p
                  | err e m' ↦ λ p. (refl, p.1)
                  | fault f ↦ λ p. p
                ]
        h

  use_gas-Ends :
      (cost : ℕ) (m : Machine W)
      → Ends m.gas
          (λ _ m'.
            (m'.stack ≡ m.stack)
            × (m'.evm.call_gas_tmp ≡ m.evm.call_gas_tmp)
            × (m'.gas + cost ≡ m.gas))
          (use_gas cost m)
  unfolding use_gas
  use_gas-Ends cost m = ground arith

module _ (env : Env) (m : Machine (env.World)) where
  check_writes-Stays :
      (operation : Operation (env.World)) (op : ℕ)
      → (op ≡ 0xf1 → 3 ≤ length m.stack)
      → Stays m (check_writes env operation op m)
  unfolding check_writes
  check_writes-Stays operation op h =
      Stays-bind (raise_if (m.evm.read_only && operation.writes) write_protection) _ m
        (raise_if-Ends (m.evm.read_only && operation.writes) write_protection m refl)
        (λ _. ground (arith, back-Ends env 2 m))

  needed_memory-Stays :
      (size : Option (M (env.World) ℕ)) → Reads env m size → Stays m (needed_memory env size m)
  unfolding needed_memory
  needed_memory-Stays none h = refl
  needed_memory-Stays (some size) h = Stays-bind size _ m h (λ n. ground arith)

-- An operation may be executed, and its price is paid.
abbrev Prepared : (env : Env) → OpCode → Machine (env.World) → Machine (env.World) → Type 0
Prepared env code m m' =
    (m'.stack ≡ m.stack)
    × (pops code ≤ length m.stack)
    × (length m.stack + pushes code ≤ 1024 + pops code)
    × (m'.gas + comes_back env code m'.evm.call_gas_tmp m.stack + least_cost code ≤ m.gas)

module _ (env : Env) (m : Machine (env.World)) where
  charge-Ends :
      (code : OpCode) (size : ℕ)
      → pops code ≤ length m.stack
      → length m.stack + pushes code ≤ 1024 + pops code
      → Ends m.gas
          (λ _ m'. Prepared env code m m')
          ((as_out_of_gas ((operation_of env code).gas_cost size) >>= λ cost.
              use_gas cost >> (if ltb 0 size then resize env.preallocated_mem size else pure tt))
            m)
  charge-Ends code size low high =
      Ends-bind m.gas m.gas (omega arith)
        (λ cost m'.
          (m'.stack ≡ m.stack)
          × (m'.gas ≡ m.gas)
          × (comes_back env code m'.evm.call_gas_tmp m.stack + least_cost code ≤ cost))
        (λ _ m'. Prepared env code m m') (as_out_of_gas ((operation_of env code).gas_cost size) m) _
        (as_out_of_gas-Ends m.gas _ ((operation_of env code).gas_cost size) m
          (gas_cost-Covers env size m code m.stack low))
        (λ cost m' h.
          Ends-bind m'.gas m.gas (omega (arith, h))
            (λ _ m''.
              (m''.stack ≡ m'.stack)
              × (m''.evm.call_gas_tmp ≡ m'.evm.call_gas_tmp)
              × (m''.gas + cost ≡ m'.gas))
            (λ _ m''. Prepared env code m m'') (use_gas cost m') _ (use_gas-Ends cost m')
            (λ _ m'' u. ground (arith, resize-Keeps env.preallocated_mem size m'', h, u)))

  pub prepare-Ends :
      (code : OpCode) (op : ℕ)
      → (op ≡ 0xf1 → 3 ≤ pops code)
      → Ends m.gas (λ _ m'. Prepared env code m m') (prepare env (operation_of env code) op m)
  unfolding prepare
  prepare-Ends code op call =
      Ends-stay (λ _ m'. Prepared env code m m')
        (or_raise ((operation_of env code).validate_stack m.stack)) _ m
        (λ _. (pops code ≤ length m.stack) × (length m.stack + pushes code ≤ 1024 + pops code))
        (or_raise-Ends (pops code) (pushes code) ((operation_of env code).validate_stack m.stack) m
          (validate_stack-Allows env code m.stack))
        (λ _ (low, high).
          Ends-quiet (λ _ m'. Prepared env code m m') (check_writes env (operation_of env code) op)
            _ m
            (check_writes-Stays env m (operation_of env code) op (λ e. omega (arith, call e, low)))
            (λ _.
              Ends-quiet (λ _ m'. Prepared env code m m')
                (needed_memory env ((operation_of env code).memory_size)) _ m
                (needed_memory-Stays env m ((operation_of env code).memory_size)
                  (memory_size-Stays env m code low))
                (λ size. charge-Ends code size low high)))

-- A round leaves no more gas than it found, less when the loop goes on.
abbrev pub Advances : {W : Type 0} → Machine W → Control → Machine W → Type 0
Advances m next m' = (m'.gas < m.gas) × (length m'.stack ≤ 1024)
Advances m (halted ret) m' = (m'.gas ≤ m.gas) × (length m'.stack ≤ 1024)
Advances m (reverting ret) m' = (m'.gas ≤ m.gas) × (length m'.stack ≤ 1024)

conclude-Ends :
    (env : Env) (code : OpCode) (res : Bytes) (m m' : Machine (env.World))
    → length m'.stack ≤ 1024
    → m'.gas + least_cost code ≤ m.gas
    → Ends m.gas (Advances m) (conclude env (operation_of env code) res m')
unfolding conclude
conclude-Ends env code res m m' high paid = ground (arith, next-least_cost env code)

pub perform-Ends :
    (env : Env) (bound : ℕ) (calls : Calls (env.World)) (m : Machine (env.World)) (code : OpCode)
    (op : ℕ)
    → Serves bound calls
    → IsValid code
    → (op ≡ 0xf1 → 3 ≤ pops code)
    → m.gas ≤ bound
    → Ends m.gas (Advances m) (perform env calls (operation_of env code) op m)
unfolding perform
perform-Ends env bound calls m code op serves valid call enough =
    Ends-bind m.gas m.gas (omega arith) (λ _ m'. Prepared env code m m') (Advances m)
      (prepare env (operation_of env code) op m) _ (prepare-Ends env m code op call)
      (λ _ m' (same, low, high, paid).
        Ends-bind (m'.gas + comes_back env code m'.evm.call_gas_tmp m'.stack) m.gas
          (ground (arith, same, paid))
          (λ _ m''.
            (length m''.stack + pops code ≡ length m'.stack + pushes code)
            × (m''.gas ≤ m'.gas + comes_back env code m'.evm.call_gas_tmp m'.stack))
          (Advances m) ((operation_of env code).execute calls m') _
          (execute-Effect env m' bound calls serves code valid m'.stack
            (subst (λ s. pops code ≤ length s) (sym same) low) (ground (arith, same, paid)))
          (λ res m'' (height, gas).
            conclude-Ends env code res m m'' (ground (arith, same, high, height))
              (ground (arith, same, paid, gas))))

-- One round, at whatever stands at the counter.
pub step-Ends :
    (env : Env) (bound : ℕ) (calls : Calls (env.World)) (m : Machine (env.World))
    → Serves bound calls
    → m.gas ≤ bound
    → Ends m.gas (Advances m) (step env calls m)
unfolding step instruction_set
step-Ends env bound calls m serves enough =
    let op = get_op m.contract.code m.pc in
    elim (decode op)
        as (λ o.
          Decodes op o
          → AtMost (elim o as (λ _. Option (Operation (env.World))) [
            | none ↦ none
            | some code ↦ if enabled env code then some (operation_of env code) else none
          ])) [
            | none ↦ λ _. (refl, omega arith)
            | some code ↦ λ (valid, call).
                elim (enabled env code)
                  as (λ b. AtMost (if b then some (operation_of env code) else none)) [
                    | false ↦ (refl, omega arith)
                    | true ↦ perform-Ends env bound calls m code op serves valid call enough
                  ]
          ]
      (decode-Decodes op)
  where
    AtMost : Option (Operation (env.World)) → Type 0
    AtMost o = Ends m.gas (Advances m) (elim o [
      | none ↦ err (invalid_opcode (get_op m.contract.code m.pc)) m
      | some operation ↦ perform env calls operation (get_op m.contract.code m.pc) m
    ])
