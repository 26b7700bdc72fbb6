-- ===== src/Vm/Laws/ReadOnly.antt =====
-- What the read-only mode of the loop forbids (core/vm/evm.go).
use taraxa_evm.Prelude.{
  ℕ, ◌≤◌, ◌≡◌, ◌≢◌, ◌⊎◌, inl, inr, refl, Bool, true, false, ◌&&◌, ◌||◌, ◌==◌, leb, List, ◌∷◌, subst,
  Option, none, some, arith, ⊤, if◌then◌else◌, Bool-cases,
}
use taraxa_evm.Vm.Env.{Env, Error, write_protection, invalid_opcode}
use taraxa_evm.Vm.Machine.{M, Machine, Outcome, ok, err, fault, ◌>>=◌, ◌>>◌, raise_if}
use taraxa_evm.Vm.Stack.{back}
use taraxa_evm.Vm.Jumpdest.{get_op}
use taraxa_evm.Vm.Ops.Calls.{Calls}
use taraxa_evm.Vm.OpCode.{OpCode, decode, decode_rest, decode_storage}
use taraxa_evm.Vm.JumpTable.{Operation, operation_of, instruction_set, enabled}
use taraxa_evm.Vm.Interpreter.{Control, step, perform, prepare, check_writes, or_raise}

-- An error that leaves the machine as it was.
abbrev pub Refused : {W A : Type 0} → Machine W → Outcome W A → Type 0
Refused m (ok a m') = 1 ≤ 0
Refused m (err e m') = m' ≡ m
Refused m (fault f) = 1 ≤ 0

Refused-bind :
    {W A B : Type 0} (m : Machine W) (c : M W A) (k : A → M W B)
    → Refused m (c m)
    → Refused m ((c >>= k) m)
Refused-bind {W} {A} {B} m c k h =
    elim (c m) as (λ o. Refused m o → Refused m (bind o)) [
      | ok a m' ↦ λ p. absurd (omega (arith, p))
      | err e m' ↦ λ p. p
      | fault f ↦ λ p. absurd (omega (arith, p))
    ]
      h
  where
    bind : Outcome W A → Outcome W B
    bind o = elim o [ ok a m' ↦ k a m' | err e m' ↦ err e m' | fault f ↦ fault f ]

raise_if-Refused :
    {W : Type 0} (b : Bool) (e : Error) (m : Machine W) → b ≡ true → Refused m (raise_if b e m)
raise_if-Refused true e m h = refl
raise_if-Refused false e m h = absurd (ground (arith, h))

module _ (env : Env) (operation : Operation (env.World)) (m : Machine (env.World))
    (read_only : m.evm.read_only ≡ true) where
  check_writes-Refused :
      (op : ℕ) → operation.writes ≡ true → Refused m (check_writes env operation op m)
  unfolding check_writes
  check_writes-Refused op w =
      Refused-bind m (raise_if (m.evm.read_only && operation.writes) write_protection) _ (
        raise_if-Refused (m.evm.read_only && operation.writes) write_protection m
          (ground (arith, read_only, w)))

  -- A call whose third operand, the value, is not zero.
  check_value-Refused :
      (gas callee value : ℕ) (rest : List ℕ)
      → m.stack ≡ gas ∷ callee ∷ value ∷ rest
      → value ≢ 0
      → Refused m (check_writes env operation 0xf1 m)
  unfolding check_writes back
  check_value-Refused gas callee value rest s v =
      rw s (ground (arith, read_only, env.u256.bit_len_zero value))

  validated-Refused :
      (o : Option Error) (c : M (env.World) ⊤) → Refused m (c m) → Refused m ((or_raise o >> c) m)
  validated-Refused none c h = h
  validated-Refused (some e) c h = refl

  -- A refused check refuses the round.
  perform-Refused :
      (calls : Calls (env.World)) (op : ℕ)
      → Refused m (check_writes env operation op m)
      → Refused m (perform env calls operation op m)
  unfolding perform prepare
  perform-Refused calls op h = Refused-bind m (prepare env operation op) _ (
      validated-Refused (operation.validate_stack m.stack) _
        (Refused-bind m (check_writes env operation op) _ h))

-- SSTORE, LOG0 to LOG4, CREATE, CREATE2 and SELFDESTRUCT
abbrev pub is_write : ℕ → Bool
is_write op =
    (op == 0x55)
    || ((leb 0xa0 op && leb op 0xa4) || ((op == 0xf0) || ((op == 0xf5) || (op == 0xff))))

-- A CALL that sends a value
abbrev pub SendsValue : ℕ → List ℕ → Type 0
SendsValue op stack =
    (op ≡ 0xf1)
    × ((gas : ℕ) × (callee : ℕ) × (value : ℕ) × (rest : List ℕ) × (stack
          ≡ gas ∷ callee ∷ value ∷ rest)
        × (value ≢ 0))

module _ (env : Env) where
  -- The operations that the table marks.
  Marked : Option OpCode → Type 0
  Marked none = Unit
  Marked (some code) = (operation_of env code).writes ≡ true

  decode-Marked : (op : ℕ) → is_write op ≡ true → Marked (decode op)
  unfolding decode decode_rest decode_storage operation_of Marked
  decode-Marked op h = ground arith

  Marked-writes :
      (o : Option OpCode) (code : OpCode)
      → Marked o
      → o ≡ some code
      → (operation_of env code).writes ≡ true
  unfolding Marked
  Marked-writes o code h e = subst Marked e h

  module _ (calls : Calls (env.World)) (m : Machine (env.World))
      (read_only : m.evm.read_only ≡ true) where
    -- A round of the operation that stands at the place, if the rules of the block have it.
    enabled-Refused :
        (op : ℕ) (o : Option OpCode)
        → ((code : OpCode)
            → o ≡ some code
            → Refused m (check_writes env (operation_of env code) op m))
        → Refused m
            (elim (elim o as (λ _. Option (Operation (env.World))) [
              | none ↦ none
              | some code ↦ if enabled env code then some (operation_of env code) else none
            ])
              as (λ _. Outcome (env.World) Control) [
                | none ↦ err (invalid_opcode op) m
                | some operation ↦ perform env calls operation op m
              ])
    enabled-Refused op none h = refl
    enabled-Refused op (some code) h = elim (Bool-cases (enabled env code)) [
      | inl on ↦
          rw on (perform-Refused env (operation_of env code) m read_only calls op (h code refl))
      | inr off ↦ rw off refl
    ]

-- In read-only mode a round at an SSTORE, a LOG, a CREATE, a CREATE2, a SELFDESTRUCT, or a CALL that
-- sends a value, ends in an error, whatever its gas and its stack, and the machine, its gas and the
-- state of the accounts included, is as it was.
pub step-Refused :
    (env : Env) (calls : Calls (env.World)) (m : Machine (env.World))
    → m.evm.read_only ≡ true
    → (is_write (get_op m.contract.code m.pc) ≡ true)
      ⊎ SendsValue (get_op m.contract.code m.pc) m.stack
    → Refused m (step env calls m)
unfolding step instruction_set
step-Refused env calls m read_only (inl h) =
    let op = get_op m.contract.code m.pc in
    enabled-Refused env calls m read_only op (decode op) (λ code e.
      check_writes-Refused env (operation_of env code) m read_only op
        (Marked-writes env (decode op) code (decode-Marked env op h) e))
step-Refused env calls m read_only (inr (at, (gas, callee, value, rest, s, v))) =
    let op = get_op m.contract.code m.pc in
    enabled-Refused env calls m read_only op (decode op) (λ code e.
      rw at (check_value-Refused env (operation_of env code) m read_only gas callee value rest s v))
