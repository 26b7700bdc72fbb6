-- ===== src/Vm/Effect/Termination.antt =====
-- The machine stops: a run whose fuel exceeds its gas ends, and so do the runs that it starts.
use taraxa_evm.Prelude.{
  ℕ, zero, suc, ◌+◌, ◌*◌, ◌≤◌, ◌<◌, ◌≡◌, refl, length, arith, none, some, Option, true, false, Bool,
  Bytes, ◌==◌, ◌||◌, if◌then◌else◌, [], subst, sym,
}
use taraxa_evm.Vm.Env.{Env, CallFrame, PrecompiledContract, Address}
use taraxa_evm.Vm.Machine.{Machine, M, Evm, Contract, Outcome, ok, err, fault}
use taraxa_evm.Vm.Ops.Calls.{
  reverted, Called, returned, failed, CallKind, call, call_code, delegate_call, static_call,
  CreateKind, create1, create2,
}
use taraxa_evm.Vm.Interpreter.{
  Control, next, halted, reverting, RunResult, run, run_precompiled, run_callee, settle_call,
  evm_call, settle_create, evm_create, evm_create_at, calls_of, continue_with, run_loop, step,
  enter, is_precompiled, is_static, touch, transfer, with_state, frame_of,
}
use taraxa_evm.Vm.Effect.Rules.{Ends, IsSafe}
use taraxa_evm.Vm.Effect.Nested.{GivesBack, Serves}
use taraxa_evm.Vm.Effect.Round.{Advances, step-Ends}

-- A run with less gas than `fuel` ends with no more gas than it got, also in an error.
abbrev Stops : (env : Env) → (fuel : ℕ) → M (env.World) RunResult → Type 0
Stops env fuel loop =
    (m : Machine (env.World)) → m.gas < fuel → Ends m.gas (λ _ m'. m'.gas ≤ m.gas) (loop m)

-- The gas that is left counts unless the error takes it.
abbrev Leaves : {W : Type 0} → (is_precompiled : Bool) → ℕ → Called W → Type 0
Leaves p gas (returned ret left none evm) = left ≤ gas
Leaves p gas (returned ret left (some e) evm) = (reverted (some e) || p ≡ true) → left ≤ gas
Leaves p gas (failed f) = IsSafe f

-- A creation that succeeds returns code of at most 24576 bytes, and what it gives back and the price
-- of the code, 200 for each byte, are at most the gas that it got.
abbrev pub Deposits : {W : Type 0} → ℕ → Called W → Type 0
Deposits gas (returned ret left none evm) = (length ret ≤ 24576) × (left + 200 * length ret ≤ gas)
Deposits gas (returned ret left (some e) evm) = left ≤ gas
Deposits gas (failed f) = IsSafe f

Deposits-GivesBack :
    {W : Type 0} (gas : ℕ) (called : Called W) → Deposits gas called → GivesBack gas called
Deposits-GivesBack gas (returned ret left none evm) (short, h) = omega (arith, h)
Deposits-GivesBack gas (returned ret left (some e) evm) h = h
Deposits-GivesBack gas (failed f) h = h

module _ (env : Env) (fuel : ℕ) (loop : M (env.World) RunResult) (stops : Stops env fuel loop) where
  run-Leaves :
      (contract : Contract) (gas : ℕ) (read_only : Bool) (evm : Evm (env.World))
      → gas < fuel
      → Leaves false gas (run env loop contract gas read_only evm)
  unfolding run
  run-Leaves contract gas read_only evm enough =
      ground (arith, stops (enter env contract gas read_only evm))

  run_precompiled-Leaves :
      (q : Bool) (p : PrecompiledContract (env.World)) (frame : CallFrame) (evm : Evm (env.World))
      → Leaves q frame.gas (run_precompiled env p frame evm)
  unfolding run_precompiled
  run_precompiled-Leaves q p frame evm = ground arith

  settle_call-GivesBack :
      (snapshot : ℕ) (p : Bool) (gas : ℕ) (called : Called (env.World))
      → Leaves p gas called
      → GivesBack gas (settle_call env snapshot p called)
  unfolding settle_call
  settle_call-GivesBack snapshot p gas (returned ret left none evm) h = h
  settle_call-GivesBack snapshot p gas (returned ret left (some e) evm) h = ground (arith, h)
  settle_call-GivesBack snapshot p gas (failed f) h = h

  abbrev code_of : CallKind → CallFrame → Address → Evm (env.World) → Contract
  code_of kind frame callee evm = record {
    frame = frame;
    code = env.state_ops.get_code callee evm.state;
    code_hash = env.state_ops.get_code_hash callee evm.state;
  }

  run_callee-Leaves :
      (kind : CallKind) (frame : CallFrame) (callee : Address) (evm : Evm (env.World))
      → frame.gas < fuel
      → Leaves (is_precompiled env callee) frame.gas (run_callee env loop kind frame callee evm)
  unfolding run_callee
  run_callee-Leaves kind frame callee evm enough =
      elim (env.precompiles callee)
        as (λ o.
          Leaves (elim o as (λ _. Bool) [ none ↦ false | some _ ↦ true ]) frame.gas
            (elim o as (λ _. Called (env.World)) [
              | some p ↦ run_precompiled env p frame evm
              | none ↦
                  if length (env.state_ops.get_code callee evm.state) == 0
                  then returned [] frame.gas none evm
                  else run env loop (code_of kind frame callee evm) frame.gas (is_static env kind)
                      evm
            ])) [
              | some p ↦ run_precompiled-Leaves true p frame evm
              | none ↦ ground (
                arith,
                run-Leaves (code_of kind frame callee evm) frame.gas (is_static env kind) evm
                    enough,
              )
            ]

  frame_of-gas :
      (kind : CallKind) (caller : Contract) (callee : Address) (input : Bytes) (gas value : ℕ)
      → (frame_of env kind caller callee input gas value).gas ≡ gas
  frame_of-gas call caller callee input gas value = refl
  frame_of-gas call_code caller callee input gas value = refl
  frame_of-gas delegate_call caller callee input gas value = refl
  frame_of-gas static_call caller callee input gas value = refl

  evm_call-GivesBack :
      (kind : CallKind) (caller : Contract) (callee : Address) (input : Bytes) (gas value : ℕ)
      (evm : Evm (env.World))
      → gas < fuel
      → GivesBack gas (evm_call env loop kind caller callee input gas value evm)
  unfolding evm_call
  evm_call-GivesBack kind caller callee input gas value evm enough =
      let from = caller.frame.account in
      let touched = with_state env (touch env kind from callee value evm.state) evm in
      let frame = frame_of env kind caller callee input gas value in
      ground (
        arith,
        settle_call-GivesBack (env.state_ops.snapshot evm.state) (is_precompiled env callee) gas
            (run_callee env loop kind frame callee touched)
            (subst
              (λ g.
                Leaves (is_precompiled env callee) g
                  (run_callee env loop kind frame callee touched))
              (frame_of-gas kind caller callee input gas value)
              (run_callee-Leaves kind frame callee touched (
                subst (λ g. g < fuel) (sym (frame_of-gas kind caller callee input gas value))
                  enough))),
      )

  settle_create-Deposits :
      (snapshot : ℕ) (address : Address) (gas : ℕ) (called : Called (env.World))
      → Leaves false gas called
      → Deposits gas (settle_create env snapshot address called)
  unfolding settle_create
  settle_create-Deposits snapshot address gas (returned ret left none evm) h = ground (arith, h)
  settle_create-Deposits snapshot address gas (returned ret left (some e) evm) h = ground (arith, h)
  settle_create-Deposits snapshot address gas (failed f) h = h

  abbrev creation : (caller address : Address) → Bytes → Option ℕ → (gas value : ℕ) → Contract
  creation caller address code code_hash gas value = record {
    frame = record {
      caller_account = caller;
      account = address;
      input = [];
      gas = gas;
      value = value;
    };
    code = code;
    code_hash = code_hash;
  }

  evm_create-Deposits :
      (caller : Address) (code : Bytes) (code_hash : Option ℕ) (gas value : ℕ) (address : Address)
      (evm : Evm (env.World))
      → gas < fuel
      → Deposits gas (evm_create env loop caller code code_hash gas value address evm)
  unfolding evm_create
  evm_create-Deposits caller code code_hash gas value address evm enough =
      let counted = env.state_ops.increment_nonce caller evm.state in
      let opened =
        transfer env caller address value (env.state_ops.increment_nonce address counted) in
      let contract = creation caller address code code_hash gas value in
      let called = run env loop contract gas false (with_state env opened evm) in
      ground (
        arith,
        settle_create-Deposits (env.state_ops.snapshot counted) address gas called
            (run-Leaves contract gas false (with_state env opened evm) enough),
      )

  evm_create_at-Deposits :
      (kind : CreateKind) (caller : Address) (code : Bytes) (gas value : ℕ) (evm : Evm (env.World))
      → gas < fuel
      → Deposits gas ((evm_create_at env loop kind caller code gas value evm).1)
  unfolding evm_create_at
  evm_create_at-Deposits create1 caller code gas value evm enough =
      evm_create-Deposits caller code none gas value _ evm enough
  evm_create_at-Deposits (create2 salt) caller code gas value evm enough =
      evm_create-Deposits caller code _ gas value _ evm enough

  calls_of-Serves : Serves fuel (calls_of env loop)
  calls_of-Serves = record {
    serves_call = evm_call-GivesBack;
    serves_create = λ kind caller code gas value evm enough.
        Deposits-GivesBack gas ((evm_create_at env loop kind caller code gas value evm).1)
          (evm_create_at-Deposits kind caller code gas value evm enough);
  }

  continue_with-Ends :
      (m : Machine (env.World)) (o : Outcome (env.World) Control)
      → m.gas ≤ fuel
      → Ends m.gas (Advances m) o
      → Ends m.gas (λ _ m'. m'.gas ≤ m.gas) (continue_with env loop o)
  continue_with-Ends m (ok next m') enough (less, high) =
      from_less (loop m') (stops m' (omega (arith, less, enough)))
    where
      from_less :
          (r : Outcome (env.World) RunResult)
          → Ends m'.gas (λ _ m''. m''.gas ≤ m'.gas) r
          → Ends m.gas (λ _ m''. m''.gas ≤ m.gas) r
      from_less (ok res m'') h = omega (arith, h, less)
      from_less (err e m'') h = (h.0, omega (arith, h, less))
      from_less (fault f) h = h
  continue_with-Ends m (ok (halted ret) m') enough h = h.0
  continue_with-Ends m (ok (reverting ret) m') enough h = h.0
  continue_with-Ends m (err e m') enough h = h
  continue_with-Ends m (fault f) enough h = h

run_loop-Stops : (env : Env) (fuel : ℕ) → Stops env fuel (run_loop env fuel)
unfolding run_loop
run_loop-Stops env zero m h = absurd (omega arith)
run_loop-Stops env (suc fuel) m h =
    let rest = run_loop-Stops env fuel in
    continue_with-Ends env fuel (run_loop env fuel) rest m
      (step env (calls_of env (run_loop env fuel)) m) (omega arith)
      (step-Ends env fuel (calls_of env (run_loop env fuel)) m
        (calls_of-Serves env fuel (run_loop env fuel) rest) (omega arith))

pub nested-Serves : (env : Env) (fuel : ℕ) → Serves fuel (calls_of env (run_loop env fuel))
nested-Serves env fuel = calls_of-Serves env fuel (run_loop env fuel) (run_loop-Stops env fuel)

-- With at least as much fuel as gas, one round with its nested runs ends: if it ends in no error, it
-- leaves at most 1024 items on the stack and no more gas than before, less when the loop goes on; if
-- it fails, it leaves no more gas than before, and the error is not ErrExecutionReverted. No fault of
-- it is a lack of fuel or an access below the bottom of the stack.
pub step-Advances :
    (env : Env) (fuel : ℕ) (m : Machine (env.World))
    → m.gas ≤ fuel
    → Ends m.gas (Advances m) (step env (calls_of env (run_loop env fuel)) m)
step-Advances env fuel m h =
    step-Ends env fuel (calls_of env (run_loop env fuel)) m (nested-Serves env fuel) h

-- A call of any kind that gets less gas than there is fuel gives back at most that gas, or ends in a
-- fault that is neither a lack of fuel nor an access below the bottom of the stack.
pub nested_call-GivesBack :
    (env : Env) (fuel : ℕ) (kind : CallKind) (caller : Contract) (callee : Address) (input : Bytes)
    (gas value : ℕ) (evm : Evm (env.World))
    → gas < fuel
    → GivesBack gas (evm_call env (run_loop env fuel) kind caller callee input gas value evm)
nested_call-GivesBack env fuel = (nested-Serves env fuel).serves_call

-- A creation of either kind that gets less gas than there is fuel and succeeds returns at most 24576
-- bytes of code, and what it gives back and 200 for each byte of the code are at most the gas that it
-- got; one that fails gives back at most that gas. A fault that it ends in is neither a lack of fuel
-- nor an access below the bottom of the stack.
pub nested_create-Deposits :
    (env : Env) (fuel : ℕ) (kind : CreateKind) (caller : Address) (code : Bytes) (gas value : ℕ)
    (evm : Evm (env.World))
    → gas < fuel
    → Deposits gas ((evm_create_at env (run_loop env fuel) kind caller code gas value evm).1)
nested_create-Deposits env fuel =
    evm_create_at-Deposits env fuel (run_loop env fuel) (run_loop-Stops env fuel)
