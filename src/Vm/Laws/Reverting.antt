-- ===== src/Vm/Laws/Reverting.antt =====
-- What a call leaves behind that is refused before it runs, or that fails (core/vm/evm.go).
use taraxa_evm.Prelude.{
  ℕ, ◌≤◌, ◌≡◌, ◌⊎◌, inl, inr, refl, Bool, true, false, ◌&&◌, ◌||◌, not, ltb, ◌==◌, none, some,
  Bytes, [], arith, if◌then◌else◌,
}
use taraxa_evm.Prelude.Int.{pos, leb_ℤ}
use taraxa_evm.Vm.Env.{Env, Address}
use taraxa_evm.Vm.Machine.{M, Evm, Contract}
use taraxa_evm.Vm.Ops.Calls.{
  Called, returned, failed, CallKind, call, call_code, delegate_call, static_call, reverted,
}
use taraxa_evm.Vm.Interpreter.{
  RunResult, settle_call, run_callee, evm_call, is_precompiled, with_state, frame_of, touch,
  balance_gte,
}

-- The kinds of call that send their value along.
abbrev pub sends : CallKind → (value : ℕ) → ℕ
sends call value = value
sends call_code value = value
sends delegate_call value = 0
sends static_call value = 0

-- More than 1024 calls are open, or the caller, unless it is the zero address, has less than it sends.
abbrev pub refuses :
    (env : Env) → CallKind → (from : Address) → (value : ℕ) → Evm (env.World) → Bool
refuses env kind from value evm =
    ltb 1024 evm.depth
    || (not (from == 0)
        && (not (sends kind value == 0)
            && not (leb_ℤ (pos value) (env.state_ops.get_balance from evm.state))))

-- A refused call ends in an error, with its gas, no bytes, and the whole machine as it was. Any other
-- call that fails has its state reverted to the snapshot of its start, and has no gas left unless it
-- was a revert or the callee is a precompiled contract.
abbrev pub FailsFrom :
    (env : Env)
    → (callee : Address) → (gas : ℕ) → Evm (env.World)
    → (refused : Bool) → Called (env.World)
    → Type 0
FailsFrom env callee gas evm true (returned ret left none evm') = 1 ≤ 0
FailsFrom env callee gas evm true (returned ret left (some e) evm') =
    (ret ≡ []) × (left ≡ gas) × (evm' ≡ evm)
FailsFrom env callee gas evm true (failed f) = 1 ≤ 0
FailsFrom env callee gas evm false (returned ret left none evm') = Unit
FailsFrom env callee gas evm false (returned ret left (some e) evm') =
    ((w : env.World) × (evm'.state
        ≡ env.state_ops.revert_to_snapshot (env.state_ops.snapshot evm.state) w))
    × ((left ≡ 0) ⊎ (reverted (some e) || is_precompiled env callee ≡ true))
FailsFrom env callee gas evm false (failed f) = Unit

module _ (env : Env) (callee : Address) (gas : ℕ) (evm : Evm (env.World)) where
  settle_call-FailsFrom :
      (called : Called (env.World))
      → FailsFrom env callee gas evm false
          (settle_call env (env.state_ops.snapshot evm.state) (is_precompiled env callee) called)
  unfolding settle_call
  settle_call-FailsFrom (returned ret left none evm') = tt
  settle_call-FailsFrom (returned ret left (some e) evm') = (
    (evm'.state, refl),
    elim (reverted (some e) || is_precompiled env callee)
        as (λ b. ((if b then left else 0) ≡ 0) ⊎ (b ≡ true)) [ true ↦ inr refl | false ↦ inl refl ],
  )
  settle_call-FailsFrom (failed f) = tt

-- A call is refused with an error, with its gas and all else as it was, when more than 1024 calls are
-- open or a caller other than the zero address has less than the value that it sends. A call that is
-- not refused and fails has its state reverted to the snapshot taken at its start; its gas is gone then,
-- unless the error is a revert or the callee is a precompiled contract.
pub evm_call-FailsFrom :
    (env : Env) (loop : M (env.World) RunResult) (kind : CallKind) (caller : Contract)
    (callee : Address) (input : Bytes) (gas value : ℕ) (evm : Evm (env.World))
    → FailsFrom env callee gas evm
        (refuses env kind caller.frame.account value evm)
        (evm_call env loop kind caller callee input gas value evm)
unfolding evm_call balance_gte
evm_call-FailsFrom env loop kind caller callee input gas value evm =
    let settled = settle_call-FailsFrom env callee gas evm (
      run_callee env loop kind (frame_of env kind caller callee input gas value) callee
        (with_state env (touch env kind caller.frame.account callee value evm.state) evm)) in
    by_kind kind settled
  where
    by_kind :
        (kind : CallKind)
        → FailsFrom env callee gas evm false (
            settle_call env (env.state_ops.snapshot evm.state) (is_precompiled env callee) (
              run_callee env loop kind
                (frame_of env kind caller callee input gas value)
                callee
                (with_state env (touch env kind caller.frame.account callee value evm.state) evm)))
        → FailsFrom env callee gas evm
            (refuses env kind caller.frame.account value evm)
            (evm_call env loop kind caller callee input gas value evm)
    by_kind call h = ground (arith, h)
    by_kind call_code h = ground (arith, h)
    by_kind delegate_call h = ground (arith, h)
    by_kind static_call h = ground (arith, h)
