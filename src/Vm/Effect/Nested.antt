-- ===== src/Vm/Effect/Nested.antt =====
-- The effect of calls and creations, from what the runs of their callees give back.
use taraxa_evm.Prelude.{
  ℕ, suc, ◌+◌, ◌-◌, ◌/◌, ◌%◌, ◌≤◌, ◌<◌, ◌≡◌, Bytes, List, [], ◌∷◌, length, arith, if◌then◌else◌,
}
use taraxa_evm.Vm.Env.{Env, Address, u64_mod}
use taraxa_evm.Vm.Machine.{Machine, Evm, Contract}
use taraxa_evm.Vm.Effect.Rules.{Effect, Ends-bind, IsSafe, with_stack, get_ptr-Ends, mem_set-Keeps}
use taraxa_evm.Vm.Ops.Calls.{
  Called, returned, failed, Calls, CallKind, CreateKind, create1, create2, call, call_code,
  delegate_call, static_call, nil_error, finish_call, enter_call, op_call, op_call_code,
  op_delegate_call, op_static_call, finish_create, enter_create, op_create, op_create2,
}

-- The callee gives back at most the gas that it got.
abbrev pub GivesBack : {W : Type 0} → ℕ → Called W → Type 0
GivesBack gas (returned ret left e evm) = left ≤ gas
GivesBack gas (failed f) = IsSafe f

-- So does every callee that gets less than `bound`.
pub record Serves {W : Type 0} (bound : ℕ) (calls : Calls W) : Type 0 where
  pub serves_call :
      (kind : CallKind) (contract : Contract) (callee : Address) (input : Bytes) (gas value : ℕ)
      (evm : Evm W)
      → gas < bound
      → GivesBack gas (calls.run_call kind contract callee input gas value evm)
  pub serves_create :
      (kind : CreateKind) (caller : Address) (code : Bytes) (gas value : ℕ) (evm : Evm W)
      → gas < bound
      → GivesBack gas ((calls.run_create kind caller code gas value evm).1)

module _ (env : Env) where
  finish_call-Effect :
      (ret_offset ret_size gas : ℕ) (called : Called (env.World)) (m : Machine (env.World))
      → GivesBack gas called
      → Effect 0 1 gas m (finish_call env ret_offset ret_size called m)
  unfolding finish_call
  finish_call-Effect ret_offset ret_size gas (failed f) m back = back
  finish_call-Effect ret_offset ret_size gas (returned ret left e evm) m back = ground (
    arith,
    mem_set-Keeps (env.u256.uint64 ret_offset) (env.u256.uint64 ret_size) ret
        (record m { stack = (if nil_error e then 1 else 0) ∷ m.stack; evm = evm }),
  )

  finish_create-Effect :
      (gas : ℕ) (called : Address × Called (env.World)) (m : Machine (env.World))
      → GivesBack gas (called.1)
      → Effect 0 1 gas m (finish_create env called m)
  unfolding finish_create
  finish_create-Effect gas (a, failed f) m back = back
  finish_create-Effect gas (a, returned ret left e evm) m back = ground arith

  module _ (bound : ℕ) (calls : Calls (env.World)) (serves : Serves bound calls) where
    enter_create-Effect :
        (kind : CreateKind) (value : ℕ) (input : Bytes) (m : Machine (env.World))
        → m.gas < bound
        → Effect 0 1 0 m (enter_create env calls kind value input m)
    unfolding enter_create
    enter_create-Effect kind value input m b =
        let gas = m.gas - m.gas / 64 in
        let m' = record m { gas = m.gas - gas } in
        let called = calls.run_create kind m.contract.frame.account input gas value m.evm in
        ground (
          arith,
          finish_create-Effect gas called m' (
              serves.serves_create kind m.contract.frame.account input gas value m.evm
                (ground arith)),
        )

-- The gas that a call gets on top: 2300 when it passes a value on.
unfoldable pub stipend : Env → List ℕ → ℕ
stipend env (gas ∷ addr ∷ value ∷ s) = if env.u256.is_zero value then 0 else 2300
stipend env _ = 0

module _ (env : Env) (m : Machine (env.World)) where
  module _ (bound : ℕ) (calls : Calls (env.World)) (serves : Serves bound calls) where
    enter_call-Effect :
        (kind : CallKind) (addr value stipend : ℕ) (s : List ℕ)
        → 4 ≤ length s
        → m.evm.call_gas_tmp + stipend < bound
        → Effect 4 1
            (m.evm.call_gas_tmp + stipend)
            (with_stack m s)
            (enter_call env calls kind addr value stipend (with_stack m s))
    unfolding enter_call
    enter_call-Effect kind addr value stipend [] h b = absurd (omega arith)
    enter_call-Effect kind addr value stipend (x ∷ []) h b = absurd (omega arith)
    enter_call-Effect kind addr value stipend (x ∷ y ∷ []) h b = absurd (omega arith)
    enter_call-Effect kind addr value stipend (x ∷ y ∷ z ∷ []) h b = absurd (omega arith)
    enter_call-Effect kind addr value stipend (x ∷ y ∷ z ∷ t ∷ s) h b =
        Ends-bind m.gas (m.gas + (m.evm.call_gas_tmp + stipend)) (omega arith)
          (λ _ m'. m' ≡ with_stack m s)
          (λ _ m'.
            (length m'.stack + 4 ≡ suc (suc (suc (suc (length s)))) + 1)
            × (m'.gas ≤ m.gas + (m.evm.call_gas_tmp + stipend)))
          _ _ (get_ptr-Ends (env.u256.uint64 x) (env.u256.uint64 y) (with_stack m s))
          (λ args m' same.
            let called =
              calls.run_call kind m'.contract (env.u256.bytes20 addr) args
                ((m'.evm.call_gas_tmp + stipend) % u64_mod) value m'.evm in
            let back =
              serves.serves_call kind m'.contract (env.u256.bytes20 addr) args
                ((m'.evm.call_gas_tmp + stipend) % u64_mod) value m'.evm (ground arith) in
            ground (
              arith,
              same,
              finish_call-Effect env z t ((m'.evm.call_gas_tmp + stipend) % u64_mod) called m' back,
            ))

    pub op_call-Effect :
        (s : List ℕ)
        → 7 ≤ length s
        → m.evm.call_gas_tmp + stipend env s < bound
        → Effect 7 1
            (m.evm.call_gas_tmp + stipend env s)
            (with_stack m s)
            (op_call env calls (with_stack m s))
    unfolding op_call stipend
    op_call-Effect ([]) h b = absurd (omega arith)
    op_call-Effect (gas ∷ []) h b = absurd (omega arith)
    op_call-Effect (gas ∷ addr ∷ []) h b = absurd (omega arith)
    op_call-Effect (gas ∷ addr ∷ value ∷ rest) h b =
        ground (
          arith,
          enter_call-Effect call addr value (if env.u256.is_zero value then 0 else 2300) rest,
        )

    pub op_call_code-Effect :
        (s : List ℕ)
        → 7 ≤ length s
        → m.evm.call_gas_tmp + stipend env s < bound
        → Effect 7 1
            (m.evm.call_gas_tmp + stipend env s)
            (with_stack m s)
            (op_call_code env calls (with_stack m s))
    unfolding op_call_code stipend
    op_call_code-Effect ([]) h b = absurd (omega arith)
    op_call_code-Effect (gas ∷ []) h b = absurd (omega arith)
    op_call_code-Effect (gas ∷ addr ∷ []) h b = absurd (omega arith)
    op_call_code-Effect (gas ∷ addr ∷ value ∷ rest) h b = ground (
      arith,
      enter_call-Effect call_code addr value (if env.u256.is_zero value then 0 else 2300) rest,
    )

    pub op_delegate_call-Effect :
        (s : List ℕ)
        → 6 ≤ length s
        → m.evm.call_gas_tmp + 0 < bound
        → Effect 6 1
            (m.evm.call_gas_tmp + 0)
            (with_stack m s)
            (op_delegate_call env calls (with_stack m s))
    unfolding op_delegate_call
    op_delegate_call-Effect ([]) h b = absurd (omega arith)
    op_delegate_call-Effect (gas ∷ []) h b = absurd (omega arith)
    op_delegate_call-Effect (gas ∷ addr ∷ rest) h b =
        ground (arith, enter_call-Effect delegate_call addr 0 0 rest)

    pub op_static_call-Effect :
        (s : List ℕ)
        → 6 ≤ length s
        → m.evm.call_gas_tmp + 0 < bound
        → Effect 6 1
            (m.evm.call_gas_tmp + 0)
            (with_stack m s)
            (op_static_call env calls (with_stack m s))
    unfolding op_static_call
    op_static_call-Effect ([]) h b = absurd (omega arith)
    op_static_call-Effect (gas ∷ []) h b = absurd (omega arith)
    op_static_call-Effect (gas ∷ addr ∷ rest) h b =
        ground (arith, enter_call-Effect static_call addr 0 0 rest)

    pub op_create-Effect :
        (s : List ℕ)
        → 3 ≤ length s
        → m.gas < bound
        → Effect 3 1 0 (with_stack m s) (op_create env calls (with_stack m s))
    unfolding op_create
    op_create-Effect ([]) h b = absurd (omega arith)
    op_create-Effect (value ∷ []) h b = absurd (omega arith)
    op_create-Effect (value ∷ offset ∷ []) h b = absurd (omega arith)
    op_create-Effect (value ∷ offset ∷ size ∷ rest) h b =
        Ends-bind m.gas (m.gas + 0) (omega arith) (λ _ m'. m' ≡ with_stack m rest)
          (λ _ m'. (length m'.stack + 3 ≡ suc (suc (suc (length rest))) + 1) × (m'.gas ≤ m.gas + 0))
          _ _ (get_ptr-Ends (env.u256.uint64 offset) (env.u256.uint64 size) (with_stack m rest))
          (λ input m' same.
            ground (arith, same, enter_create-Effect env bound calls serves create1 value input m'))

    pub op_create2-Effect :
        (s : List ℕ)
        → 4 ≤ length s
        → m.gas < bound
        → Effect 4 1 0 (with_stack m s) (op_create2 env calls (with_stack m s))
    unfolding op_create2
    op_create2-Effect ([]) h b = absurd (omega arith)
    op_create2-Effect (value ∷ []) h b = absurd (omega arith)
    op_create2-Effect (value ∷ offset ∷ []) h b = absurd (omega arith)
    op_create2-Effect (value ∷ offset ∷ size ∷ []) h b = absurd (omega arith)
    op_create2-Effect (value ∷ offset ∷ size ∷ salt ∷ rest) h b =
        Ends-bind m.gas (m.gas + 0) (omega arith) (λ _ m'. m' ≡ with_stack m rest)
          (λ _ m'.
            (length m'.stack + 4 ≡ suc (suc (suc (suc (length rest)))) + 1) × (m'.gas ≤ m.gas + 0))
          _ _ (get_ptr-Ends (env.u256.uint64 offset) (env.u256.uint64 size) (with_stack m rest))
          (λ input m' same.
            ground (
              arith,
              same,
              enter_create-Effect env bound calls serves (create2 salt) value input m',
            ))
