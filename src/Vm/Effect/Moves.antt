-- ===== src/Vm/Effect/Moves.antt =====
-- The effect of the instructions that touch the memory, the storage, the stack or the counter.
use taraxa_evm.Prelude.{
  ℕ, zero, suc, ◌+◌, ◌-◌, ◌≤◌, ◌≡◌, Bytes, List, [], ◌∷◌, length, arith, get_elem?-lt, length-set,
  if◌then◌else◌, Option-cases, inl, inr,
}
use taraxa_evm.Vm.Env.{Env, max_uint64}
use taraxa_evm.Vm.Common.{get_data}
use taraxa_evm.Vm.Machine.{Machine}
use taraxa_evm.Vm.Effect.Rules.{Effect, Ends-bind, with_stack, get_ptr-Ends, mem_set-Keeps}
use taraxa_evm.Vm.Ops.Environment.{
  copy_data, op_call_data_copy, op_code_copy, op_ext_code_copy, op_return_data_copy,
}
use taraxa_evm.Vm.Ops.Storage.{
  op_pop, op_mload, op_mstore, op_mstore8, op_sload, op_sstore, op_tload, op_tstore, op_mcopy,
}
use taraxa_evm.Vm.Ops.Control.{
  op_jump, op_jumpi, op_suicide, op_return, op_revert, make_push, make_dup, make_swap, make_log,
  pop_topics,
}

module _ (env : Env) (m : Machine (env.World)) where
  copy_data-Effect :
      (source : Machine (env.World) → Bytes) (mem_offset data_offset len : ℕ) (s : List ℕ)
      → Effect 0 0 0
          (with_stack m s)
          (copy_data env source mem_offset data_offset len (with_stack m s))
  unfolding copy_data
  copy_data-Effect source mem_offset data_offset len s =
      let start =
        if env.u256.is_uint64 data_offset then env.u256.uint64 data_offset else max_uint64 in
      elim (Option-cases (get_data (source (with_stack m s)) start (env.u256.uint64 len))) [
        | inl none_there ↦ rw none_there (ground arith)
        | inr (got, there) ↦ rw there (
            ground (
              arith,
              mem_set-Keeps (env.u256.uint64 mem_offset) (env.u256.uint64 len) got (with_stack m s),
            ))
      ]

  pub op_call_data_copy-Effect :
      (s : List ℕ)
      → 3 ≤ length s
      → Effect 3 0 0 (with_stack m s) (op_call_data_copy env (with_stack m s))
  unfolding op_call_data_copy
  op_call_data_copy-Effect [] h = absurd (omega arith)
  op_call_data_copy-Effect (x ∷ []) h = absurd (omega arith)
  op_call_data_copy-Effect (x ∷ y ∷ []) h = absurd (omega arith)
  op_call_data_copy-Effect (x ∷ y ∷ z ∷ s) h =
      ground (arith, copy_data-Effect (λ m'. m'.contract.frame.input) x y z s)

  pub op_code_copy-Effect :
      (s : List ℕ)
      → 3 ≤ length s
      → Effect 3 0 0 (with_stack m s) (op_code_copy env (with_stack m s))
  unfolding op_code_copy
  op_code_copy-Effect [] h = absurd (omega arith)
  op_code_copy-Effect (x ∷ []) h = absurd (omega arith)
  op_code_copy-Effect (x ∷ y ∷ []) h = absurd (omega arith)
  op_code_copy-Effect (x ∷ y ∷ z ∷ s) h =
      ground (arith, copy_data-Effect (λ m'. m'.contract.code) x y z s)

  pub op_ext_code_copy-Effect :
      (s : List ℕ)
      → 4 ≤ length s
      → Effect 4 0 0 (with_stack m s) (op_ext_code_copy env (with_stack m s))
  unfolding op_ext_code_copy
  op_ext_code_copy-Effect [] h = absurd (omega arith)
  op_ext_code_copy-Effect (a ∷ []) h = absurd (omega arith)
  op_ext_code_copy-Effect (a ∷ x ∷ []) h = absurd (omega arith)
  op_ext_code_copy-Effect (a ∷ x ∷ y ∷ []) h = absurd (omega arith)
  op_ext_code_copy-Effect (a ∷ x ∷ y ∷ z ∷ s) h = ground (
    arith,
    copy_data-Effect (λ m'. env.state_ops.get_code (env.u256.bytes20 a) m'.evm.state) x y z s,
  )

  pub op_return_data_copy-Effect :
      (s : List ℕ)
      → 3 ≤ length s
      → Effect 3 0 0 (with_stack m s) (op_return_data_copy env (with_stack m s))
  unfolding op_return_data_copy
  op_return_data_copy-Effect [] h = absurd (omega arith)
  op_return_data_copy-Effect (x ∷ []) h = absurd (omega arith)
  op_return_data_copy-Effect (x ∷ y ∷ []) h = absurd (omega arith)
  op_return_data_copy-Effect (x ∷ y ∷ z ∷ s) h = ground arith

  pub op_pop-Effect :
      (s : List ℕ) → 1 ≤ length s → Effect 1 0 0 (with_stack m s) (op_pop env (with_stack m s))
  unfolding op_pop
  op_pop-Effect [] h = absurd (omega arith)
  op_pop-Effect (x ∷ s) h = omega arith

  pub op_mload-Effect :
      (s : List ℕ) → 1 ≤ length s → Effect 1 1 0 (with_stack m s) (op_mload env (with_stack m s))
  unfolding op_mload
  op_mload-Effect [] h = absurd (omega arith)
  op_mload-Effect (x ∷ s) h = ground arith

  pub op_mstore-Effect :
      (s : List ℕ) → 2 ≤ length s → Effect 2 0 0 (with_stack m s) (op_mstore env (with_stack m s))
  unfolding op_mstore
  op_mstore-Effect [] h = absurd (omega arith)
  op_mstore-Effect (x ∷ []) h = absurd (omega arith)
  op_mstore-Effect (x ∷ y ∷ s) h = ground arith

  pub op_mstore8-Effect :
      (s : List ℕ) → 2 ≤ length s → Effect 2 0 0 (with_stack m s) (op_mstore8 env (with_stack m s))
  unfolding op_mstore8
  op_mstore8-Effect [] h = absurd (omega arith)
  op_mstore8-Effect (x ∷ []) h = absurd (omega arith)
  op_mstore8-Effect (x ∷ y ∷ s) h = ground arith

  pub op_sload-Effect :
      (s : List ℕ) → 1 ≤ length s → Effect 1 1 0 (with_stack m s) (op_sload env (with_stack m s))
  unfolding op_sload
  op_sload-Effect [] h = absurd (omega arith)
  op_sload-Effect (x ∷ s) h = omega arith

  pub op_sstore-Effect :
      (s : List ℕ) → 2 ≤ length s → Effect 2 0 0 (with_stack m s) (op_sstore env (with_stack m s))
  unfolding op_sstore
  op_sstore-Effect [] h = absurd (omega arith)
  op_sstore-Effect (x ∷ []) h = absurd (omega arith)
  op_sstore-Effect (x ∷ y ∷ s) h = omega arith

  pub op_tload-Effect :
      (s : List ℕ) → 1 ≤ length s → Effect 1 1 0 (with_stack m s) (op_tload env (with_stack m s))
  unfolding op_tload
  op_tload-Effect [] h = absurd (omega arith)
  op_tload-Effect (x ∷ s) h = omega arith

  pub op_tstore-Effect :
      (s : List ℕ) → 2 ≤ length s → Effect 2 0 0 (with_stack m s) (op_tstore env (with_stack m s))
  unfolding op_tstore
  op_tstore-Effect [] h = absurd (omega arith)
  op_tstore-Effect (x ∷ []) h = absurd (omega arith)
  op_tstore-Effect (x ∷ y ∷ s) h = ground arith

  pub op_mcopy-Effect :
      (s : List ℕ) → 3 ≤ length s → Effect 3 0 0 (with_stack m s) (op_mcopy env (with_stack m s))
  unfolding op_mcopy
  op_mcopy-Effect [] h = absurd (omega arith)
  op_mcopy-Effect (x ∷ []) h = absurd (omega arith)
  op_mcopy-Effect (x ∷ y ∷ []) h = absurd (omega arith)
  op_mcopy-Effect (x ∷ y ∷ z ∷ s) h = ground arith

  pub op_jump-Effect :
      (s : List ℕ) → 1 ≤ length s → Effect 1 0 0 (with_stack m s) (op_jump env (with_stack m s))
  unfolding op_jump
  op_jump-Effect [] h = absurd (omega arith)
  op_jump-Effect (x ∷ s) h = ground arith

  pub op_jumpi-Effect :
      (s : List ℕ) → 2 ≤ length s → Effect 2 0 0 (with_stack m s) (op_jumpi env (with_stack m s))
  unfolding op_jumpi
  op_jumpi-Effect [] h = absurd (omega arith)
  op_jumpi-Effect (x ∷ []) h = absurd (omega arith)
  op_jumpi-Effect (x ∷ y ∷ s) h = ground arith

  pub op_suicide-Effect :
      (s : List ℕ) → 1 ≤ length s → Effect 1 0 0 (with_stack m s) (op_suicide env (with_stack m s))
  unfolding op_suicide
  op_suicide-Effect [] h = absurd (omega arith)
  op_suicide-Effect (x ∷ s) h = omega arith

  pub op_return-Effect :
      (s : List ℕ) → 2 ≤ length s → Effect 2 0 0 (with_stack m s) (op_return env (with_stack m s))
  unfolding op_return
  op_return-Effect [] h = absurd (omega arith)
  op_return-Effect (x ∷ []) h = absurd (omega arith)
  op_return-Effect (x ∷ y ∷ s) h = ground arith

  pub op_revert-Effect :
      (s : List ℕ) → 2 ≤ length s → Effect 2 0 0 (with_stack m s) (op_revert env (with_stack m s))
  unfolding op_revert
  op_revert-Effect [] h = absurd (omega arith)
  op_revert-Effect (x ∷ []) h = absurd (omega arith)
  op_revert-Effect (x ∷ y ∷ s) h = ground arith

  pub make_push-Effect :
      (n : ℕ) (s : List ℕ) → Effect 0 1 0 (with_stack m s) (make_push env n (with_stack m s))
  unfolding make_push
  make_push-Effect n s = omega arith

  pub make_dup-Effect :
      (n : ℕ) (s : List ℕ)
      → suc n ≤ length s
      → Effect (suc n) (suc n + 1) 0 (with_stack m s) (make_dup env (suc n) (with_stack m s))
  unfolding make_dup
  make_dup-Effect n s h = ground (arith, get_elem?-lt s (suc n - 1))

  pub make_swap-Effect :
      (n : ℕ) (s : List ℕ)
      → suc n ≤ length s
      → Effect (n + 1) (n + 1) 0 (with_stack m s) (make_swap env n (with_stack m s))
  unfolding make_swap
  make_swap-Effect n [] h = absurd (omega arith)
  make_swap-Effect n (x ∷ s) h = grind (arith, get_elem?-lt (x ∷ s) (n + 1 - 1), length-set)

  pop_topics-Effect :
      (n : ℕ) (s : List ℕ)
      → n ≤ length s
      → Effect n 0 0 (with_stack m s) (pop_topics env n (with_stack m s))
  unfolding pop_topics
  pop_topics-Effect zero s h = omega arith
  pop_topics-Effect (suc n) [] h = absurd (omega arith)
  pop_topics-Effect (suc n) (x ∷ s) h = ground (arith, pop_topics-Effect n s)

  pub make_log-Effect :
      (n : ℕ) (s : List ℕ)
      → n + 2 ≤ length s
      → Effect (n + 2) 0 0 (with_stack m s) (make_log env n (with_stack m s))
  unfolding make_log
  make_log-Effect n [] h = absurd (omega arith)
  make_log-Effect n (x ∷ []) h = absurd (omega arith)
  make_log-Effect n (x ∷ y ∷ s) h =
      Ends-bind (m.gas + 0) (m.gas + 0) (omega arith)
        (λ _ m'. (length m'.stack + n ≡ length s + 0) × (m'.gas ≤ m.gas + 0))
        (λ _ m'. (length m'.stack + (n + 2) ≡ suc (suc (length s)) + 0) × (m'.gas ≤ m.gas + 0)) _ _
        (pop_topics-Effect n s (omega arith))
        (λ topics m' e.
          Ends-bind m'.gas (m.gas + 0) (omega (arith, e)) (λ _ m''. m'' ≡ m')
            (λ _ m''.
              (length m''.stack + (n + 2) ≡ suc (suc (length s)) + 0) × (m''.gas ≤ m.gas + 0))
            _ _ (get_ptr-Ends (env.u256.uint64 x) (env.u256.uint64 y) m')
            (λ bytes m'' same. ground arith))
