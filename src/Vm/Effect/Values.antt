-- ===== src/Vm/Effect/Values.antt =====
-- The effect of the instructions that only compute a value.
use taraxa_evm.Prelude.{ℕ, ◌≤◌, List, [], ◌∷◌, length, arith, Option-cases, inl, inr}
use taraxa_evm.Vm.Env.{Env, Address}
use taraxa_evm.Vm.Machine.{Machine}
use taraxa_evm.Vm.Common.{get_data}
use taraxa_evm.Vm.Effect.Rules.{Effect, with_stack, get_ptr-Ends}
use taraxa_evm.Vm.Ops.Arithmetic.{binary, unary, ternary, op_keccak256}
use taraxa_evm.Vm.Ops.Environment.{
  push_of, replace_account, op_call_data_load, op_ext_code_hash, op_blockhash,
}

module _ {W : Type 0} (m : Machine W) where
  pub unary-Effect :
      (f : ℕ → ℕ) (s : List ℕ)
      → 1 ≤ length s
      → Effect 1 1 0 (with_stack m s) (unary f (with_stack m s))
  unfolding unary
  unary-Effect f [] h = absurd (omega arith)
  unary-Effect f (x ∷ s) h = omega arith

  pub binary-Effect :
      (f : ℕ → ℕ → ℕ) (s : List ℕ)
      → 2 ≤ length s
      → Effect 2 1 0 (with_stack m s) (binary f (with_stack m s))
  unfolding binary
  binary-Effect f [] h = absurd (omega arith)
  binary-Effect f (x ∷ []) h = absurd (omega arith)
  binary-Effect f (x ∷ y ∷ s) h = omega arith

  pub ternary-Effect :
      (f : ℕ → ℕ → ℕ → ℕ) (s : List ℕ)
      → 3 ≤ length s
      → Effect 3 1 0 (with_stack m s) (ternary f (with_stack m s))
  unfolding ternary
  ternary-Effect f [] h = absurd (omega arith)
  ternary-Effect f (x ∷ []) h = absurd (omega arith)
  ternary-Effect f (x ∷ y ∷ []) h = absurd (omega arith)
  ternary-Effect f (x ∷ y ∷ z ∷ s) h = omega arith

  pub push_of-Effect :
      (f : Machine W → ℕ) (s : List ℕ) → Effect 0 1 0 (with_stack m s) (push_of f (with_stack m s))
  unfolding push_of
  push_of-Effect f s = omega arith

module _ (env : Env) (m : Machine (env.World)) where
  pub replace_account-Effect :
      (f : Address → env.World → ℕ) (s : List ℕ)
      → 1 ≤ length s
      → Effect 1 1 0 (with_stack m s) (replace_account env f (with_stack m s))
  unfolding replace_account
  replace_account-Effect f [] h = absurd (omega arith)
  replace_account-Effect f (x ∷ s) h = omega arith

  pub op_keccak256-Effect :
      (s : List ℕ)
      → 2 ≤ length s
      → Effect 2 1 0 (with_stack m s) (op_keccak256 env (with_stack m s))
  unfolding op_keccak256
  op_keccak256-Effect [] h = absurd (omega arith)
  op_keccak256-Effect (x ∷ []) h = absurd (omega arith)
  op_keccak256-Effect (x ∷ y ∷ s) h =
      ground (arith, get_ptr-Ends (env.u256.uint64 x) (env.u256.uint64 y) (with_stack m (y ∷ s)))

  pub op_call_data_load-Effect :
      (s : List ℕ)
      → 1 ≤ length s
      → Effect 1 1 0 (with_stack m s) (op_call_data_load env (with_stack m s))
  unfolding op_call_data_load
  op_call_data_load-Effect [] h = absurd (omega arith)
  op_call_data_load-Effect (x ∷ s) h =
      elim (Option-cases (get_data m.contract.frame.input (env.u256.uint64 x) 32)) [
        | inl none_there ↦ rw none_there (ground arith)
        | inr (got, there) ↦ rw there (ground arith)
      ]

  pub op_ext_code_hash-Effect :
      (s : List ℕ)
      → 1 ≤ length s
      → Effect 1 1 0 (with_stack m s) (op_ext_code_hash env (with_stack m s))
  unfolding op_ext_code_hash
  op_ext_code_hash-Effect [] h = absurd (omega arith)
  op_ext_code_hash-Effect (x ∷ s) h = ground arith

  pub op_blockhash-Effect :
      (s : List ℕ)
      → 1 ≤ length s
      → Effect 1 1 0 (with_stack m s) (op_blockhash env (with_stack m s))
  unfolding op_blockhash
  op_blockhash-Effect [] h = absurd (omega arith)
  op_blockhash-Effect (x ∷ s) h = omega arith
