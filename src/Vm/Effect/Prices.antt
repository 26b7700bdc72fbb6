-- ===== src/Vm/Effect/Prices.antt =====
-- What the gas functions charge at least, and that they leave the stack and the gas alone.
use taraxa_evm.Prelude.{
  ap, ℕ, suc, ◌+◌, ◌%◌, ◌≤◌, ◌<◌, ◌≡◌, refl, List, [], ◌∷◌, length, some, arith, true, not,
  if◌then◌else◌, Bool, false, get_elem?-lt,
}
use taraxa_evm.Vm.Env.{Env, Error, gas_uint_overflow, u64_mod, max_uint64}
use taraxa_evm.Vm.Machine.{Machine, M, raise_if, Outcome, ◌>>=◌}
use taraxa_evm.Vm.Effect.Rules.{Ends, Ends-bind, with_stack}
use taraxa_evm.Vm.Stack.{back}
use taraxa_evm.Vm.Ops.Calls.{reverted}
use taraxa_evm.Vm.Effect.Nested.{stipend}
use taraxa_evm.Vm.Gas.{
  memory_gas_cost, add_gas, word64, gas_mload, gas_mstore, gas_mstore8, gas_create, gas_create2,
  gas_ext_code_copy, gas_call_data_copy, gas_code_copy, gas_return_data_copy, gas_mcopy, gas_exp,
  gas_suicide, gas_return, gas_revert, make_gas_log, gas_delegate_call, gas_static_call,
  gas_call_code, add_word_gas, memory_copier_gas, sstore_gas, set_aside, gas_sstore, gas_keccak256,
  gas_call,
}

-- The cost is at least `least`.
abbrev pub Priced : {W : Type 0} (least : ℕ) → Machine W → Outcome W ℕ → Type 0
Priced least m = Ends m.gas (λ cost m'. (m'.stack ≡ m.stack) × (m'.gas ≡ m.gas) × (least ≤ cost))

-- The cost covers the gas set aside for the callee and `extra` more.
abbrev pub SetsAside : {W : Type 0} (extra : ℕ) → Machine W → Outcome W ℕ → Type 0
SetsAside extra m =
    Ends m.gas
      (λ cost m'. (m'.stack ≡ m.stack) × (m'.gas ≡ m.gas) × (m'.evm.call_gas_tmp + extra ≤ cost))

module _ {W : Type 0} where
  pub memory_gas_cost-Ends :
      (size : ℕ) (m : Machine W)
      → Ends m.gas
          (λ cost m'. (m'.stack ≡ m.stack) × (m'.gas ≡ m.gas) × (cost ≤ max_uint64))
          (memory_gas_cost size m)
  unfolding memory_gas_cost
  memory_gas_cost-Ends size m = ground arith

  pub raise_if-Ends :
      (b : Bool) (e : Error) (m : Machine W)
      → reverted (some e) ≡ false
      → Ends m.gas (λ _ m'. m' ≡ m) (raise_if b e m)
  raise_if-Ends true e m h = (h, omega arith)
  raise_if-Ends false e m h = refl

  -- What follows the price of the memory.
  after_memory_within :
      (most : ℕ) (Q : ℕ → Machine W → Type 0) (k : ℕ → M W ℕ) (size : ℕ) (m : Machine W)
      → m.gas ≤ most
      → ((cost : ℕ) (m' : Machine W)
          → m'.stack ≡ m.stack
          → m'.gas ≡ m.gas
          → cost ≤ max_uint64
          → Ends most Q (k cost m'))
      → Ends most Q ((memory_gas_cost size >>= k) m)
  after_memory_within most Q k size m le next =
      Ends-bind m.gas most le
        (λ cost m'. (m'.stack ≡ m.stack) × (m'.gas ≡ m.gas) × (cost ≤ max_uint64)) Q
        (memory_gas_cost size m) k (memory_gas_cost-Ends size m)
        (λ cost m' (s, g, c). next cost m' s g c)

  after_memory :
      (Q : ℕ → Machine W → Type 0) (k : ℕ → M W ℕ) (size : ℕ) (m : Machine W)
      → ((cost : ℕ) (m' : Machine W)
          → m'.stack ≡ m.stack
          → m'.gas ≡ m.gas
          → cost ≤ max_uint64
          → Ends m.gas Q (k cost m'))
      → Ends m.gas Q ((memory_gas_cost size >>= k) m)
  after_memory Q k size m next = after_memory_within m.gas Q k size m (omega arith) next

module _ (env : Env) where
  pub back-Ends :
      (n : ℕ) (m : Machine (env.World))
      → n < length m.stack
      → Ends m.gas (λ _ m'. m' ≡ m) (back n m)
  unfolding back
  back-Ends n m h = ground (arith, get_elem?-lt m.stack n)

  word64-Ends :
      (n : ℕ) (m : Machine (env.World))
      → n < length m.stack
      → Ends m.gas (λ _ m'. m' ≡ m) (word64 env n m)
  unfolding word64 back
  word64-Ends n m h =
      Ends-bind m.gas m.gas (omega arith) (λ _ m'. m' ≡ m) (λ _ m'. m' ≡ m) (back n m) _
        (back-Ends n m h)
        (λ x m' same.
          Ends-bind m'.gas m.gas (omega (arith, ap (λ n. n.gas) same)) (λ _ m''. m'' ≡ m')
            (λ _ m''. m'' ≡ m) (raise_if (not (env.u256.is_uint64 x)) gas_uint_overflow m') _
            (raise_if-Ends (not (env.u256.is_uint64 x)) gas_uint_overflow m' refl)
            (λ _ m'' same'. ground (arith, same, same')))

  add_word_gas-Priced :
      (n k gas : ℕ) (m : Machine (env.World))
      → n < length m.stack
      → gas ≤ max_uint64
      → Priced gas m (add_word_gas env n k gas m)
  unfolding add_word_gas
  add_word_gas-Priced n k gas m h small =
      Ends-bind m.gas m.gas (omega arith) (λ _ m'. m' ≡ m)
        (λ cost m'. (m'.stack ≡ m.stack) × (m'.gas ≡ m.gas) × (gas ≤ cost)) (word64 env n m) _
        (word64-Ends n m h) (λ words m' same. ground arith)

module _ (env : Env) (size : ℕ) (m : Machine (env.World)) where
  memory_copier_gas-Priced :
      (n : ℕ) → n < length m.stack → Priced 3 m (memory_copier_gas env n 3 size m)
  unfolding memory_copier_gas
  memory_copier_gas-Priced n h =
      after_memory _ _ size m
        (λ cost m' s g c. ground (arith, add_word_gas-Priced env n 3 ((cost + 3) % u64_mod) m'))

  pub gas_keccak256-Priced : 2 ≤ length m.stack → Priced 6 m (gas_keccak256 env size m)
  unfolding gas_keccak256
  gas_keccak256-Priced h =
      after_memory _ _ size m
        (λ cost m' s g c. ground (arith, add_word_gas-Priced env 1 6 ((cost + 6) % u64_mod) m'))

  sstore_gas-Priced :
      (original current new : ℕ) → Priced 200 m (sstore_gas env original current new m)
  unfolding sstore_gas
  sstore_gas-Priced original current new = ground arith

  pub gas_sstore-Priced : 2 ≤ length m.stack → Priced 200 m (gas_sstore env size m)
  unfolding gas_sstore
  gas_sstore-Priced h =
      grind (arith, sstore_gas-Priced, get_elem?-lt m.stack 0, get_elem?-lt m.stack 1)

  set_aside-SetsAside :
      (gas : ℕ) → gas ≤ max_uint64 → 1 ≤ length m.stack → SetsAside gas m (set_aside env gas m)
  unfolding set_aside
  set_aside-SetsAside gas small h = ground (arith, get_elem?-lt m.stack 0)

module _ (env : Env) (size : ℕ) (m : Machine (env.World)) where
  -- The price of an access to the memory is `least` on top of that of the memory.
  after_memory_add :
      (least : ℕ)
      → 1 ≤ least
      → Priced least m ((memory_gas_cost size >>= λ gas. add_gas gas least) m)
  after_memory_add least h = after_memory _ _ size m (λ cost m' s g c. ground arith)

  pub gas_mload-Priced : Priced 3 m (gas_mload env size m)
  unfolding gas_mload
  gas_mload-Priced = after_memory_add 3 (omega arith)

  pub gas_mstore-Priced : Priced 3 m (gas_mstore env size m)
  unfolding gas_mstore
  gas_mstore-Priced = after_memory_add 3 (omega arith)

  pub gas_mstore8-Priced : Priced 3 m (gas_mstore8 env size m)
  unfolding gas_mstore8
  gas_mstore8-Priced = after_memory_add 3 (omega arith)

  pub gas_create-Priced : Priced 32000 m (gas_create env size m)
  unfolding gas_create
  gas_create-Priced = after_memory_add 32000 (omega arith)

  pub gas_create2-Priced : 4 ≤ length m.stack → Priced 32000 m (gas_create2 env size m)
  unfolding gas_create2
  gas_create2-Priced h =
      after_memory _ _ size m
        (λ cost m' s g c. ground (arith, add_word_gas-Priced env 2 6 ((cost + 32000) % u64_mod) m'))

  pub gas_ext_code_copy-Priced : 4 ≤ length m.stack → Priced 700 m (gas_ext_code_copy env size m)
  unfolding gas_ext_code_copy
  gas_ext_code_copy-Priced h =
      after_memory _ _ size m
        (λ cost m' s g c. ground (arith, add_word_gas-Priced env 3 3 ((cost + 700) % u64_mod) m'))

  pub gas_call_data_copy-Priced : 3 ≤ length m.stack → Priced 3 m (gas_call_data_copy env size m)
  unfolding gas_call_data_copy
  gas_call_data_copy-Priced h = memory_copier_gas-Priced env size m 2 (omega arith)

  pub gas_code_copy-Priced : 3 ≤ length m.stack → Priced 3 m (gas_code_copy env size m)
  unfolding gas_code_copy
  gas_code_copy-Priced h = memory_copier_gas-Priced env size m 2 (omega arith)

  pub gas_return_data_copy-Priced :
      3 ≤ length m.stack → Priced 3 m (gas_return_data_copy env size m)
  unfolding gas_return_data_copy
  gas_return_data_copy-Priced h = memory_copier_gas-Priced env size m 2 (omega arith)

  pub gas_mcopy-Priced : 3 ≤ length m.stack → Priced 3 m (gas_mcopy env size m)
  unfolding gas_mcopy
  gas_mcopy-Priced h = memory_copier_gas-Priced env size m 2 (omega arith)

  pub gas_exp-Priced : 2 ≤ length m.stack → Priced 10 m (gas_exp env size m)
  unfolding gas_exp
  gas_exp-Priced h = ground (arith, get_elem?-lt m.stack 1)

  pub gas_suicide-Priced : 1 ≤ length m.stack → Priced 5000 m (gas_suicide env size m)
  unfolding gas_suicide
  gas_suicide-Priced h = ground (arith, get_elem?-lt m.stack 0)

  pub gas_return-Priced : Priced 0 m (gas_return env size m)
  unfolding gas_return
  gas_return-Priced = ground (arith, memory_gas_cost-Ends size m)

  pub gas_revert-Priced : Priced 0 m (gas_revert env size m)
  unfolding gas_revert
  gas_revert-Priced = ground (arith, memory_gas_cost-Ends size m)

  pub make_gas_log-Priced : (n : ℕ) → 2 ≤ length m.stack → Priced 375 m (make_gas_log env n size m)
  unfolding make_gas_log
  make_gas_log-Priced n h =
      Ends-bind m.gas m.gas (omega arith) (λ _ m'. m' ≡ m)
        (λ cost m'. (m'.stack ≡ m.stack) × (m'.gas ≡ m.gas) × (375 ≤ cost)) (word64 env 1 m) _
        (word64-Ends env 1 m h)
        (λ requested m' same.
          after_memory_within m.gas _ _ size m' (omega (arith, ap (λ n. n.gas) same))
            (λ cost m'' s g c. ground arith))

  pub gas_delegate_call-SetsAside :
      1 ≤ length m.stack → SetsAside 700 m (gas_delegate_call env size m)
  unfolding gas_delegate_call
  gas_delegate_call-SetsAside h =
      after_memory _ _ size m
        (λ cost m' s g c. ground (arith, set_aside-SetsAside env size m' ((cost + 700) % u64_mod)))

  pub gas_static_call-SetsAside : 1 ≤ length m.stack → SetsAside 700 m (gas_static_call env size m)
  unfolding gas_static_call
  gas_static_call-SetsAside h =
      after_memory _ _ size m
        (λ cost m' s g c. ground (arith, set_aside-SetsAside env size m' ((cost + 700) % u64_mod)))

  charge_call :
      (base extra cost : ℕ)
      → extra ≤ base
      → base ≤ max_uint64
      → 1 ≤ length m.stack
      → SetsAside extra m ((add_gas base cost >>= set_aside env) m)
  charge_call base extra cost e b h =
      ground (arith, set_aside-SetsAside env size m ((base + cost) % u64_mod))

module _ (env : Env) (size : ℕ) (m : Machine (env.World)) where
  pub gas_call-SetsAside :
      (s : List ℕ)
      → 7 ≤ length s
      → SetsAside (suc (stipend env s)) (with_stack m s) (gas_call env size (with_stack m s))
  unfolding gas_call stipend back
  gas_call-SetsAside [] h = absurd (omega arith)
  gas_call-SetsAside (a ∷ []) h = absurd (omega arith)
  gas_call-SetsAside (a ∷ b ∷ []) h = absurd (omega arith)
  gas_call-SetsAside (a ∷ b ∷ v ∷ s) h =
      after_memory _ _ size (with_stack m (a ∷ b ∷ v ∷ s)) (λ cost m' st g c.
        grind
          (arith, charge_call env size m' _ (suc (if env.u256.is_zero v then 0 else 2300)) cost))

  pub gas_call_code-SetsAside :
      (s : List ℕ)
      → 7 ≤ length s
      → SetsAside (suc (stipend env s)) (with_stack m s) (gas_call_code env size (with_stack m s))
  unfolding gas_call_code stipend back
  gas_call_code-SetsAside [] h = absurd (omega arith)
  gas_call_code-SetsAside (a ∷ []) h = absurd (omega arith)
  gas_call_code-SetsAside (a ∷ b ∷ []) h = absurd (omega arith)
  gas_call_code-SetsAside (a ∷ b ∷ v ∷ s) h =
      after_memory _ _ size (with_stack m (a ∷ b ∷ v ∷ s)) (λ cost m' st g c. grind (
        arith,
        charge_call env size m' (if env.u256.is_zero v then 700 else 9700)
            (suc (if env.u256.is_zero v then 0 else 2300)) cost,
      ))
