-- ===== src/Vm/Stack.antt =====
-- The operand stack (core/vm/stack.go). Go's slice has the top last; here it is first.
use taraxa_evm.Prelude.{
  ℕ, ◌+◌, ◌-◌, Option, none, some, List, [], ◌∷◌, ⊤, length, get_elem?, set, ltb, if◌then◌else◌,
}
use taraxa_evm.Vm.Env.{Error, stack_underflow, stack_limit_reached}
use taraxa_evm.Vm.Machine.{M, ok, fault, stack_index, or_panic, ◌>>=◌}

module _ {W : Type 0} where
  unfoldable pub push : ℕ → M W ⊤
  push d m = ok tt (record m { stack = d ∷ m.stack })

  abbrev pop_from : List ℕ → M W ℕ
  pop_from [] m = fault stack_index
  pop_from (x ∷ xs) m = ok x (record m { stack = xs })

  unfoldable pub pop : M W ℕ
  pop m = pop_from m.stack m

  -- `Back(n)`: the n-th item from the top
  unfoldable pub back : ℕ → M W ℕ
  back n m = or_panic stack_index (get_elem? m.stack n) m

  unfoldable pub peek : M W ℕ
  unfolding back
  peek = back 0

  -- An assignment through the pointer that `peek` returns.
  abbrev set_top_of : List ℕ → ℕ → M W ⊤
  set_top_of [] v m = fault stack_index
  set_top_of (x ∷ xs) v m = ok tt (record m { stack = v ∷ xs })

  unfoldable pub set_peek : ℕ → M W ⊤
  set_peek v m = set_top_of m.stack v m

  -- `swap(n)`: exchanges the top with the n-th item, counted from 1
  unfoldable pub swap : ℕ → M W ⊤
  unfolding back
  swap n = do
    x ← back (n - 1)
    top ← back 0
    λ m. ok tt (record m { stack = set (set m.stack (n - 1) top) 0 x })

  unfoldable pub dup : ℕ → M W ⊤
  unfolding back push
  dup n = do x ← back (n - 1); push x

abbrev pub stack_limit : ℕ
stack_limit = 1024

-- `makeStackFunc`, whose first test is `require(pop)`
unfoldable pub make_stack_func : ℕ → ℕ → List ℕ → Option Error
make_stack_func popped pushed stack =
    if ltb (length stack) popped
    then some (stack_underflow (length stack) popped)
    else if ltb stack_limit (length stack + pushed - popped)
    then some (stack_limit_reached (length stack))
    else none

unfoldable pub make_dup_stack_func : ℕ → List ℕ → Option Error
unfolding make_stack_func
make_dup_stack_func n = make_stack_func n (n + 1)

unfoldable pub make_swap_stack_func : ℕ → List ℕ → Option Error
unfolding make_stack_func
make_swap_stack_func n = make_stack_func n n
