-- ===== src/Vm/Ops/Arithmetic.antt =====
-- Arithmetic, comparison, bits and hashing (core/vm/instructions.go).
use taraxa_evm.Prelude.{ℕ, Bool, Bytes, [], ltb, ◌==◌, if◌then◌else◌}
use taraxa_evm.Vm.Env.{Env}
use taraxa_evm.Vm.Machine.{M, pure, ◌>>=◌, ◌>>◌}
use taraxa_evm.Vm.Stack.{pop, peek, set_peek}
use taraxa_evm.Vm.Memory.{get_ptr}

module _ {W : Type 0} where
  -- One operand is replaced by a value.
  unfoldable pub unary : (ℕ → ℕ) → M W Bytes
  unfolding peek set_peek
  unary f = do x ← peek; set_peek (f x); pure []

  -- `x, y := stack.pop(), stack.peek()`, and `y` is replaced by a value.
  unfoldable pub binary : (ℕ → ℕ → ℕ) → M W Bytes
  unfolding pop peek set_peek
  binary f = do x ← pop; y ← peek; set_peek (f x y); pure []

  -- `x, y, z := stack.pop(), stack.pop(), stack.peek()`, and `z` is replaced by a value.
  unfoldable pub ternary : (ℕ → ℕ → ℕ → ℕ) → M W Bytes
  unfolding pop peek set_peek
  ternary f = do x ← pop; y ← pop; z ← peek; set_peek (f x y z); pure []

-- `SetOne` or `Clear`
abbrev pub truth : Bool → ℕ
truth b = if b then 1 else 0

module _ (env : Env) where
  open env use {World as W, u256 as u, keccak256}

  unfoldable pub op_add : M W Bytes
  unfolding binary
  op_add = binary u.add

  unfoldable pub op_sub : M W Bytes
  unfolding binary
  op_sub = binary u.sub

  unfoldable pub op_mul : M W Bytes
  unfolding binary
  op_mul = binary u.mul

  unfoldable pub op_div : M W Bytes
  unfolding binary
  op_div = binary u.div

  unfoldable pub op_sdiv : M W Bytes
  unfolding binary
  op_sdiv = binary u.sdiv

  unfoldable pub op_mod : M W Bytes
  unfolding binary
  op_mod = binary u.umod

  unfoldable pub op_smod : M W Bytes
  unfolding binary
  op_smod = binary u.smod

  unfoldable pub op_exp : M W Bytes
  unfolding binary
  op_exp = binary u.exp

  unfoldable pub op_sign_extend : M W Bytes
  unfolding binary
  op_sign_extend = binary (λ back num. u.extend_sign num back)

  unfoldable pub op_not : M W Bytes
  unfolding unary
  op_not = unary u.bnot

  unfoldable pub op_lt : M W Bytes
  unfolding binary
  op_lt = binary (λ x y. truth (u.lt x y))

  unfoldable pub op_gt : M W Bytes
  unfolding binary
  op_gt = binary (λ x y. truth (u.lt y x))

  unfoldable pub op_slt : M W Bytes
  unfolding binary
  op_slt = binary (λ x y. truth (u.slt x y))

  unfoldable pub op_sgt : M W Bytes
  unfolding binary
  op_sgt = binary (λ x y. truth (u.slt y x))

  unfoldable pub op_eq : M W Bytes
  unfolding binary
  op_eq = binary (λ x y. truth (x == y))

  unfoldable pub op_iszero : M W Bytes
  unfolding unary
  op_iszero = unary (λ x. truth (u.is_zero x))

  unfoldable pub op_and : M W Bytes
  unfolding binary
  op_and = binary u.band

  unfoldable pub op_or : M W Bytes
  unfolding binary
  op_or = binary u.bor

  unfoldable pub op_xor : M W Bytes
  unfolding binary
  op_xor = binary u.bxor

  unfoldable pub op_byte : M W Bytes
  unfolding binary
  op_byte = binary (λ th val. u.byte val th)

  unfoldable pub op_addmod : M W Bytes
  unfolding ternary
  op_addmod = ternary (λ x y z. if u.is_zero z then 0 else u.add_mod x y z)

  unfoldable pub op_mulmod : M W Bytes
  unfolding ternary
  op_mulmod = ternary u.mul_mod

  unfoldable pub op_shl : M W Bytes
  unfolding binary
  op_shl = binary (λ shift value. if ltb shift 256 then u.lsh value (u.uint64 shift) else 0)

  unfoldable pub op_shr : M W Bytes
  unfolding binary
  op_shr = binary (λ shift value. if ltb shift 256 then u.rsh value (u.uint64 shift) else 0)

  unfoldable pub op_sar : M W Bytes
  unfolding binary
  op_sar = binary λ shift value.
      if ltb 256 shift
      then if u.is_nonneg value then 0 else u.set_all_one
      else u.srsh value (u.uint64 shift)

  unfoldable pub op_keccak256 : M W Bytes
  unfolding pop peek set_peek get_ptr
  op_keccak256 = do
    offset ← pop
    size ← peek
    bytes ← get_ptr (u.uint64 offset) (u.uint64 size)
    set_peek (u.set_bytes (keccak256 bytes))
    pure []
