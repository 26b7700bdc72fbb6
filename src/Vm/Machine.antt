-- ===== src/Vm/Machine.antt =====
-- The state of one run of the machine (Contract, Memory and Stack of core/vm, with the fields of
-- EVM that change), and the monad of its operations: an operation may end in an error of the
-- machine or in a fault, which stands for a Go panic, or for fuel that has run out.
use taraxa_evm.Prelude.{ℕ, Bool, Option, none, some, List, Bytes, ⊤, if◌then◌else◌}
use taraxa_evm.Vm.Env.{CallFrame, Error}

-- `store` is the slice of the memory, `capacity` its Go capacity, and the rest of the buffer, up
-- to the capacity, is zero.
pub record Memory : Type 0 where
  pub store : Bytes
  pub capacity : ℕ
  pub using_pool : Bool
  pub pool_offset : ℕ
  pub last_gas_cost : ℕ

-- The fields of EVM that change; `reserved` is that of its memory pool.
pub record Evm (W : Type 0) : Type 0 where
  pub state : W
  pub depth : ℕ
  pub read_only : Bool
  pub call_gas_tmp : ℕ
  pub last_retval : Bytes
  pub reserved : ℕ

-- Contract, except for the gas that is left, which changes.
pub record Contract : Type 0 where
  pub frame : CallFrame
  pub code : Bytes
  pub code_hash : Option ℕ

-- The top of the stack is the head of the list.
pub record Machine (W : Type 0) : Type 0 where
  pub contract : Contract
  pub pc : ℕ
  pub stack : List ℕ
  pub mem : Memory
  pub gas : ℕ
  pub evm : Evm W

pub data Fault : Type 0 where
  -- an access to the stack below its bottom
  stack_index : Fault
  -- a slice or an index out of the bounds of the memory or of another byte array
  slice_bounds : Fault
  -- a panic in the state or in a precompiled contract
  state_panic : Fault
  out_of_fuel : Fault

pub data Outcome (W A : Type 0) : Type 0 where
  ok : A → Machine W → Outcome W A
  err : Error → Machine W → Outcome W A
  fault : Fault → Outcome W A

abbrev pub M : Type 0 → Type 0 → Type 0
M W A = Machine W → Outcome W A

module _ {W A : Type 0} where
  abbrev pub pure : A → M W A
  pure a m = ok a m

  abbrev pub raise : Error → M W A
  raise e m = err e m

  abbrev pub panic : Fault → M W A
  panic f m = fault f

  abbrev pub gets : (Machine W → A) → M W A
  gets f m = ok (f m) m

  abbrev pub or_panic : Fault → Option A → M W A
  or_panic f none = panic f
  or_panic f (some a) = pure a

infixl 5 ◌>>=◌ ◌>>◌
abbrev pub ◌>>=◌ : {W A B : Type 0} → M W A → (A → M W B) → M W B
◌>>=◌ c k m = elim (c m) [ ok a m' ↦ k a m' | err e m' ↦ err e m' | fault f ↦ fault f ]

abbrev pub ◌>>◌ : {W A B : Type 0} → M W A → M W B → M W B
c >> k = c >>= λ _. k

module _ {W : Type 0} where
  abbrev pub modify : (Machine W → Machine W) → M W ⊤
  modify f m = ok tt (f m)

  abbrev pub raise_if : Bool → Error → M W ⊤
  raise_if b e m = if b then err e m else ok tt m

  abbrev pub panic_if : Bool → Fault → M W ⊤
  panic_if b f m = if b then fault f else ok tt m

  -- A change of the fields of EVM, and of the state among them.
  abbrev pub modify_evm : (Evm W → Evm W) → M W ⊤
  modify_evm f m = ok tt (record m { evm = f m.evm })

  abbrev pub modify_state : (W → W) → M W ⊤
  modify_state f m = ok tt (record m { evm = record (m.evm) { state = f m.evm.state } })

  abbrev pub get_state : M W W
  get_state m = ok m.evm.state m
