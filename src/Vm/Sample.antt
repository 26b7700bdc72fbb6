-- ===== src/Vm/Sample.antt =====
-- A concrete environment for tests: words computed as their documentation says, a state of
-- balances, codes and slots whose snapshots are the depth of a history, and no precompiled contract.
use taraxa_evm.Prelude.{
  ℕ, zero, suc, ◌+◌, ◌-◌, ◌*◌, ◌/◌, ◌%◌, ◌^◌, ◌≤◌, ◌<◌, ◌≡◌, refl, Bool, true, false, not, ◌&&◌,
  none, some, List, [], ◌∷◌, Bytes, length, replicate, be, ltb, leb, ◌==◌, if◌then◌else◌, arith,
  drop, get_elem?, ◌⊎◌, inl, inr,
}
use taraxa_evm.Prelude.Int.{ℤ, pos, negsuc, ◌+ℤ◌, ◌-ℤ◌, is_zero_ℤ}
use taraxa_evm.Vm.Env.{Address, u64_mod, u256_mod, Uint256, StateOps, Env, LogRecord}
use taraxa_evm.Vm.Machine.{Machine, Evm, Contract}
use taraxa_evm.Vm.Memory.{empty_memory}
use native.Mathlib.Nat.{pow-le-pow_right}
use Prim.Native.Nat.{bit_and, bit_or, bit_xor}

-- The least number of bits, up to `n`, that hold a number.
unfoldable pub bits : ℕ → ℕ → ℕ
bits zero x = 0
bits (suc n) x = let rest = bits n x in if leb (2 ^ n) x then suc n else rest

le-or-lt : (a b : ℕ) → (a ≤ b) ⊎ (b < a)
le-or-lt a b = ground arith

bits-high : (limit n x : ℕ) → n < limit → 2 ^ n ≤ x → suc n ≤ bits limit x
unfolding bits
bits-high zero n x h e = absurd (omega arith)
bits-high (suc limit) n x h e = elim (le-or-lt limit n) [
  | inl l ↦ ground (arith, e, antisym n limit l h)
  | inr l ↦ ground (arith, bits-high limit n x l e)
]
  where
    antisym : (n limit : ℕ) → limit ≤ n → n < suc limit → n ≡ limit
    antisym n limit l h = omega arith

bits-low : (limit n x : ℕ) → x < 2 ^ n → bits limit x ≤ n
unfolding bits
bits-low zero n x h = omega arith
bits-low (suc limit) n x h = ground (arith, bits-low limit n x h, bigger)
  where
    bigger : n ≤ limit → 2 ^ n ≤ 2 ^ limit
    bigger l = pow-le-pow_right (omega arith) l

pub bits-zero : (x : ℕ) → ltb 0 (bits 256 x) ≡ not (x == 0)
bits-zero x = ground (arith, bits-high 256 0 x, bits-low 256 0 x)

pub bits-word : (x : ℕ) → ltb 64 (bits 256 x) ≡ not (ltb x u64_mod)
bits-word x = ground (arith, bits-high 256 64 x, bits-low 256 64 x)

abbrev is_negative : ℕ → Bool
is_negative x = leb (2 ^ 255) x

abbrev magnitude : ℕ → ℕ
magnitude x = if is_negative x then u256_mod - x else x

abbrev from_sign : Bool → ℕ → ℕ
from_sign negative x = if negative then (u256_mod - x) % u256_mod else x

abbrev xor_sign : ℕ → ℕ → Bool
xor_sign x y = if is_negative x then not (is_negative y) else is_negative y

-- `ExtendSign(x, n)`: the byte `n` from the right holds the sign.
abbrev extend : ℕ → ℕ → ℕ
extend x n =
    if leb 31 n
    then x
    else if ltb (x % 256 ^ (n + 1)) (256 ^ (n + 1) / 2)
    then x % 256 ^ (n + 1)
    else u256_mod - 256 ^ (n + 1) + x % 256 ^ (n + 1)

abbrev from_big : ℤ → ℕ
from_big (pos n) = n % u256_mod
from_big (negsuc n) = u256_mod - 1 - n % u256_mod

-- The big-endian bytes, in front of others.
unfoldable pub to_bytes : ℕ → ℕ → Bytes → Bytes
to_bytes zero x bs = bs
to_bytes (suc n) x bs = to_bytes n (x / 256) ((x % 256) ∷ bs)

abbrev words : Uint256
words = record {
  add = λ x y. (x + y) % u256_mod;
  sub = λ x y. (x + u256_mod - y) % u256_mod;
  mul = λ x y. (x * y) % u256_mod;
  div = λ x y. if y == 0 then 0 else x / y;
  sdiv = λ x y. if y == 0 then 0 else from_sign (xor_sign x y) (magnitude x / magnitude y);
  umod = λ x y. if y == 0 then 0 else x % y;
  smod = λ x y. if y == 0 then 0 else from_sign (is_negative x) (magnitude x % magnitude y);
  exp = λ x y. x ^ y % u256_mod;
  extend_sign = extend;
  bnot = λ x. u256_mod - 1 - x;
  band = bit_and;
  bor = bit_or;
  bxor = bit_xor;
  byte = λ x n. if ltb n 32 then x / 256 ^ (31 - n) % 256 else 0;
  add_mod = λ x y z. if z == 0 then 0 else (x + y) % z;
  mul_mod = λ x y z. if z == 0 then 0 else x * y % z;
  lsh = λ x n. x * 2 ^ n % u256_mod;
  rsh = λ x n. x / 2 ^ n;
  srsh = λ x n. if is_negative x then u256_mod - 1 - (u256_mod - 1 - x) / 2 ^ n else x / 2 ^ n;
  slt = λ x y. ltb ((x + 2 ^ 255) % u256_mod) ((y + 2 ^ 255) % u256_mod);
  lt = ltb;
  is_zero = λ x. x == 0;
  is_nonneg = λ x. not (is_negative x);
  set_all_one = u256_mod - 1;
  set_bytes = λ bs. be bs % u256_mod;
  bytes32 = λ x. to_bytes 32 x [];
  bytes20 = λ x. x % 2 ^ 160;
  set_from_big = from_big;
  uint64 = λ x. x % u64_mod;
  is_uint64 = λ x. ltb x u64_mod;
  bit_len = bits 256;
  add-eq = λ x y. refl;
  lt-eq = λ x y. refl;
  is_zero-eq = λ x. refl;
  uint64-eq = λ x. refl;
  is_uint64-eq = λ x. refl;
  bit_len_zero = bits-zero;
  bit_len_word = bits-word;
}

-- The accounts: what a snapshot saves.
pub record Accounts : Type 0 where
  pub balance : Address → ℤ
  pub nonce : Address → ℕ
  pub code : Address → Bytes
  pub slot : Address → ℕ → ℕ
  pub refund : ℕ

-- The accounts now, those at each call of snapshot (the latest first), and the logs.
pub record World : Type 0 where
  pub now : Accounts
  pub saved : List Accounts
  pub logs : List LogRecord

abbrev pub at : {A : Type 0} → (ℕ → A) → ℕ → A → ℕ → A
at f k v x = if x == k then v else f x

abbrev change : (Accounts → Accounts) → World → World
change f w = record w { now = f w.now }

-- A snapshot is named by the number of changes that are saved, so every change saves the accounts.
abbrev save : (Accounts → Accounts) → World → World
save f w = record w { now = f w.now; saved = w.now ∷ w.saved }

-- The oldest of the states that were saved after the snapshot.
abbrev rewind : ℕ → Accounts → List Accounts → Accounts
rewind n now saved = elim (get_elem? saved (length saved - n - 1)) [ none ↦ now | some a ↦ a ]

abbrev empty_account : Address → World → Bool
empty_account a w =
    is_zero_ℤ (w.now.balance a) && ((w.now.nonce a == 0) && (length (w.now.code a) == 0))

abbrev accounts : StateOps World
accounts = record {
  get_balance = λ a w. w.now.balance a;
  get_nonce = λ a w. w.now.nonce a;
  get_code_hash = λ a w. if empty_account a w then none else some (length (w.now.code a));
  get_code = λ a w. w.now.code a;
  get_code_size = λ a w. length (w.now.code a);
  get_committed_state = λ a k w. 0;
  get_state = λ a k w. w.now.slot a k;
  has_suicided = λ a w. false;
  is_nil = empty_account;
  is_eip161_empty = empty_account;
  set_code = λ a c. save (λ s. record s { code = at s.code a c });
  add_balance = λ a n. save (λ s. record s { balance = at s.balance a (s.balance a +ℤ pos n) });
  sub_balance = λ a n. save (λ s. record s { balance = at s.balance a (s.balance a -ℤ pos n) });
  increment_nonce = λ a. save (λ s. record s { nonce = at s.nonce a (s.nonce a + 1) });
  set_nonce = λ a n w. some (save (λ s. record s { nonce = at s.nonce a n }) w);
  set_state = λ a k v. save (λ s. record s { slot = at s.slot a (at (s.slot a) k v) });
  suicide = λ a b. save (λ s. record s { balance = at s.balance a (pos 0) });
  add_log = λ l w. record w { logs = l ∷ w.logs };
  get_logs = λ w. w.logs;
  add_refund = λ n. save (λ s. record s { refund = s.refund + n });
  sub_refund = λ n w.
      if ltb w.now.refund n then none else some (save (λ s. record s { refund = s.refund - n }) w);
  get_refund = λ w. w.now.refund;
  snapshot = λ w. length w.saved;
  revert_to_snapshot =
      λ n w. record w { now = rewind n w.now w.saved; saved = drop (length w.saved - n) w.saved };
  get_transient_state = λ a k w. replicate 32 0;
  set_transient_state = λ a k v w. w;
}

abbrev pub sample : Env
sample = record {
  World = World;
  u256 = words;
  state_ops = accounts;
  keccak256 = λ bs. to_bytes 32 (be bs * 31 + 7) [];
  create_address = λ a n. (a * 1000 + n) % 2 ^ 160;
  create_address2 = λ a salt hash. (a + salt + be hash) % 2 ^ 160;
  get_hash = λ n. pos n;
  precompiles = λ a. none;
  block = record { number = 10; author = 3; gas_limit = 1000000; time = 5; difficulty = pos 0 };
  trx = record {
    from = 1;
    gas_price = 1;
    to = some 2;
    nonce = 0;
    value = 0;
    gas = 100000;
    input = [];
  };
  chain_id = 841;
  rules = record { is_ficus = true; is_cornus = true };
  preallocated_mem = 1024;
}

-- Account 7 holds 1000 and the code PUSH1 2 PUSH1 3 ADD PUSH1 0 MSTORE STOP; account 8 is a caller.
abbrev pub world : World
world = record {
  now = record {
    balance = at (λ _. pos 0) 7 (pos 1000);
    nonce = λ _. 0;
    code = at (λ _. []) 7 (0x60 ∷ 2 ∷ 0x60 ∷ 3 ∷ 0x01 ∷ 0x60 ∷ 0 ∷ 0x52 ∷ 0 ∷ []);
    slot = λ _ _. 0;
    refund = 0;
  };
  saved = [];
  logs = [];
}

abbrev pub evm : Evm World
evm = record {
  state = world;
  depth = 0;
  read_only = false;
  call_gas_tmp = 0;
  last_retval = [];
  reserved = 0;
}

abbrev pub contract : Contract
contract = record {
  frame = record { caller_account = 8; account = 7; input = []; gas = 100; value = 0 };
  code = 0x60 ∷ 2 ∷ 0x60 ∷ 3 ∷ 0x01 ∷ 0x60 ∷ 0 ∷ 0x52 ∷ 0 ∷ [];
  code_hash = some 9;
}

-- A machine about to run that code.
abbrev pub machine : (gas : ℕ) → List ℕ → Machine World
machine gas stack = record {
  contract = contract;
  pc = 0;
  stack = stack;
  mem = empty_memory 0;
  gas = gas;
  evm = evm;
}
