-- ===== src/Vm/Laws/Prices.antt =====
-- What memory, calls and transactions cost.
use taraxa_evm.Prelude.{
  ℕ, zero, suc, ◌+◌, ◌-◌, ◌*◌, ◌/◌, ◌≤◌, ◌<◌, ◌≡◌, ◌⊎◌, ap, ◌∙◌, Bool, true, false, Option, none,
  some, Bytes, [], ◌∷◌, arith, length, if◌then◌else◌,
}
use native.Mathlib.Nat.{mul-le-mul}
use taraxa_evm.Vm.Env.{Env, max_uint64}
use taraxa_evm.Vm.Machine.{Machine, ok, err, fault, Outcome}
use taraxa_evm.Vm.Memory.{mem_len}
use taraxa_evm.Vm.Common.{to_word_size}
use taraxa_evm.Vm.Gas.{memory_gas_cost, call_gas, intrinsic_gas_of, count_nonzero}

-- The price of a memory of so many words, as the yellow paper states it.
abbrev pub memory_fee : ℕ → ℕ
memory_fee words = 3 * words + words * words / 512

abbrev pub words_of : ℕ → ℕ
words_of size = (size + 31) / 32

-- The number of words is the ceiling of the size over 32, at every 64-bit size.
pub to_word_size-words_of : (size : ℕ) → size ≤ max_uint64 → to_word_size size ≡ words_of size
unfolding to_word_size
to_word_size-words_of size h = ground arith

-- The share of a call never makes its cost exceed the gas that is there: with 64-bit numbers, the
-- base within the gas, the gas set aside is at most all but a 64th of what is left after the base.
pub call_gas-le :
    (env : Env) (available base call_cost : ℕ)
    → available ≤ max_uint64
    → base ≤ available
    → call_gas env available base call_cost + (available - base) / 64 + base ≤ available
unfolding call_gas
call_gas-le env available base call_cost word h = ground arith

-- The intrinsic gas by the definition of the protocol.
abbrev pub intrinsic_sum : Bytes → ℕ
intrinsic_sum [] = 0
intrinsic_sum (zero ∷ bs) = 4 + intrinsic_sum bs
intrinsic_sum (suc b ∷ bs) = 68 + intrinsic_sum bs

count_nonzero-sum :
    (bs : Bytes)
    → (intrinsic_sum bs ≡ 68 * count_nonzero bs + 4 * (length bs - count_nonzero bs))
      × (count_nonzero bs ≤ length bs)
unfolding count_nonzero
count_nonzero-sum [] = omega arith
count_nonzero-sum (zero ∷ bs) = ground (arith, count_nonzero-sum bs)
count_nonzero-sum (suc b ∷ bs) = ground (arith, count_nonzero-sum bs)

abbrev pub Sums : ℕ → Option ℕ → Type 0
Sums total none = max_uint64 < total
Sums total (some gas) = (gas ≡ total) × (total ≤ max_uint64)

-- The intrinsic gas is 53000 for a creation and 21000 otherwise, 68 for each byte that is not zero
-- and 4 for each zero, and it is an error exactly when that sum is no 64-bit number.
pub intrinsic_gas_of-Sums :
    (bytes : Bytes) (creation : Bool)
    → Sums
        ((if creation then 53000 else 21000) + intrinsic_sum bytes)
        (intrinsic_gas_of bytes creation)
unfolding intrinsic_gas_of
intrinsic_gas_of-Sums bytes true = ground (arith, count_nonzero-sum bytes)
intrinsic_gas_of-Sums bytes false = ground (arith, count_nonzero-sum bytes)

-- A memory whose last price is the price of its words.
abbrev pub IsPriced : {W : Type 0} → Machine W → Type 0
IsPriced m = m.mem.last_gas_cost ≡ memory_fee (words_of (mem_len m))

memory_fee-le : (a b : ℕ) → a ≤ b → memory_fee a ≤ memory_fee b
memory_fee-le a b h = omega (arith, mul-le-mul h h)

-- How the price of the memory comes out: it does not grow and costs nothing, or its price goes up
-- by the cost and is kept.
abbrev pub Grows : {W : Type 0} → (size : ℕ) → Machine W → Outcome W ℕ → Type 0
Grows size m (ok cost m') =
    (memory_fee (words_of size) ≤ memory_fee (words_of (mem_len m))) × (cost ≡ 0) × (m' ≡ m)
    ⊎ (cost + memory_fee (words_of (mem_len m)) ≡ memory_fee (words_of size))
      × (m'.mem.last_gas_cost ≡ memory_fee (words_of size))
Grows size m (err e m') = 1 ≤ 0
Grows size m (fault f) = 1 ≤ 0

-- Up to the size 0x1fffffffe0, if the last price is that of the memory: growing the memory costs
-- exactly the difference of the prices of the yellow paper, 3 for a word and a 512th of the square of
-- the words, and a memory that is large enough costs nothing. There is no overflow and no error.
pub memory_gas_cost-Grows :
    {W : Type 0} (size : ℕ) (m : Machine W)
    → size ≤ 0x1fffffffe0
    → IsPriced m
    → Grows size m (memory_gas_cost size m)
unfolding memory_gas_cost
memory_gas_cost-Grows size m small priced = ground (
  arith,
  small,
  priced,
  to_word_size-words_of size (omega (arith, small)),
  ap (λ w. w * w) (to_word_size-words_of size (omega (arith, small))),
  mul-le-mul {n₁ = words_of size} {m₁ = words_of size} {n₂ = 4294967295} {m₂ = 4294967295},
  memory_fee-le (words_of size) (words_of (mem_len m)),
  memory_fee-le (words_of (mem_len m)) (words_of size),
)

exactly : (size : ℕ) → 137438953440 < size → size ≤ 137438953472 → words_of size ≡ 4294967296
exactly size low high = omega arith

abbrev pub Costs : {W : Type 0} → ℕ → Outcome W ℕ → Type 0
Costs n (ok cost m) = cost ≡ n
Costs n (err e m) = 1 ≤ 0
Costs n (fault f) = 1 ≤ 0

-- Above that size the code of the price overflows: a memory of 2 ^ 32 words, for an empty one, costs
-- the linear part of its price alone.
pub memory_gas_cost-linear :
    {W : Type 0} (size : ℕ) (m : Machine W)
    → 137438953440 < size
    → size ≤ 137438953472
    → mem_len m ≡ 0
    → m.mem.last_gas_cost ≡ 0
    → Costs (3 * 4294967296) (memory_gas_cost size m)
unfolding memory_gas_cost
memory_gas_cost-linear size m low high empty priced =
    ground (arith, low, high, empty, priced, words, ap (λ w. w * w) words)
  where
    words : to_word_size size ≡ 4294967296
    words = to_word_size-words_of size (omega (arith, high)) ∙ exactly size low high
