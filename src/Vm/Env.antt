-- ===== src/Vm/Env.antt =====
-- What the virtual machine is given: the 256-bit words of github.com/holiman/uint256 (a library
-- outside the repository), the hash function, the interfaces State, StateAccount and
-- PrecompiledContract of core/vm/interface.go and core/vm/contracts.go, and the block, transaction
-- and chain data.
-- A word, an address and a hash are the numbers that their bytes spell.
use taraxa_evm.Prelude.{ℕ, ◌+◌, ◌%◌, ◌^◌, ◌≡◌, Bool, not, Option, Bytes, ltb, ◌==◌, List}
use taraxa_evm.Prelude.Int.{ℤ}

abbrev pub Address : Type 0
Address = ℕ

abbrev pub u64_mod : ℕ
u64_mod = 18446744073709551616

abbrev pub max_uint64 : ℕ
max_uint64 = 18446744073709551615

abbrev pub u256_mod : ℕ
u256_mod = 2 ^ 256

-- The operations on uint256.Int that the machine calls. The laws are the documented behaviour of
-- those on which its control flow rests; the other operations only compute values on the stack.
pub record Uint256 : Type 0 where
  pub add : ℕ → ℕ → ℕ
  pub sub : ℕ → ℕ → ℕ
  pub mul : ℕ → ℕ → ℕ
  pub div : ℕ → ℕ → ℕ
  pub sdiv : ℕ → ℕ → ℕ
  pub umod : ℕ → ℕ → ℕ
  pub smod : ℕ → ℕ → ℕ
  pub exp : ℕ → ℕ → ℕ
  pub extend_sign : ℕ → ℕ → ℕ
  pub bnot : ℕ → ℕ
  pub band : ℕ → ℕ → ℕ
  pub bor : ℕ → ℕ → ℕ
  pub bxor : ℕ → ℕ → ℕ
  -- `z.Byte(n)`, the value first
  pub byte : ℕ → ℕ → ℕ
  pub add_mod : ℕ → ℕ → ℕ → ℕ
  pub mul_mod : ℕ → ℕ → ℕ → ℕ
  -- the value first, then the number of bits
  pub lsh : ℕ → ℕ → ℕ
  pub rsh : ℕ → ℕ → ℕ
  pub srsh : ℕ → ℕ → ℕ
  pub slt : ℕ → ℕ → Bool
  pub lt : ℕ → ℕ → Bool
  pub is_zero : ℕ → Bool
  -- `x.Sign() >= 0`, for the word as a two's complement number
  pub is_nonneg : ℕ → Bool
  pub set_all_one : ℕ
  pub set_bytes : Bytes → ℕ
  pub bytes32 : ℕ → Bytes
  -- the twenty lowest bytes
  pub bytes20 : ℕ → Address
  pub set_from_big : ℤ → ℕ
  pub uint64 : ℕ → ℕ
  pub is_uint64 : ℕ → Bool
  pub bit_len : ℕ → ℕ
  pub add-eq : (x y : ℕ) → add x y ≡ (x + y) % u256_mod
  pub lt-eq : (x y : ℕ) → lt x y ≡ ltb x y
  pub is_zero-eq : (x : ℕ) → is_zero x ≡ (x == 0)
  pub uint64-eq : (x : ℕ) → uint64 x ≡ x % u64_mod
  pub is_uint64-eq : (x : ℕ) → is_uint64 x ≡ ltb x u64_mod
  pub bit_len_zero : (x : ℕ) → ltb 0 (bit_len x) ≡ not (x == 0)
  pub bit_len_word : (x : ℕ) → ltb 64 (bit_len x) ≡ not (ltb x u64_mod)

pub record LogRecord : Type 0 where
  pub address : Address
  pub topics : List Bytes
  pub content : Bytes

-- The interfaces State and StateAccount; an account is named by its address. `none` is a panic.
pub record StateOps (W : Type 0) : Type 0 where
  pub get_balance : Address → W → ℤ
  pub get_nonce : Address → W → ℕ
  -- nil (`none`) for an account that does not exist
  pub get_code_hash : Address → W → Option ℕ
  pub get_code : Address → W → Bytes
  pub get_code_size : Address → W → ℕ
  pub get_committed_state : Address → ℕ → W → ℕ
  pub get_state : Address → ℕ → W → ℕ
  pub has_suicided : Address → W → Bool
  pub is_nil : Address → W → Bool
  pub is_eip161_empty : Address → W → Bool
  pub set_code : Address → Bytes → W → W
  pub add_balance : Address → ℕ → W → W
  pub sub_balance : Address → ℕ → W → W
  pub increment_nonce : Address → W → W
  pub set_nonce : Address → ℕ → W → Option W
  pub set_state : Address → ℕ → ℕ → W → W
  pub suicide : (account beneficiary : Address) → W → W
  pub add_log : LogRecord → W → W
  pub get_logs : W → List LogRecord
  pub add_refund : ℕ → W → W
  pub sub_refund : ℕ → W → Option W
  pub get_refund : W → ℕ
  pub snapshot : W → ℕ
  pub revert_to_snapshot : ℕ → W → W
  pub get_transient_state : Address → Bytes → W → Bytes
  pub set_transient_state : Address → Bytes → Bytes → W → W

pub record CallFrame : Type 0 where
  pub caller_account : Address
  pub account : Address
  pub input : Bytes
  pub gas : ℕ
  pub value : ℕ

pub data Error : Type 0 where
  out_of_gas intrinsic_gas code_store_out_of_gas max_depth : Error
  insufficient_balance_for_transfer contract_address_collision : Error
  insufficient_balance_for_gas nonce_too_low write_protection : Error
  return_data_out_of_bounds execution_reverted max_code_size_exceeded : Error
  gas_uint_overflow : Error
  invalid_opcode : ℕ → Error
  stack_underflow : ℕ → ℕ → Error
  stack_limit_reached : ℕ → Error
  invalid_jump : ℕ → Error
  -- any error of a precompiled contract
  precompile_error : ℕ → Error

-- `run` gives the returned bytes, the error if any, and the state; `none` is a panic.
pub record PrecompiledContract (W : Type 0) : Type 0 where
  pub required_gas : CallFrame → W → ℕ
  pub run : CallFrame → W → Option (Bytes × Option Error × W)

pub record GasTable : Type 0 where
  pub extcode_size : ℕ
  pub extcode_copy : ℕ
  pub extcode_hash : ℕ
  pub balance : ℕ
  pub sload : ℕ
  pub calls : ℕ
  pub suicide : ℕ
  pub exp_byte : ℕ
  pub create_by_suicide : ℕ
  pub warm_storage_read_cost : ℕ

pub record Block : Type 0 where
  pub number : ℕ
  pub author : Address
  pub gas_limit : ℕ
  pub time : ℕ
  pub difficulty : ℤ

pub record Transaction : Type 0 where
  pub from : Address
  pub gas_price : ℕ
  -- `none` creates a contract
  pub to : Option Address
  pub nonce : ℕ
  pub value : ℕ
  pub gas : ℕ
  pub input : Bytes

pub record Rules : Type 0 where
  pub is_ficus : Bool
  pub is_cornus : Bool

-- The fields of EVM that stay as they are during a transaction.
pub record Env : Type 1 where
  pub World : Type 0
  pub u256 : Uint256
  pub state_ops : StateOps World
  pub keccak256 : Bytes → Bytes
  pub create_address : Address → ℕ → Address
  -- the sender, the salt and the hash of the code
  pub create_address2 : Address → ℕ → Bytes → Address
  pub get_hash : ℕ → ℤ
  pub precompiles : Address → Option (PrecompiledContract World)
  pub block : Block
  pub trx : Transaction
  pub chain_id : ℕ
  pub rules : Rules
  pub preallocated_mem : ℕ

-- GasTableCalifornicum, which `SetBlock` chooses under every rule set
abbrev pub gas_table : GasTable
gas_table = record {
  extcode_size = 700;
  extcode_copy = 700;
  extcode_hash = 700;
  balance = 700;
  sload = 800;
  calls = 700;
  suicide = 5000;
  exp_byte = 50;
  create_by_suicide = 25000;
  warm_storage_read_cost = 100;
}
