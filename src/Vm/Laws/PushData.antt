-- ===== src/Vm/Laws/PushData.antt =====
-- How many bytes of data follow an operation code, by the table of the codes (core/vm/opcodes.go)
-- and in the analysis of the code (core/vm/analysis.go).
use taraxa_evm.Prelude.{ℕ, ◌≡◌, Option, none, some, arith}
use taraxa_evm.Vm.OpCode.{
  OpCode, decode_arithmetic, decode_environment, decode_storage, decode_rest, decode,
}
use taraxa_evm.Vm.Jumpdest.{push_size}

-- PUSHn has n bytes of data, and no other operation has any.
abbrev data_of : Option OpCode → ℕ
data_of none = 0
data_of (some (OpCode.push n)) = n
data_of (some _) = 0

abbrev pub data_length : ℕ → ℕ
data_length op = data_of (decode op)

decode_rest-data : (op : ℕ) → data_of (decode_rest op) ≡ push_size op
unfolding decode_rest
decode_rest-data op = ground arith

decode_arithmetic-data : (op : ℕ) → data_of (decode_arithmetic op) ≡ 0
unfolding decode_arithmetic
decode_arithmetic-data op = ground arith

decode_environment-data : (op : ℕ) → data_of (decode_environment op) ≡ 0
unfolding decode_environment
decode_environment-data op = ground arith

decode_storage-data : (op : ℕ) → data_of (decode_storage op) ≡ 0
unfolding decode_storage
decode_storage-data op = ground arith

pub push_size-data_length : (op : ℕ) → push_size op ≡ data_length op
unfolding decode
push_size-data_length op = ground (
  arith,
  decode_rest-data op,
  decode_arithmetic-data op,
  decode_environment-data op,
  decode_storage-data op,
)
