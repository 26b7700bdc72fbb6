-- ===== src/Vm/Effect/Decoded.antt =====
-- The operation codes that decoding yields.
use taraxa_evm.Prelude.{ℕ, ◌≤◌, ◌≡◌, Option, none, some, arith}
use taraxa_evm.Vm.OpCode.{
  OpCode, decode_arithmetic, decode_environment, decode_storage, decode_rest, decode,
}
use taraxa_evm.Vm.Effect.Table.{pops, IsValid}

-- DUP is DUP1 at least, and 0xf1, at which the loop looks for a value, takes one.
abbrev pub Decodes : (op : ℕ) → Option OpCode → Type 0
Decodes op none = Unit
Decodes op (some code) = IsValid code × (op ≡ 0xf1 → 3 ≤ pops code)

decode_rest-Decodes : (op : ℕ) → Decodes op (decode_rest op)
unfolding decode_rest
decode_rest-Decodes op = ground arith

decode_arithmetic-Decodes : (op : ℕ) → op ≤ 0x30 → Decodes op (decode_arithmetic op)
unfolding decode_arithmetic
decode_arithmetic-Decodes op h = ground arith

decode_environment-Decodes : (op : ℕ) → op ≤ 0x50 → Decodes op (decode_environment op)
unfolding decode_environment
decode_environment-Decodes op h = ground arith

decode_storage-Decodes : (op : ℕ) → op ≤ 0x60 → Decodes op (decode_storage op)
unfolding decode_storage
decode_storage-Decodes op h = ground arith

pub decode-Decodes : (op : ℕ) → Decodes op (decode op)
unfolding decode
decode-Decodes op = ground (
  arith,
  decode_rest-Decodes op,
  decode_arithmetic-Decodes op,
  decode_environment-Decodes op,
  decode_storage-Decodes op,
)
