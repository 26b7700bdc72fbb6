-- ===== src/Vm/Jumpdest.antt =====
-- The analysis of the code for jump destinations (core/vm/analysis.go) and its use by a contract
-- (core/vm/contract.go). EVM keeps the analysis by the hash of the code; it is computed anew here.
use Prim.Native.Nat.{bit_and, bit_or}
use taraxa_evm.Prelude.{
  ℕ, zero, suc, ◌+◌, ◌-◌, ◌*◌, ◌/◌, ◌%◌, ◌^◌, Bool, false, ◌||◌, ◌&&◌, not, [], ◌∷◌, Bytes, length,
  get_elem?, replicate, ltb, leb, ◌==◌, if◌then◌else◌, none, some,
}
use taraxa_evm.Vm.Env.{Uint256}

-- `bits[i] |= mask`
unfoldable pub or_at : Bytes → ℕ → ℕ → Bytes
or_at [] i mask = []
or_at (b ∷ bs) zero mask = bit_or b mask ∷ bs
or_at (b ∷ bs) (suc i) mask = b ∷ or_at bs i mask

-- `bitvec.set`
unfoldable pub set_bit : Bytes → ℕ → Bytes
unfolding or_at
set_bit bits pos = or_at bits (pos / 8) (128 / 2 ^ (pos % 8))

-- `bitvec.set8`
unfoldable pub set8 : Bytes → ℕ → Bytes
unfolding or_at
set8 bits pos =
    or_at (or_at bits (pos / 8) (255 / 2 ^ (pos % 8))) (pos / 8 + 1) (255 - 255 / 2 ^ (pos % 8))

-- A byte of an array, where Go would panic past its end.
abbrev pub byte_at : Bytes → ℕ → ℕ
byte_at bs i = elim (get_elem? bs i) [ none ↦ 0 | some b ↦ b ]

-- `bitvec.codeSegment`
unfoldable pub code_segment : Bytes → ℕ → Bool
code_segment bits pos = bit_and (byte_at bits (pos / 8)) (128 / 2 ^ (pos % 8)) == 0

-- The loop `for ; numbits >= 8; numbits -= 8`, by its number of rounds.
unfoldable pub mark_bytes : ℕ → ℕ → Bytes → Bytes
unfolding set8
mark_bytes zero pc bits = bits
mark_bytes (suc rounds) pc bits = mark_bytes rounds (pc + 8) (set8 bits pc)

-- The loop `for ; numbits > 0; numbits--`.
unfoldable pub mark_bits : ℕ → ℕ → Bytes → Bytes
unfolding set_bit
mark_bits zero pc bits = bits
mark_bits (suc rounds) pc bits = mark_bits rounds (pc + 1) (set_bit bits pc)

-- The number of data bytes after an instruction: PUSH1 is 0x60 and PUSH32 is 0x7f.
abbrev pub push_size : ℕ → ℕ
push_size op = if leb 0x60 op && leb op 0x7f then op - 0x60 + 1 else 0

unfoldable pub mark_data : (numbits pc : ℕ) → Bytes → Bytes
mark_data numbits pc bits =
    mark_bits (numbits % 8) (pc + 8 * (numbits / 8)) (mark_bytes (numbits / 8) pc bits)

-- The loop over the code; every round moves `pc` on, so the length of the code is enough fuel.
unfoldable pub scan : ℕ → Bytes → ℕ → Bytes → Bytes
scan zero code pc bits = bits
scan (suc fuel) code pc bits =
    let size = push_size (byte_at code pc) in
    let rest = scan fuel code (pc + 1 + size) (mark_data size (pc + 1) bits) in
    if ltb pc (length code) then rest else bits

unfoldable pub code_bitmap : Bytes → Bytes
code_bitmap code = scan (length code) code 0 (replicate (length code / 8 + 1 + 4) 0)

-- `GetOp`: past the end of the code stands STOP.
unfoldable pub get_op : Bytes → ℕ → ℕ
get_op code n = if ltb n (length code) then byte_at code n else 0

-- `ValidJumpdest`; JUMPDEST is 0x5b.
unfoldable pub valid_jumpdest : Uint256 → Bytes → ℕ → Bool
valid_jumpdest u code dest =
    let udest = u.uint64 dest in
    if not (u.is_uint64 dest) || not (get_op code udest == 0x5b)
    then false
    else code_segment (code_bitmap code) udest
