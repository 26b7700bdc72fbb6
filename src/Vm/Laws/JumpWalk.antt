-- ===== src/Vm/Laws/JumpWalk.antt =====
-- The loops of the analysis of jump destinations, and a walk over the code that they agree with
-- (core/vm/analysis.go).
use taraxa_evm.Prelude.{ℕ, zero, suc, Bool, true, false, Bytes, [], ◌∷◌}
use taraxa_evm.Vm.Jumpdest.{byte_at, push_size}
use taraxa_evm.Vm.Laws.PushData.{data_length}

-- Whether an instruction starts at a place of the code, of which `skip` bytes at the front are data
-- of an instruction before it, where `size_of` a code is the number of its data bytes.
abbrev walk_by : (size_of : ℕ → ℕ) → Bytes → (skip place : ℕ) → Bool
walk_by size_of [] skip place = true
walk_by size_of (b ∷ bs) zero zero = true
walk_by size_of (b ∷ bs) zero (suc place) = walk_by size_of bs (size_of b) place
walk_by size_of (b ∷ bs) (suc skip) zero = false
walk_by size_of (b ∷ bs) (suc skip) (suc place) = walk_by size_of bs skip place

-- The walk by the table of the operation codes.
abbrev pub walk : Bytes → (skip place : ℕ) → Bool
walk = walk_by data_length

abbrev no_bytes : Bytes
no_bytes = []

-- The size of the instruction at a place.
abbrev size_at : Bytes → ℕ → ℕ
size_at code pc = push_size (byte_at code pc)
