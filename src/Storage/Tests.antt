-- ===== src/Storage/Tests.antt =====
-- The theorems at concrete inputs.
use taraxa_evm.Prelude.{ℕ, ◌≡◌, refl, some, List, [], ◌∷◌, Bytes, length, get_elem?, arith}
use taraxa_evm.Storage.Codec.{
  bytes_to_uint64, uint64_to_bytes, dec_b_endian_64, enc_b_endian_64, dec_b_endian_compact_64,
  enc_b_endian_compact_64, size_in_bytes,
}
use taraxa_evm.Storage.Codec.RoundTrip.{uint64_round_trip, b_endian_round_trip}
use taraxa_evm.Storage.Wrapper.{get}
use taraxa_evm.Storage.Wrapper.Laws.{
  get-run_steps, run_steps, run_map, current, read, write, block_end, Step,
}
use taraxa_evm.Storage.IterableMap.{create_item, remove_item, init}
use taraxa_evm.Storage.IterableMap.Create.{create_item-Holds}
use taraxa_evm.Storage.IterableMap.Remove.{remove_item-Holds}
use taraxa_evm.Storage.IterableMap.Model.{swap_remove}
use taraxa_evm.Storage.IterableMap.Represents.{Holds}
use taraxa_evm.Storage.Sample.{
  keccak, stor, blank, blank-IsCoherent, blank-Holds, two, two-Holds, prefix,
}

uint64_round_trip_example :
    (bytes_to_uint64 (uint64_to_bytes 258) ≡ some 258)
    × ((v : ℕ) × (bytes_to_uint64 (1 ∷ 0 ∷ 0 ∷ 0 ∷ 0 ∷ 0 ∷ 0 ∷ 9 ∷ []) ≡ some v)
        × (uint64_to_bytes v ≡ 1 ∷ 0 ∷ 0 ∷ 0 ∷ 0 ∷ 0 ∷ 0 ∷ 9 ∷ []))
uint64_round_trip_example =
    uint64_round_trip 258 (1 ∷ 0 ∷ 0 ∷ 0 ∷ 0 ∷ 0 ∷ 0 ∷ 9 ∷ []) (omega arith) refl (omega arith)

b_endian_round_trip_example :
    (dec_b_endian_64 (enc_b_endian_64 70000) ≡ some 70000)
    × (dec_b_endian_compact_64 (enc_b_endian_compact_64 70000) ≡ some 70000)
    × (length (enc_b_endian_compact_64 70000) ≡ size_in_bytes 70000)
b_endian_round_trip_example = b_endian_round_trip 70000 (omega arith)

abbrev steps : List (Step keccak)
steps = write (1 ∷ []) (7 ∷ []) ∷ block_end ∷ read (1 ∷ []) ∷ write (2 ∷ []) (8 ∷ []) ∷ []

get-run_steps_example :
    (get keccak (1 ∷ []) (run_steps keccak steps blank)).0
    ≡ run_map keccak steps (current keccak blank) (1 ∷ [])
get-run_steps_example = get-run_steps keccak steps blank (1 ∷ []) blank-IsCoherent

create_item-Holds_example :
    (s' : stor.State) × (create_item keccak stor (init keccak prefix) (9 ∷ []) blank ≡ some (1, s'))
    × Holds keccak stor prefix s' ((9 ∷ []) ∷ [])
create_item-Holds_example =
    create_item-Holds keccak stor prefix blank [] (9 ∷ []) blank-Holds (λ i. cc) refl (omega arith)
      (omega arith)

remove_item-Holds_example :
    (last : Bytes) × (s' : stor.State) × (get_elem? {A = Bytes} ((9 ∷ []) ∷ (8 ∷ []) ∷ []) 1
      ≡ some last)
    × (remove_item keccak stor (init keccak prefix) (9 ∷ []) two ≡ some (1, s'))
    × Holds keccak stor prefix s' (swap_remove ((9 ∷ []) ∷ (8 ∷ []) ∷ []) 0 last)
remove_item-Holds_example =
    remove_item-Holds keccak stor prefix two ((9 ∷ []) ∷ (8 ∷ []) ∷ []) 0 (9 ∷ []) two-Holds refl
