-- ===== src/Storage/IterableMap/Keys.antt =====
-- The storage keys of a map with a prefix, under a `keccak256` without collisions.
use taraxa_evm.Prelude.{
  ℕ, ◌^◌, ◌<◌, ◌≡◌, ◌≢◌, refl, sym, ap, ◌∙◌, true, false, some, [], ◌∷◌, ◌++◌, Bytes, arith,
  Bool-cases, inl, inr, length, ltb, if◌then◌else◌,
}
use mathlib.Core.List.{append_assoc, append-nil}
use taraxa_evm.Storage.Codec.{le_bytes, uint32_to_bytes, bytes_to_uint32}
use taraxa_evm.Storage.Codec.RoundTrip.{bytes_to_uint32-uint32_to_bytes}
use taraxa_evm.Storage.Interface.{Keccak}
use taraxa_evm.Storage.IterableMap.{Slice, init, item_key, pos_key}

append_cancel : (p : Bytes) {a b : Bytes} → p ++ a ≡ p ++ b → a ≡ b
append_cancel [] e = e
append_cancel (x ∷ p) e = append_cancel p (cc e)

field_cancel :
    (p : Bytes) (c d : ℕ) (a b : Bytes)
    → (p ++ (c ∷ [])) ++ a ≡ (p ++ (d ∷ [])) ++ b
    → (c ≡ d) × (a ≡ b)
field_cancel p c d a b e =
    let r : c ∷ a ≡ d ∷ b =
      append_cancel p (sym (append_assoc p (c ∷ []) a) ∙ e ∙ append_assoc p (d ∷ []) b) in
    (cc r, cc r)

pub uint32_to_bytes_injective :
    (i j : ℕ) → i < 2 ^ 32 → j < 2 ^ 32 → uint32_to_bytes i ≡ uint32_to_bytes j → i ≡ j
uint32_to_bytes_injective i j h k e =
    let r : some i ≡ some j =
      sym (bytes_to_uint32-uint32_to_bytes i h)
      ∙ ap bytes_to_uint32 e
      ∙ bytes_to_uint32-uint32_to_bytes j k in
    cc r

-- The bytes of an item, which are not as many as those of a position: addresses have 20 and ids 8.
abbrev pub IsItem : Bytes → Type 0
IsItem x = length x ≢ 4

uint32_to_bytes-length : (i : ℕ) → length (uint32_to_bytes i) ≡ 4
unfolding uint32_to_bytes le_bytes
uint32_to_bytes-length i = refl

module _ (keccak : Keccak) where
  open keccak use {Hash, hash, same, same_iff, hash_injective}

  pub same_self : (h : Hash) → same h h ≡ true
  same_self h = (same_iff h h).1 refl

  same-false : (a b : Bytes) → a ≢ b → same (hash a) (hash b) ≡ false
  same-false a b h = elim (Bool-cases (same (hash a) (hash b))) [
    | inl e ↦ absurd (h (hash_injective a b ((same_iff _ _).0 e)))
    | inr e ↦ e
  ]

  module _ (p : Slice) where
    -- The byte after the prefix in the key of an item.
    abbrev field_items : ℕ
    field_items = if ltb (length p.bytes) p.capacity then 2 else 0

    pub same-item_key :
        (i j : ℕ)
        → i < 2 ^ 32
        → j < 2 ^ 32
        → same (item_key keccak (init keccak p) i) (item_key keccak (init keccak p) j) ≡ true
        → i ≡ j
    unfolding init
    same-item_key i j h k e =
        uint32_to_bytes_injective i j h k
          (field_cancel p.bytes field_items field_items _ _
            (hash_injective _ _ ((same_iff _ _).0 e))).1

    pub same-pos_key :
        (x y : Bytes)
        → same (pos_key keccak (init keccak p) x) (pos_key keccak (init keccak p) y) ≡ true
        → x ≡ y
    unfolding init
    same-pos_key x y e = (field_cancel p.bytes 2 2 _ _ (hash_injective _ _ ((same_iff _ _).0 e))).1

    pub same-item_pos :
        (i : ℕ) (x : Bytes)
        → IsItem x
        → same (item_key keccak (init keccak p) i) (pos_key keccak (init keccak p) x) ≡ false
    unfolding init
    same-item_pos i x sized = same-false _ _ (λ e.
        let (_, h) = field_cancel p.bytes field_items 2 _ _ e in
        sized (ap length (sym h) ∙ uint32_to_bytes-length i))

    pub same-pos_item :
        (i : ℕ) (x : Bytes)
        → IsItem x
        → same (pos_key keccak (init keccak p) x) (item_key keccak (init keccak p) i) ≡ false
    unfolding init
    same-pos_item i x sized = same-false _ _ (λ e.
        let (_, h) = field_cancel p.bytes 2 field_items _ _ e in
        sized (ap length h ∙ uint32_to_bytes-length i))

    pub same-item_count :
        (i : ℕ)
        → same (item_key keccak (init keccak p) i) (init keccak p).items_count_storage_key ≡ false
    unfolding init
    same-item_count i = same-false _ _ (λ e. absurd (
        let (h, _) = field_cancel p.bytes field_items 1 _ [] (e ∙ sym (append-nil _)) in
        ground (arith, h)))

    pub same-pos_count :
        (x : Bytes)
        → same (pos_key keccak (init keccak p) x) (init keccak p).items_count_storage_key ≡ false
    unfolding init
    same-pos_count x = same-false _ _ (λ e.
        absurd
          (let (h, _) = field_cancel p.bytes 2 1 _ [] (e ∙ sym (append-nil _)) in omega (arith, h)))

    pub same-count_item :
        (i : ℕ)
        → same (init keccak p).items_count_storage_key (item_key keccak (init keccak p) i) ≡ false
    unfolding init
    same-count_item i = same-false _ _ (λ e. absurd (
        let (h, _) = field_cancel p.bytes 1 field_items [] _ (append-nil _ ∙ e) in
        ground (arith, h)))

    pub same-count_pos :
        (x : Bytes)
        → same (init keccak p).items_count_storage_key (pos_key keccak (init keccak p) x) ≡ false
    unfolding init
    same-count_pos x = same-false _ _ (λ e.
        absurd (let (h, _) = field_cancel p.bytes 1 2 [] _ (append-nil _ ∙ e) in omega (arith, h)))
