-- ===== src/Vm/Laws/Jumps.antt =====
-- The analysis of jump destinations against a walk over the code (core/vm/analysis.go).
use taraxa_evm.Prelude.{
  ℕ, zero, suc, ◌+◌, ◌-◌, ◌/◌, ◌%◌, ◌^◌, ◌<◌, ◌≡◌, refl, ap, ◌∙◌, sym, Bool, true, false, ◌&&◌,
  Bytes, [], ◌∷◌, length, arith, ltb, leb, ◌==◌, if◌then◌else◌, ==→eq, ==→ne, ltb→lt, Bool-cases,
  inl, inr, subst,
}
use Prim.Native.Nat.{bit_and, bit_or}
use taraxa_evm.Vm.Jumpdest.{or_at, set_bit, set8, byte_at, code_segment}

abbrev pub all_below : ℕ → (ℕ → Bool) → Bool
all_below zero f = true
all_below (suc n) f = f n && all_below n f

pub all_below-true : (n : ℕ) (f : ℕ → Bool) (i : ℕ) → all_below n f ≡ true → i < n → f i ≡ true
all_below-true zero f i h l = absurd (omega arith)
all_below-true (suc n) f i h l = elim (Bool-cases (i == n)) [
  | inl e ↦ subst (λ k. f k ≡ true) (sym (==→eq i n e)) (ground (arith, h))
  | inr e ↦ all_below-true n f i (ground (arith, h)) (ground (arith, ==→ne i n e, l))
]

-- Whether a bit of a byte is clear, the most significant first.
abbrev pub clear : ℕ → ℕ → Bool
clear b j = bit_and b (128 / 2 ^ j) == 0

-- A mask sets the bits that `hit` names, for every byte.
abbrev hits : (mask : ℕ → ℕ) → (hit : ℕ → ℕ → Bool) → (b i j : ℕ) → Bool
hits mask hit b i j =
    ltb (bit_or b (mask i)) 256
    && (if clear (bit_or b (mask i)) j
        then (if hit i j then false else clear b j)
        else (if hit i j then true else (if clear b j then false else true)))

unfoldable table : (ℕ → ℕ) → (ℕ → ℕ → Bool) → Bool
table mask hit = all_below 256 (λ b. all_below 8 (λ i. all_below 8 (λ j. hits mask hit b i j)))

abbrev one_bit : ℕ → ℕ
one_bit i = 128 / 2 ^ i

abbrev high_bits : ℕ → ℕ
high_bits i = 255 / 2 ^ i

abbrev low_bits : ℕ → ℕ
low_bits i = 255 - 255 / 2 ^ i

one_bit-table : table one_bit (λ i j. i == j) ≡ true
unfolding table
one_bit-table = refl

high_bits-table : table high_bits (λ i j. leb i j) ≡ true
unfolding table
high_bits-table = refl

low_bits-table : table low_bits (λ i j. ltb j i) ≡ true
unfolding table
low_bits-table = refl

agree :
    (small now hit before : Bool)
    → small
        && (if now
            then (if hit then false else before)
            else (if hit then true else (if before then false else true)))
      ≡ true
    → (small ≡ true) × (now ≡ (if hit then false else before))
agree small now hit before h = ground (arith, h)

hits-table :
    (mask : ℕ → ℕ) (hit : ℕ → ℕ → Bool) (b i j : ℕ)
    → table mask hit ≡ true
    → b < 256
    → i < 8
    → j < 8
    → (bit_or b (mask i) < 256)
      × (clear (bit_or b (mask i)) j ≡ (if hit i j then false else clear b j))
unfolding table
hits-table mask hit b i j t hb hi hj = read (
    all_below-true 8 (hits mask hit b i) j
      (all_below-true 8 (λ x. all_below 8 (hits mask hit b x)) i
        (all_below-true 256 (λ x. all_below 8 (λ y. all_below 8 (hits mask hit x y))) b t hb) hi)
      hj)
  where
    read :
        hits mask hit b i j ≡ true
        → (bit_or b (mask i) < 256)
          × (clear (bit_or b (mask i)) j ≡ (if hit i j then false else clear b j))
    read h =
        let parts =
          agree (ltb (bit_or b (mask i)) 256) (clear (bit_or b (mask i)) j) (hit i j) (clear b j)
            h in
        (ltb→lt (bit_or b (mask i)) 256 (parts.0), parts.1)

or_at-byte :
    (bits : Bytes) (k mask q : ℕ)
    → k < length bits
    → (length (or_at bits k mask) ≡ length bits)
      × (byte_at (or_at bits k mask) q
          ≡ (if q == k then bit_or (byte_at bits k) mask else byte_at bits q))
unfolding or_at
or_at-byte [] k mask q h = absurd (omega arith)
or_at-byte (b ∷ bs) zero mask zero h = ground arith
or_at-byte (b ∷ bs) zero mask (suc q) h = ground arith
or_at-byte (b ∷ bs) (suc k) mask zero h = ground (arith, or_at-byte bs k mask 0)
or_at-byte (b ∷ bs) (suc k) mask (suc q) h = ground (arith, or_at-byte bs k mask q)

-- All entries are bytes.
abbrev pub AreBytes : Bytes → Type 0
AreBytes bits = (k : ℕ) → byte_at bits k < 256

or_at-clear :
    (mask : ℕ → ℕ) (hit : ℕ → ℕ → Bool) (bits : Bytes) (k i q : ℕ)
    → table mask hit ≡ true
    → AreBytes bits
    → k < length bits
    → i < 8
    → code_segment (or_at bits k (mask i)) q
      ≡ (if (q / 8 == k) && hit i (q % 8) then false else code_segment bits q)
unfolding code_segment
or_at-clear mask hit bits k i q t bytes inside hi = elim (Bool-cases (q / 8 == k)) [
  | inl e ↦ there e
  | inr e ↦ ground (arith, e, ap (λ b. clear b (q % 8)) (elsewhere e))
]
  where
    elsewhere :
        (q / 8 == k) ≡ false → byte_at (or_at bits k (mask i)) (q / 8) ≡ byte_at bits (q / 8)
    elsewhere e = ground (arith, e, or_at-byte bits k (mask i) (q / 8) inside)

    changed :
        (q / 8 == k) ≡ true
        → byte_at (or_at bits k (mask i)) (q / 8) ≡ bit_or (byte_at bits k) (mask i)
    changed e = ground (arith, e, or_at-byte bits k (mask i) (q / 8) inside)

    there :
        (q / 8 == k) ≡ true
        → clear (byte_at (or_at bits k (mask i)) (q / 8)) (q % 8)
          ≡ (if (q / 8 == k) && hit i (q % 8) then false else clear (byte_at bits (q / 8)) (q % 8))
    there e = ground (
      arith,
      e,
      ap (λ b. clear b (q % 8)) (changed e),
      hits-table mask hit (byte_at bits k) i (q % 8) t (bytes k) hi (omega arith),
      ap (λ x. clear (byte_at bits x) (q % 8)) (==→eq (q / 8) k e),
    )

or_at-AreBytes :
    (mask : ℕ → ℕ) (hit : ℕ → ℕ → Bool) (bits : Bytes) (k i : ℕ)
    → table mask hit ≡ true
    → AreBytes bits
    → k < length bits
    → i < 8
    → AreBytes (or_at bits k (mask i))
or_at-AreBytes mask hit bits k i t bytes inside hi q = ground (
  arith,
  or_at-byte bits k (mask i) q inside,
  bytes q,
  (hits-table mask hit (byte_at bits k) i 0 t (bytes k) hi (omega arith)).0,
)

-- What is known of a bit vector on the way: its length, its entries, and which bits are clear.
abbrev pub Marked : (from to : ℕ) → (bits marked : Bytes) → Type 0
Marked from to bits marked =
    (length marked ≡ length bits)
    × AreBytes marked
    × ((q : ℕ)
        → code_segment marked q ≡ (if leb from q && ltb q to then false else code_segment bits q))

pub set_bit-Marked :
    (bits : Bytes) (pos : ℕ)
    → AreBytes bits
    → pos / 8 < length bits
    → Marked pos (pos + 1) bits (set_bit bits pos)
unfolding set_bit
set_bit-Marked bits pos bytes inside = (
  (or_at-byte bits (pos / 8) (one_bit (pos % 8)) 0 inside).0,
  or_at-AreBytes one_bit (λ i j. i == j) bits (pos / 8) (pos % 8) one_bit-table bytes inside
      (omega arith),
  λ q. ground (
    arith,
    or_at-clear one_bit (λ i j. i == j) bits (pos / 8) (pos % 8) q one_bit-table bytes inside,
  ),
)

pub set8-Marked :
    (bits : Bytes) (pos : ℕ)
    → AreBytes bits
    → pos / 8 + 1 < length bits
    → Marked pos (pos + 8) bits (set8 bits pos)
unfolding set8
set8-Marked bits pos bytes inside =
    let high = or_at bits (pos / 8) (high_bits (pos % 8)) in
    let same = or_at-byte bits (pos / 8) (high_bits (pos % 8)) 0 (omega (arith, inside)) in
    let bytes' =
      or_at-AreBytes high_bits (λ i j. leb i j) bits (pos / 8) (pos % 8) high_bits-table bytes
        (omega (arith, inside)) (omega arith) in
    (
      (or_at-byte high (pos / 8 + 1) (low_bits (pos % 8)) 0 (omega (arith, inside, same.0))).0
          ∙ same.0,
      or_at-AreBytes low_bits (λ i j. ltb j i) high (pos / 8 + 1) (pos % 8) low_bits-table bytes'
          (omega (arith, inside, same.0)) (omega arith),
      λ q. ground (
        arith,
        or_at-clear high_bits (λ i j. leb i j) bits (pos / 8) (pos % 8) q high_bits-table bytes
            (omega (arith, inside)) (omega arith),
        or_at-clear low_bits (λ i j. ltb j i) high (pos / 8 + 1) (pos % 8) q low_bits-table bytes'
            (omega (arith, inside, same.0)) (omega arith),
      ),
    )
