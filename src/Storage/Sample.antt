-- ===== src/Storage/Sample.antt =====
-- A hash without collisions, the identity, and storages of two addresses for the tests.
use taraxa_evm.Prelude.{
  ℕ, zero, suc, sym, subst, ◌≡◌, ◌≢◌, ◌↔◌, refl, Bool, true, false, ◌&&◌, ◌==◌, Option, none, some,
  [], ◌∷◌, Bytes, get_elem?, inl, arith,
}
use taraxa_evm.Storage.Interface.{Keccak, Stor}
use taraxa_evm.Storage.Wrapper.{StorageWrapper}
use taraxa_evm.Storage.Wrapper.Laws.{wrapper_stor, IsCoherent}
use taraxa_evm.Storage.IterableMap.{Slice, create_item, init}
use taraxa_evm.Storage.IterableMap.Represents.{Holds}
use taraxa_evm.Storage.IterableMap.Create.{create_item-Holds}

abbrev pub bytes_eq : Bytes → Bytes → Bool
bytes_eq [] [] = true
bytes_eq [] (b ∷ v) = false
bytes_eq (a ∷ u) [] = false
bytes_eq (a ∷ u) (b ∷ v) = (a == b) && bytes_eq u v

bytes_eq-eq : (a b : Bytes) → bytes_eq a b ≡ true → a ≡ b
bytes_eq-eq [] [] h = refl
bytes_eq-eq [] (b ∷ v) h = cc
bytes_eq-eq (a ∷ u) [] h = cc
bytes_eq-eq (a ∷ u) (b ∷ v) h = ground (arith, bytes_eq-eq u v)

bytes_eq_self : (a : Bytes) → bytes_eq a a ≡ true
bytes_eq_self [] = refl
bytes_eq_self (a ∷ u) = ground (arith, bytes_eq_self u)

pub same_lem : (a b : Bytes) → (bytes_eq a b ≡ true) ↔ (a ≡ b)
same_lem a b = (bytes_eq-eq a b, λ e. rw e (bytes_eq_self b))

abbrev pub keccak : Keccak
keccak = record {
  Hash = Bytes;
  hash = λ b. b;
  same = bytes_eq;
  same_iff = same_lem;
  hash_injective = λ a b e. e;
}

abbrev pub stor : Stor keccak
stor = wrapper_stor keccak

abbrev pub blank : StorageWrapper keccak
blank = record { cache = λ k. none; raw_storage_dirty = λ k. none; committed = λ k. [] }

pub blank-IsCoherent : IsCoherent keccak blank
blank-IsCoherent k = refl

-- the prefix of the validators' list, which `append` gives room for eight bytes
abbrev pub prefix : Slice
prefix = record { bytes = 0 ∷ 5 ∷ []; capacity = 8 }

pub blank-Holds : Holds keccak stor prefix blank []
unfolding init
blank-Holds = (
  blank-IsCoherent,
  record {
    counted = refl;
    item_at = λ i x e. cc;
    pos_of = λ i x e. cc;
    absent = λ x h. inl refl;
    not_empty = λ i x e. cc;
    sized = λ i x e. cc;
    bounded = omega arith;
  },
)

abbrev pub state_of : Option (ℕ × StorageWrapper keccak) → StorageWrapper keccak
state_of none = blank
state_of (some (n, s)) = s

abbrev pub one : StorageWrapper keccak
one = state_of (create_item keccak stor (init keccak prefix) (9 ∷ []) blank)

one-Holds : Holds keccak stor prefix one ((9 ∷ []) ∷ [])
one-Holds =
    let (s, e, h) =
      create_item-Holds keccak stor prefix blank [] (9 ∷ []) blank-Holds (λ i. cc) refl
        (omega arith) (omega arith) in
    subst (λ o. Holds keccak stor prefix (state_of o) ((9 ∷ []) ∷ [])) (sym e) h

-- the storage with the items 9 and 8
abbrev pub two : StorageWrapper keccak
two = state_of (create_item keccak stor (init keccak prefix) (8 ∷ []) one)

pub two-Holds : Holds keccak stor prefix two ((9 ∷ []) ∷ (8 ∷ []) ∷ [])
two-Holds =
    let (s, e, h) =
      create_item-Holds keccak stor prefix one ((9 ∷ []) ∷ []) (8 ∷ []) one-Holds fresh refl
        (omega arith) (omega arith) in
    subst (λ o. Holds keccak stor prefix (state_of o) ((9 ∷ []) ∷ (8 ∷ []) ∷ [])) (sym e) h
  where
    fresh : (i : ℕ) → get_elem? {A = Bytes} ((9 ∷ []) ∷ []) i ≢ some (8 ∷ [])
    fresh zero = λ e. ground arith
    fresh (suc i) = λ e. cc
