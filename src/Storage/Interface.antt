-- ===== src/Storage/Interface.antt =====
-- What a collection relies on: keys that `keccak256.Hash` makes of bytes, and a storage that is read
-- and written at such keys (`StorageWrapper` of storage/storage.go).
use taraxa_evm.Prelude.{◌≡◌, ◌↔◌, Bool, true, if◌then◌else◌, Bytes}

-- keccak256, from a package that wraps a third-party hash: distinct inputs have distinct hashes.
pub record Keccak : Type 1 where
  pub Hash : Type 0
  pub hash : Bytes → Hash
  pub same : Hash → Hash → Bool
  pub same_iff : (h k : Hash) → (same h k ≡ true) ↔ (h ≡ k)
  pub hash_injective : (a b : Bytes) → hash a ≡ hash b → a ≡ b

-- A read gives `[]` where the callback is not called. `view` is what the storage stands for: a read
-- returns it and leaves it alone, and a write changes it at its key.
pub record Stor (keccak : Keccak) : Type 1 where
  pub State : Type 0
  pub IsCoherent : State → Type 0
  pub view : State → keccak.Hash → Bytes
  pub get : keccak.Hash → State → Bytes × State
  pub put : keccak.Hash → Bytes → State → State
  pub get_value : (k : keccak.Hash) (s : State) → IsCoherent s → (get k s).0 ≡ view s k
  pub get_view :
      (k : keccak.Hash) (s : State) (j : keccak.Hash) → IsCoherent s → view (get k s).1 j ≡ view s j
  pub get-IsCoherent : (k : keccak.Hash) (s : State) → IsCoherent s → IsCoherent (get k s).1
  pub put_view :
      (k : keccak.Hash) (v : Bytes) (s : State) (j : keccak.Hash)
      → IsCoherent s
      → view (put k v s) j ≡ (if keccak.same k j then v else view s j)
  pub put-IsCoherent :
      (k : keccak.Hash) (v : Bytes) (s : State) → IsCoherent s → IsCoherent (put k v s)
