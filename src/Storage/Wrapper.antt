-- ===== src/Storage/Wrapper.antt =====
-- `StorageWrapper` of storage/storage.go over an account: writes go to the account's dirty entries
-- (`SetStateRawIrreversibly` of state_evm/account.go) and are read back through the cache alone,
-- since `GetAccountStorage` reads the committed database.
pub mod Laws
use taraxa_evm.Prelude.{
  ℕ, ◌≡◌, ◌↔◌, refl, Bool, true, false, if◌then◌else◌, Option, none, some, List, [], ◌∷◌, Bytes,
  arith, Bool-cases, Option-cases, inl, inr,
}
use taraxa_evm.Storage.Interface.{Keccak, Stor}

abbrev pub is_empty : Bytes → Bool
is_empty [] = true
is_empty (b ∷ bs) = false

abbrev pub or_else : Option Bytes → Bytes → Bytes
or_else none b = b
or_else (some a) b = a

module _ (keccak : Keccak) where
  open keccak use {Hash, same, same_iff}

  pub record StorageWrapper : Type 0 where
    pub cache : Hash → Option Bytes
    pub raw_storage_dirty : Hash → Option Bytes
    -- the account's storage trie, `[]` where there is no entry
    pub committed : Hash → Bytes

  abbrev pub assign {ℓ} : {A : Type ℓ} → Hash → A → (Hash → A) → Hash → A
  assign k v f j = if same k j then v else f j

  unfoldable pub get : Hash → StorageWrapper → Bytes × StorageWrapper
  get k s = elim (s.cache k) [
    | some val ↦ (val, s)
    | none ↦
        if is_empty (s.committed k)
        then ([], s)
        else (s.committed k, record s { cache = assign k (some (s.committed k)) s.cache })
  ]

  unfoldable pub put : Hash → Bytes → StorageWrapper → StorageWrapper
  put k v s = record s {
    cache = assign k (some v) s.cache;
    raw_storage_dirty = assign k (some v) s.raw_storage_dirty;
  }

  unfoldable pub clear_cache : StorageWrapper → StorageWrapper
  clear_cache s = record s { cache = λ k. none }

  -- The dirty entries of the account reach the database (`trie_sink.go`), an empty one as a removal.
  unfoldable pub commit : StorageWrapper → StorageWrapper
  commit s = record s {
    raw_storage_dirty = λ k. none;
    committed = λ k. or_else (s.raw_storage_dirty k) (s.committed k);
  }
