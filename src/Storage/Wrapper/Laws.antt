-- ===== src/Storage/Wrapper/Laws.antt =====
-- What a storage wrapper (storage/storage.go) stands for: the account's dirty entries over its
-- committed ones, through sequences of reads, writes and committed blocks.
use taraxa_evm.Prelude.{◌≡◌, refl, sym, ap, ◌∙◌, true, if◌then◌else◌, List, [], ◌∷◌, Bytes, arith}
use taraxa_evm.Storage.Interface.{Keccak, Stor}
use taraxa_evm.Storage.Wrapper.{StorageWrapper, get, put, clear_cache, commit, or_else, is_empty}

module _ (keccak : Keccak) where
  open keccak use {Hash, same}

  abbrev pub cached : StorageWrapper keccak → Hash → Bytes
  cached s k = or_else (s.cache k) (s.committed k)

  abbrev pub current : StorageWrapper keccak → Hash → Bytes
  current s k = or_else (s.raw_storage_dirty k) (s.committed k)

  abbrev pub IsCoherent : StorageWrapper keccak → Type 0
  IsCoherent s = (k : Hash) → cached s k ≡ current s k

  empty_eq : (b : Bytes) → is_empty b ≡ true → b ≡ []
  empty_eq [] h = refl
  empty_eq (b ∷ bs) h = cc

  pub get_cached : (k : Hash) (s : StorageWrapper keccak) → (get keccak k s).0 ≡ cached s k
  unfolding get
  get_cached k s = ground (arith, empty_eq (s.committed k))

  pub cached-get :
      (k : Hash) (s : StorageWrapper keccak) (j : Hash) → cached (get keccak k s).1 j ≡ cached s j
  unfolding get
  cached-get k s j = ground (arith, (keccak.same_iff k j).0)

  pub current-get :
      (k : Hash) (s : StorageWrapper keccak) (j : Hash) → current (get keccak k s).1 j ≡ current s j
  unfolding get
  current-get k s j = ground arith

  pub cached-put :
      (k : Hash) (v : Bytes) (s : StorageWrapper keccak) (j : Hash)
      → cached (put keccak k v s) j ≡ (if same k j then v else cached s j)
  unfolding put
  cached-put k v s j = ground arith

  pub current-put :
      (k : Hash) (v : Bytes) (s : StorageWrapper keccak) (j : Hash)
      → current (put keccak k v s) j ≡ (if same k j then v else current s j)
  unfolding put
  current-put k v s j = ground arith

  pub get-IsCoherent :
      (k : Hash) (s : StorageWrapper keccak) → IsCoherent s → IsCoherent (get keccak k s).1
  get-IsCoherent k s h j = cached-get k s j ∙ h j ∙ sym (current-get k s j)

  pub put-IsCoherent :
      (k : Hash) (v : Bytes) (s : StorageWrapper keccak)
      → IsCoherent s
      → IsCoherent (put keccak k v s)
  put-IsCoherent k v s h j = ground (arith, cached-put k v s j, current-put k v s j, h j)

  -- `CommitCall` after the state transition wrote the account: the cache is dropped.
  pub end_block : StorageWrapper keccak → StorageWrapper keccak
  end_block s = clear_cache keccak (commit keccak s)

  pub end_block-IsCoherent : (s : StorageWrapper keccak) → IsCoherent (end_block s)
  unfolding end_block clear_cache commit
  end_block-IsCoherent s k = refl

  pub current-end_block :
      (s : StorageWrapper keccak) (k : Hash) → current (end_block s) k ≡ current s k
  unfolding end_block clear_cache commit
  current-end_block s k = refl

  -- What the contracts do with their storage, in any order.
  pub data Step : Type 0 where
    read : Hash → Step
    write : Hash → Bytes → Step
    block_end : Step

  pub run_steps : List Step → StorageWrapper keccak → StorageWrapper keccak
  run_steps [] s = s
  run_steps (read k ∷ steps) s = run_steps steps (get keccak k s).1
  run_steps (write k v ∷ steps) s = run_steps steps (put keccak k v s)
  run_steps (block_end ∷ steps) s = run_steps steps (end_block s)

  -- The same with one map in place of the cache, the dirty entries and the database.
  pub run_map : List Step → (Hash → Bytes) → Hash → Bytes
  run_map [] f = f
  run_map (read k ∷ steps) f = run_map steps f
  run_map (write k v ∷ steps) f = run_map steps (λ j. if same k j then v else f j)
  run_map (block_end ∷ steps) f = run_map steps f

  shows :
      (steps : List Step) (s : StorageWrapper keccak) (f : Hash → Bytes) (k : Hash)
      → IsCoherent s
      → ((j : Hash) → current s j ≡ f j)
      → cached (run_steps steps s) k ≡ run_map steps f k
  unfolding run_steps run_map
  shows [] s f k h e = h k ∙ e k
  shows (read j ∷ steps) s f k h e =
      shows steps (get keccak j s).1 f k (get-IsCoherent j s h) (λ i. current-get j s i ∙ e i)
  shows (write j v ∷ steps) s f k h e =
      shows steps (put keccak j v s) (λ i. if same j i then v else f i) k (put-IsCoherent j v s h)
        (λ i. current-put j v s i ∙ ap (λ r. if same j i then v else r) (e i))
  shows (block_end ∷ steps) s f k h e =
      shows steps (end_block s) f k (end_block-IsCoherent s) (λ i. current-end_block s i ∙ e i)

  -- From a wrapper whose cache agrees with the account's storage, a read after any sequence of
  -- reads, writes and ends of blocks returns the bytes that the same writes leave at that key in a
  -- single map, which starts as the account's storage.
  pub get-run_steps :
      (steps : List Step) (s : StorageWrapper keccak) (k : Hash)
      → IsCoherent s
      → (get keccak k (run_steps steps s)).0 ≡ run_map steps (current s) k
  get-run_steps steps s k h =
      get_cached k (run_steps steps s) ∙ shows steps s (current s) k h (λ j. refl)

  -- The wrapper as the storage that the collections use.
  abbrev pub wrapper_stor : Stor keccak
  wrapper_stor = record {
    State = StorageWrapper keccak;
    IsCoherent = IsCoherent;
    view = cached;
    get = get keccak;
    put = put keccak;
    get_value = λ k s h. get_cached k s;
    get_view = λ k s j h. cached-get k s j;
    get-IsCoherent = get-IsCoherent;
    put_view = λ k v s j h. cached-put k v s j;
    put-IsCoherent = put-IsCoherent;
  }
