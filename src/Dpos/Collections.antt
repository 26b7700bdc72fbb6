-- ===== src/Dpos/Collections.antt =====
-- The lists of addresses and numbers that the iterable maps of the contract stand for
-- (`AddressesIMap` and `IdsIMap` of taraxa/state/contracts/storage).
use taraxa_evm.Prelude.{
  ℕ, suc, Bool, false, ◌||◌, ◌==◌, if◌then◌else◌, Option, none, some, List, [], ◌∷◌, ◌++◌,
}
use taraxa_evm.Storage.IterableMap.Model.{swap_remove}

-- The lists that `AddressesIMap` and `IdsIMap` stand for.
unfoldable pub exists_in : ℕ → List ℕ → Bool
exists_in a [] = false
exists_in a (x ∷ xs) = a == x || exists_in a xs

unfoldable pub index_in : ℕ → List ℕ → ℕ
index_in a [] = 0
index_in a (x ∷ xs) = let rest = index_in a xs in if a == x then 0 else suc rest

unfoldable pub last_or : ℕ → List ℕ → ℕ
last_or a [] = a
last_or a (x ∷ xs) = last_or x xs

-- An item that exists panics.
unfoldable pub create_in : ℕ → List ℕ → Option (List ℕ)
create_in a xs = if exists_in a xs then none else some (xs ++ (a ∷ []))

-- An item that does not exist panics; the last one takes its place.
unfoldable pub remove_in : ℕ → List ℕ → Option (List ℕ)
remove_in a xs =
    if exists_in a xs then some (swap_remove xs (index_in a xs) (last_or a xs)) else none
