-- ===== src/Storage/IterableMap/Items.antt =====
-- `GetItems` of storage/iterable_map.go on the list that a map stands for.
use taraxa_evm.Prelude.{List}
use taraxa_evm.Storage.IterableMap.Represents.{Represents}
