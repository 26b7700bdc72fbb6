-- ===== src/Storage.antt =====
-- The collections that the contracts keep in their account's storage (taraxa/state/contracts/storage)
-- and the number encodings they use (taraxa/util/bin).
pub mod Codec
pub mod Interface
pub mod Wrapper
pub mod IterableMap
mod Sample
mod Tests
