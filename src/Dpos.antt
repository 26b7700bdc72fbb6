-- ===== src/Dpos.antt =====
-- The contract that keeps validators, delegations and rewards
-- (taraxa/state/contracts/dpos/precompiled).
pub mod State
pub mod Votes
pub mod Collections
pub mod Validators
pub mod Delegations
pub mod Undelegations
pub mod Rewards
pub mod Stake
pub mod Redelegate
pub mod Registry
pub mod Run
pub mod Errors
pub mod Stuck
pub mod Meets
pub mod Accounts
mod Sample
mod Tests
