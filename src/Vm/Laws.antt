-- ===== src/Vm/Laws.antt =====
-- What single parts of the virtual machine compute.
pub mod Reverting
pub mod ReadOnly
pub mod Prices
pub mod Slices
pub mod Jumps
pub mod PushData
pub mod JumpWalk
pub mod Wrapping
