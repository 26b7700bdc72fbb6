-- ===== src/Vm/Ops.antt =====
-- The instructions (core/vm/instructions.go and opMcopy of core/vm/eips.go). Each returns the bytes
-- that Go returns, `[]` for nil.
pub mod Arithmetic
pub mod Environment
pub mod Storage
pub mod Control
pub mod Calls
