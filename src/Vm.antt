-- ===== src/Vm.antt =====
-- The virtual machine (core/vm).
pub mod Env
pub mod Machine
pub mod Stack
pub mod Common
pub mod Memory
pub mod MemorySize
pub mod Gas
pub mod Jumpdest
pub mod Ops
pub mod OpCode
pub mod JumpTable
pub mod Interpreter
pub mod Transaction
pub mod Effect
pub mod Laws
mod Sample
mod Tests
