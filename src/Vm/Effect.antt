-- ===== src/Vm/Effect.antt =====
-- What an instruction does to the height of the stack and to the gas, and the faults that it does
-- not end in.
pub mod Rules
pub mod Values
pub mod Moves
pub mod Nested
pub mod Prices
pub mod Table
pub mod Validate
pub mod Execute
pub mod Charge
pub mod Reach
pub mod Round
pub mod Decoded
pub mod Termination
pub mod Fees
