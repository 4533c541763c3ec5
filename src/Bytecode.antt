-- ===== src/Bytecode.antt =====
-- vm/src/types.rs and vm/src/compiler.rs: the instructions, and how the compiler emits them for one
-- function.
pub mod Instructions
pub mod Function
pub mod Tables
pub mod Emitter
pub mod Variables
pub mod Effects
pub mod Sizes
pub mod Bounds
pub mod Emissions
pub mod LineTable
pub mod Constants
pub mod Scopes
mod Tests
