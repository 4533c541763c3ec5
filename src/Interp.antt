-- ===== src/Interp.antt =====
-- vm/src/thread.rs: the interpreter's loop over the instructions of a function.
pub mod Data
pub mod Arith
pub mod Objects
pub mod Access
pub mod Step
pub mod Heights
pub mod Moves
pub mod Reads
pub mod Rounds
pub mod Effects
pub mod Bounds
pub mod Calls
pub mod Loop
pub mod Layouts
pub mod Currying
pub mod Returns
mod Tests
