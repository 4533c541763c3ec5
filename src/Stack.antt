-- ===== src/Stack.antt =====
-- vm/src/stack.rs: the stack of the virtual machine, its frames and the locks on them.
-- `Data` has the stack and the frames, `Ops` the operations of `Stack`, `Frames` those of
-- `StackFrame`; the other modules prove what they keep.
pub mod Data
pub mod Ops
pub mod Frames
pub mod Valid
pub mod Pops
pub mod Scopes
pub mod Views
mod Tests
