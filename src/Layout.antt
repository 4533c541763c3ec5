-- ===== src/Layout.antt =====
-- parser/src/layout.rs: the layout algorithm, which puts block tokens between the tokens of a file.
-- `Tokens` has the tokens and their places, `Contexts` the indentation levels, `Stream` the reads
-- ahead, `Step` the parts of the loop of `layout_next_token`, and `Next` that function.
pub mod Tokens
pub mod Contexts
pub mod Stream
pub mod Step
pub mod Next
pub mod Source
pub mod Inserted
pub mod Parts
pub mod Rules
pub mod Rounds
pub mod Conserve
pub mod Rooted
pub mod Reads
pub mod Bases
pub mod Panics
mod Tests
