-- ===== src/Infix.antt =====
-- parser/src/infix.rs: infix expressions are parsed as if every operator were right-associative with
-- the same precedence, and are then built again from the operators' fixities.
-- `Table` has the operators, `Reparse` the algorithm; the other modules prove what it builds.
pub mod Table
pub mod Decide
pub mod Reparse
pub mod Yields
pub mod Sound
pub mod Respects
pub mod Grouping
mod Tests
