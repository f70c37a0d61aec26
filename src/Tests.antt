-- ===== src/Tests.antt =====
-- Concrete inputs for the theorems, and runs of the definitions.
mod Repetitions
mod Tables
mod Trees
mod Cursors
pub mod Stacks
mod Texts
mod Walks
pub mod Parsers
mod Reductions
mod Queries
