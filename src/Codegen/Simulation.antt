-- ===== src/Codegen/Simulation.antt =====
-- compiler/codegen: the code of functions on ints, bytes and booleans, against their meaning.
pub mod Variables
pub mod Constants
pub mod Operators
pub mod Blocks
pub mod Functions
pub mod Branches
pub mod Defined
pub mod Translation
pub mod Entry
pub mod Graphs
pub mod Executions
