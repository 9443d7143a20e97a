-- ===== src/Codegen.antt =====
-- compiler/codegen: the generator of LLVM code, over the LLVM library as a parameter.
pub mod Llvm
pub mod Gen
pub mod Types
pub mod Declare
pub mod Boxing
pub mod Scope
pub mod Insns
pub mod Constants
pub mod Casts
pub mod Structures
pub mod Terminators
pub mod Function
pub mod Package
pub mod Meaning
pub mod Interpreter
pub mod Jumps
pub mod Flow
pub mod Slots
pub mod Simulation
pub mod Selection
pub mod Labels
pub mod Declarations
pub mod Generator
