-- ===== src/Bir.antt =====
-- compiler/bir and compiler/include/bir: the BIR model that the reader builds.
pub mod TypeTag
pub mod Types
pub mod Kinds
pub mod Insn
pub mod Program
pub mod Queries
