-- ===== src/Reader.antt =====
-- compiler/reader: the BIR file reader, from the bytes of the file to the package.
pub mod Stream
pub mod Monad
pub mod Primitives
pub mod Wire
pub mod Pool
pub mod Insns
pub mod Block
pub mod Function
pub mod Package
pub mod Ensures
pub mod Kept
pub mod OperandWire
pub mod InsnWire
pub mod InsnParses
pub mod BlockRoundTrip
pub mod FunctionWire
pub mod FunctionRoundTrip
pub mod ModuleWire
pub mod ModuleRoundTrip
pub mod FileRoundTrip
