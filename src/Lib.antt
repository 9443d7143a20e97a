-- ===== src/Lib.antt =====
-- nballerina: the reader of BIR files, the generator of LLVM code and the map of the C runtime.
--
-- The compiler reads a binary BIR file (compiler/reader), builds a package of functions with basic
-- blocks (compiler/bir) and generates LLVM code (compiler/codegen), which calls the runtime
-- (runtime/c_rt) for its maps.
--
-- * Base has the tests, lists and machine words that all parts share; Run has the ways in which a run
--   ends without a result: a failed assert, abort, an uncaught exception, undefined behaviour.
-- * Bir is the model that the reader builds: Bir/TypeTag and Bir/Types are compiler/bir/Types.cpp,
--   Bir/Kinds the enumerations, Bir/Insn the instructions, Bir/Program the blocks, functions and
--   packages with their queries, Bir/Queries what the lookups by name return.
-- * Reader is compiler/reader. Reader/Stream and Reader/Primitives are BIRFileReader.cpp: the
--   std::ifstream is the list of the bytes not yet extracted, or no longer good, and a read that finds
--   too few bytes leaves the rest of its buffer as it was. Reader/Monad passes the stream on.
--   Reader/Pool is ConstantPool.cpp: Pool/Set the entries, Pool/Shape ShapeCpInfo::read with one
--   function for each case, Pool/Parts the classes that shapes consist of, Pool/Lookup the queries.
--   Reader/Insns and Reader/Block are BIRReadInsns.cpp and BIRReadBasicBlock.cpp, Reader/Function and
--   Reader/Package are BIRReadFunction.cpp and BIRReadPackage.cpp. Reader/Wire and the modules
--   Pool/*Wire describe the format of the pool as data, independently of the reader; Pool/RoundTrip
--   and Pool/Queries have the theorems on the pool, Reader/Kept those on the functions of a package.
--   Reader/OperandWire, Reader/InsnWire, Reader/FunctionWire and Reader/ModuleWire do the same for
--   operands, instructions, functions and modules; Reader/InsnParses, Reader/BlockRoundTrip,
--   Reader/FunctionRoundTrip, Reader/ModuleRoundTrip and Reader/FileRoundTrip are about reading them.
--   A reference into the pool is there an index with what the pool returns for it.
-- * Codegen is compiler/codegen. Codegen/Llvm is the LLVM library as the generator calls it, a
--   record of operations on an unknown state, over which all the rest is written; Codegen/Gen has
--   steps that change this state and may fail. Codegen/Types, Codegen/Declare and Codegen/Boxing
--   are CodeGenUtils.cpp: types, declarations of the runtime's functions, and the functions that
--   convert to and from values of any type, which are built with an IRBuilder of their own: the
--   insertion point of the one builder of the state is saved and restored around them.
--   Codegen/Scope has the lookups of FunctionCodeGen.cpp, with the maps of a FunctionCodeGen as a
--   record. Codegen/Insns has the visitors of operators and moves, Codegen/Constants those of
--   loads of constants, Codegen/Casts those of casts, Codegen/Structures those of arrays and maps,
--   and Codegen/Terminators those of terminators; Codegen/Function is FunctionCodeGen::visit and
--   BasicBlockCodeGen::visit, Codegen/Package PackageCodeGen.cpp. Codegen/Interpreter says what
--   instructions on ints, bytes and booleans mean, but for the division and the remainder of ints,
--   which the generator builds as unsigned ones; its binary operators are those of two ints, since
--   the generator has none for booleans and bytes but exclusive or. Codegen/Jumps goes on from
--   block to block. A variable without a value stops the interpreter. Codegen/Meaning and
--   Codegen/Flow have what LLVM's language reference says of the code that has been built, as
--   hypotheses, where a load of memory that has not been written gives a word that nothing
--   determines; Codegen/Simulation relates the two. Codegen/Slots is about the lookups of
--   variables, Codegen/Labels about those of blocks, Codegen/Selection about the choice of
--   instructions, Codegen/Declarations about the functions that are declared before any body is
--   translated. Codegen/Generator is CodeGenerator.cpp, over the target that the library was built
--   for.
-- * Driver is compiler/driver.cpp: the command line, with the files as a function from names to
--   contents. Driver/Paths is about removeExtension, Driver/Compile about the whole compiler.
-- * Runtime is runtime/c_rt: Runtime/Table is balmap.c with bal_string_equals and bal_string_hash of
--   common.h; View is the finite map that a table means; Probe and Insert are about the loops, Size
--   about the table that a capacity needs, Grow about growth and bal_map_insert, Spread about
--   map_spread_field_init.
--
-- Method names are the source's in snake case: ConstantPoolSet::getStringCp is get_string_cp. The
-- methods of a class that read a file into it are named after it: ShapeCpInfo::read is read_shape.
--
-- Bounds. Numbers that are read have the width of the source (int32, int64 on their bit
-- patterns); a double is its pattern. The reading host is little-endian, as the supported targets
-- are; the text of a read is there for hosts of both byte orders. The loop that sizes a table has
-- fuel for 62 rounds, more than 64 bits allow from 8. The mutual recursion of bal_map_insert and
-- bal_map_grow_hashtable has a depth. The float 0.6f is 10066330 / 2 ^ 24.
--
-- Not modelled: the Rust runtime; allocation failures; the random part of the name of an unnamed
-- type, which is `anonymous`; a map that is spread into itself; the header tag of a map, which
-- the map's functions do not read; restParam, which nothing sets. A cast of a pool entry to a
-- class that is not its own is undefined, and ends the run here.
pub mod Base
pub mod Bir
pub mod Codegen
pub mod Driver
pub mod Reader
pub mod Run
pub mod Runtime
mod Tests
