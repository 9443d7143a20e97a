-- ===== src/Bir/Program.antt =====
-- compiler/bir: variables, basic blocks, functions and packages, and the queries on them.
use nballerina_cpp.Base.{
  ℕ, Bool, Option, none, some, List, [], ◌∷◌, ◌++◌, ◌==◌, if◌then◌else◌, bytes_eq, ℤ,
}
use nballerina_cpp.Run.{not_found, Run, ok, fault}
use nballerina_cpp.Bir.Types.{BalType}
use nballerina_cpp.Bir.Kinds.{VarKind, is_global, is_arg}
use nballerina_cpp.Bir.Insn.{Operand, NonTerminatorInsn, TerminatorInsn}
use Prim.Native.Nat.{bit_and}

-- compiler/include/bir/Location.h: the constructor's arguments in their order.
pub record Location : Type 0 where
  pub file_name : List ℕ
  pub s_line : ℤ
  pub s_col : ℤ
  pub e_line : ℤ
  pub e_col : ℤ

unfoldable pub new_location : List ℕ → ℤ → ℤ → ℤ → ℤ → Location
new_location name sline scol eline ecol = record {
  file_name = name;
  s_line = sline;
  s_col = scol;
  e_line = eline;
  e_col = ecol;
}

pub record Variable : Type 0 where
  pub type_of : BalType
  pub name : List ℕ
  pub kind : VarKind

-- `Variable::isParamter`
unfoldable pub is_paramter : Variable → Bool
unfolding is_arg
is_paramter v = is_arg v.kind

pub record FunctionParam : Type 0 where
  pub operand : Operand
  pub type_of : BalType

-- The pointer to the parent function is left out: the function is at hand wherever it is used.
pub record BasicBlock : Type 0 where
  pub id : List ℕ
  pub terminator : Option TerminatorInsn
  pub instructions : List NonTerminatorInsn

unfoldable pub new_basic_block : List ℕ → BasicBlock
new_basic_block id' = record { id = id'; terminator = none; instructions = [] }

unfoldable pub set_terminator_insn : TerminatorInsn → BasicBlock → BasicBlock
set_terminator_insn insn bb = record bb { terminator = some insn }

unfoldable pub add_non_term_insn : NonTerminatorInsn → BasicBlock → BasicBlock
add_non_term_insn insn bb = record bb { instructions = bb.instructions ++ (insn ∷ []) }

-- `flags` is the pattern of an `unsigned int`. `restParam` is left out: nothing ever sets it.
pub record BirFunction : Type 0 where
  pub location : Location
  pub name : List ℕ
  pub worker_name : List ℕ
  pub flags : ℕ
  pub return_var : Option Variable
  pub local_vars : List Variable
  pub basic_blocks : List BasicBlock
  pub required_params : List FunctionParam

pub record BirPackage : Type 0 where
  pub org : List ℕ
  pub name : List ℕ
  pub version : List ℕ
  pub source_file_name : List ℕ
  pub global_vars : List Variable
  pub functions : List BirFunction

-- `std::find_if` over variables, with the `assert` that it finds one.
unfoldable pub find_variable : List ℕ → List Variable → Run Variable
find_variable name' [] = fault not_found
find_variable name' (v ∷ vs) = if bytes_eq v.name name' then ok v else find_variable name' vs

unfoldable pub get_local_variable : BirFunction → List ℕ → Run Variable
unfolding find_variable
get_local_variable f name' = find_variable name' f.local_vars

unfoldable pub get_global_variable : BirPackage → List ℕ → Run Variable
unfolding find_variable
get_global_variable p name' = find_variable name' p.global_vars

unfoldable pub get_local_or_global_variable : BirPackage → BirFunction → Operand → Run Variable
unfolding is_global
get_local_or_global_variable p f op =
    if is_global op.kind then get_global_variable p op.name else get_local_variable f op.name

find_function : List ℕ → List BirFunction → Run BirFunction
find_function name' [] = fault not_found
find_function name' (f ∷ fs) = if bytes_eq f.name name' then ok f else find_function name' fs

unfoldable pub get_function : BirPackage → List ℕ → Run BirFunction
unfolding find_function
get_function p name' = find_function name' p.functions

unfoldable pub get_module_name : BirPackage → List ℕ
get_module_name p = p.org ++ (p.name ++ p.version)

-- The bytes of `main`.
unfoldable pub is_main_function : BirFunction → Bool
is_main_function f = bytes_eq f.name (109 ∷ 97 ∷ 105 ∷ 110 ∷ [])

-- `NATIVE` is the second bit.
unfoldable pub is_external_function : BirFunction → Bool
is_external_function f = bit_and f.flags 2 == 2
