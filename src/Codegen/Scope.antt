-- ===== src/Codegen/Scope.antt =====
-- compiler/codegen/FunctionCodeGen.cpp: the names that are known inside a function.
use nballerina_cpp.Base.{
  ℕ, false, not, Option, none, some, List, [], ◌∷◌, ◌++◌, if◌then◌else◌, bytes_eq, codes,
}
use nballerina_cpp.Bir.Insn.{Operand}
use nballerina_cpp.Bir.Kinds.{is_global}
use nballerina_cpp.Bir.Program.{Variable, BirFunction, is_main_function}
use nballerina_cpp.Codegen.Llvm.{Llvm}
use nballerina_cpp.Codegen.Gen.{Gen, pure, call, gets, deref, ◌>>=◌, ◌>>◌, check}
use nballerina_cpp.Codegen.Types.{is_none, get_llvm_type_of_type}

-- `std::map<std::string, …>` as its entries, the one that counts first.
unfoldable pub lookup : {A : Type 0} → List ℕ → List (List ℕ × A) → Option A
lookup name' [] = none
lookup name' ((k, a) ∷ es) = if bytes_eq k name' then some a else lookup name' es

-- The maps of a `FunctionCodeGen`. A variable's first entry stays, a block's last one counts.
pub record FunctionCodeGen (L : Llvm) : Type 0 where
  pub basic_blocks_map : List (List ℕ × L.Block)
  pub local_var_refs : List (List ℕ × L.Value)
  pub llvm_function : L.Func

module _ (L : Llvm) where
  unfoldable pub get_basic_block : FunctionCodeGen L → List ℕ → Option L.Block
  get_basic_block fg id' = lookup id' fg.basic_blocks_map

  unfoldable pub get_local_val : FunctionCodeGen L → List ℕ → Option L.Value
  get_local_val fg name' = lookup name' fg.local_var_refs

  unfoldable pub get_global_val : List ℕ → Gen L.State (Option L.Value)
  get_global_val name' = do
    variable ← gets (L.get_global_variable name' false)
    check (not (is_none variable))
    pure variable

  unfoldable pub get_local_or_global_val :
      FunctionCodeGen L → Operand → Gen L.State (Option L.Value)
  unfolding get_global_val
  get_local_or_global_val fg op =
      if is_global op.kind then get_global_val op.name else pure (get_local_val fg op.name)

  unfoldable pub create_temp_val : FunctionCodeGen L → Operand → Gen L.State L.Value
  create_temp_val fg op = do
    variable ← get_local_or_global_val fg op
    pointer ← deref variable
    call (L.create_load pointer (op.name ++ codes "_temp"))

  -- A store through a pointer that a lookup returned.
  unfoldable pub store_to : L.Value → Option L.Value → Gen L.State (Unit {0})
  store_to value lhs_ref = do
    pointer ← deref lhs_ref
    _ ← call (L.create_store value pointer)
    pure tt

  -- The `assert` that there is a return variable.
  unfoldable pub return_variable : BirFunction → Gen L.State Variable
  return_variable f = do check (not (is_none f.return_var)); deref f.return_var

  unfoldable pub get_ret_val_type : BirFunction → Gen L.State L.Ty
  get_ret_val_type f =
      if is_main_function f
      then pure L.void_ty
      else (return_variable f >>= λ v. get_llvm_type_of_type L v.type_of.tag)
