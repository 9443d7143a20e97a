-- ===== src/Codegen/Package.antt =====
-- compiler/codegen/PackageCodeGen.cpp: the module of a package.
use nballerina_cpp.Base.{
  ℕ, ◌+◌, ◌%◌, Bool, true, false, ◌&&◌, ◌||◌, not, none, some, List, [], ◌∷◌, ◌++◌, map, ltb, ◌==◌,
  if◌then◌else◌, bytes_eq, codes, length, concat_map,
}
use nballerina_cpp.Bir.Program.{
  Variable, FunctionParam, BirFunction, BirPackage, is_external_function,
}
use nballerina_cpp.Run.{unreachable}
use nballerina_cpp.Codegen.Llvm.{external_linkage, internal_linkage, Llvm}
use nballerina_cpp.Codegen.Gen.{
  Gen, pure, fail, call, gets, ◌>>=◌, ◌>>◌, perform, check, each, collect,
}
use nballerina_cpp.Codegen.Types.{get_llvm_type_of_type}
use nballerina_cpp.Codegen.Scope.{get_ret_val_type}
use nballerina_cpp.Codegen.Function.{visit_function}

-- `std::map<std::string, std::vector<llvm::Value *>>`, in the order of the keys.
unfoldable pub bytes_lt : List ℕ → List ℕ → Bool
bytes_lt [] [] = false
bytes_lt [] (b ∷ bs) = true
bytes_lt (a ∷ as') [] = false
bytes_lt (a ∷ as') (b ∷ bs) = ltb a b || (a == b && bytes_lt as' bs)

unfoldable pub push_use :
    {A : Type 0} → List ℕ → A → List (List ℕ × List A) → List (List ℕ × List A)
push_use name' a [] = (name', a ∷ []) ∷ []
push_use name' a ((k, xs) ∷ es) =
    let rest = push_use name' a es in
    if bytes_eq k name'
    then (k, xs ++ (a ∷ [])) ∷ es
    else if bytes_lt name' k
    then (name', a ∷ []) ∷ (k, xs) ∷ es
    else (k, xs) ∷ rest

-- `std::sort` over pairs of an offset and a string.
unfoldable pub offset_lt : ℕ × List ℕ → ℕ × List ℕ → Bool
unfolding bytes_lt
offset_lt (m, a) (n, b) = ltb m n || (m == n && bytes_lt a b)

unfoldable pub insert_offset : ℕ × List ℕ → List (ℕ × List ℕ) → List (ℕ × List ℕ)
unfolding offset_lt
insert_offset e [] = e ∷ []
insert_offset e (d ∷ ds) =
    let rest = insert_offset e ds in if offset_lt e d then e ∷ d ∷ ds else d ∷ rest

unfoldable pub sort_offsets : List (ℕ × List ℕ) → List (ℕ × List ℕ)
unfolding insert_offset
sort_offsets [] = []
sort_offsets (e ∷ es) = insert_offset e (sort_offsets es)

string_table_name : List ℕ
string_table_name = codes "__string_table_ptr"

module _ (L : Llvm) where
  -- `addToStringTable`, which nothing calls: the position is a random number until the relocation.
  unfoldable pub add_to_string_table :
      List ℕ
      → L.Value
      → List (List ℕ × List L.Value)
      → Gen L.State (L.Value × List (List ℕ × List L.Value))
  add_to_string_table text global_str_table uses = do
    present ← gets (L.table_contains text)
    if present then pure tt else perform (L.table_add text)
    number ← call L.rand
    table ← call (L.create_load global_str_table [])
    position ← call (L.create_in_bounds_gep table (L.const_int L.int64_ty (number % 1000 + 1) ∷ []))
    pure (position, push_use text position uses)

  unfoldable pub replace_use : L.Value → L.Value → Gen L.State (Unit {0})
  replace_use offset insn =
      if L.is_get_element_ptr insn
      then perform (L.replace_operand insn 1 offset)
      else if L.is_user insn
      then perform (L.replace_operand insn 0 offset)
      else fail unreachable

  unfoldable pub relocate : List ℕ × List L.Value → Gen L.State (Unit {0})
  unfolding replace_use
  relocate (text, insns) = do
    offset ← gets (L.table_offset text)
    each insns (replace_use (L.const_int L.int64_ty offset))

  -- `applyStringOffsetRelocations`: the strings of the table, in the order of their offsets.
  unfoldable pub apply_string_offset_relocations :
      List (List ℕ × List L.Value) → Gen L.State L.Value
  unfolding relocate string_table_name
  apply_string_offset_relocations uses = do
    perform L.table_finalize
    offsets ← gets (λ s. map (λ (e : List ℕ × List L.Value). (L.table_offset e.0 s, e.0)) uses)
    let concat_string = concat_map (λ (e : ℕ × List ℕ). e.1) (sort_offsets offsets)
    each uses relocate
    table ← call (
        L.new_global_variable (L.array_type L.int8_ty (length concat_string + 1)) false
          external_linkage none string_table_name)
    perform (L.set_initializer table (L.get_string concat_string true))
    pure table

  unfoldable pub visit_global_var : Variable → Gen L.State (Unit {0})
  visit_global_var v = do
    type' ← get_llvm_type_of_type L v.type_of.tag
    variable ←
        call (L.new_global_variable type' false external_linkage (some (L.null_value type')) v.name)
    perform (L.set_alignment variable 4)

  -- There is never a rest parameter.
  unfoldable pub declare_function : BirFunction → Gen L.State (Unit {0})
  declare_function f = do
    params ←
        collect f.required_params (λ (q : FunctionParam). get_llvm_type_of_type L q.type_of.tag)
    result ← get_ret_val_type L f
    _ ← call (L.function_create (L.function_type result params false) f.name)
    pure tt

  unfoldable pub define_function : BirPackage → BirFunction → Gen L.State (Unit {0})
  define_function p f = if is_external_function f then pure tt else visit_function L p f

  unfoldable pub finish_string_table :
      Bool → L.Value → List (List ℕ × List L.Value) → Gen L.State (Unit {0})
  unfolding apply_string_offset_relocations
  finish_string_table false global_str_table uses = pure tt
  finish_string_table true global_str_table uses = do
    table ← apply_string_offset_relocations uses
    address ← call (L.create_bit_cast table L.int8_ptr_ty)
    perform (L.set_initializer global_str_table address)

  unfoldable pub visit_package : BirPackage → Gen L.State (Unit {0})
  unfolding visit_global_var declare_function define_function finish_string_table string_table_name
  visit_package p = do
    perform (L.set_source_file_name p.source_file_name)
    perform L.new_string_table
    global_str_table ← call (
        L.new_global_variable L.int8_ptr_ty false internal_linkage
          (some (L.null_value L.int8_ptr_ty)) string_table_name)
    perform (L.set_alignment global_str_table 4)
    each p.global_vars visit_global_var
    each p.functions declare_function
    each p.functions (define_function p)
    size ← gets L.table_size
    finish_string_table (not (size == 0)) global_str_table []
    broken ← gets L.verify_module
    check (not broken)
