-- ===== src/Codegen/Constants.antt =====
-- compiler/codegen/ConstantLoadInsnCodeGen.cpp
use nballerina_cpp.Base.{
  ℕ, true, false, some, List, [], ◌∷◌, ◌++◌, ◌==◌, if◌then◌else◌, bytes_eq, codes, length, bits64,
}
use nballerina_cpp.Bir.TypeTag.{
  TypeTag, type_tag_int, type_tag_byte, type_tag_float, type_tag_string, type_tag_boolean,
  type_tag_nil, type_tag_char_string, tag_value,
}
use nballerina_cpp.Bir.Insn.{
  Operand, ConstValue, int_value, double_value, bool_value, byte_value, string_value,
}
use nballerina_cpp.Bir.Program.{BirFunction, BirPackage, is_main_function}
use nballerina_cpp.Run.{bad_variant_access, unreachable}
use nballerina_cpp.Codegen.Llvm.{private_linkage, Llvm}
use nballerina_cpp.Codegen.Gen.{Gen, pure, fail, call, deref, ◌>>=◌, ◌>>◌, check}
use nballerina_cpp.Codegen.Types.{get_string_struct_type, get_global_nil_var}
use nballerina_cpp.Codegen.Scope.{FunctionCodeGen, get_local_or_global_val, store_to}
use nballerina_cpp.Codegen.Insns.{type_of_operand}

module _ (L : Llvm) (p : BirPackage) (f : BirFunction) (fg : FunctionCodeGen L) where
  -- A string is a private global of its characters, and one of the struct with its header and length.
  unfoldable pub string_constant : List ℕ → Gen L.State L.Value
  string_constant text = do
    global_value ← call (
        L.new_global_variable (L.type_of (L.get_string text false)) true private_linkage
          (some (L.get_string text false)) (codes ".str"))
    value_ref ← call (
        L.create_in_bounds_gep global_value
          (L.const_int L.int64_ty 0 ∷ L.const_int L.int64_ty 0 ∷ []))
    struct_type ← get_string_struct_type L
    call (
        L.new_global_variable struct_type true private_linkage
          (some (
            L.const_struct struct_type
              (L.const_int L.int64_ty 6 ∷ L.const_int L.int64_ty (length text) ∷ value_ref ∷ [])))
          (codes "bal_string"))

  -- The end of the visitor.
  unfoldable pub store_const : Operand → L.Value → Gen L.State (Unit {0})
  store_const lhs const_ref = do
    lhs_ref ← get_local_or_global_val L fg lhs
    store_to L const_ref lhs_ref

  unfoldable pub load_nil : Operand → Gen L.State (Unit {0})
  unfolding store_const
  load_nil lhs = do
    nil_var' ← get_global_nil_var L
    value ← call (L.create_load nil_var' (lhs.name ++ codes "_temp"))
    store_const lhs value

  -- Nil is not stored to the return variable of `main`.
  unfoldable pub visit_nil : Operand → Gen L.State (Unit {0})
  unfolding load_nil
  visit_nil lhs =
      if is_main_function f
      then (deref f.return_var >>= λ v. if bytes_eq lhs.name v.name then pure tt else load_nil lhs)
      else load_nil lhs

  -- The `switch` over the type; `std::get` throws where the variant holds another type.
  unfoldable pub visit_const : Operand → TypeTag → ConstValue → Gen L.State (Unit {0})
  unfolding store_const string_constant visit_nil
  visit_const lhs type_tag_int (int_value v) = store_const lhs (L.const_int L.int64_ty (bits64 v))
  visit_const lhs type_tag_float (double_value v) = store_const lhs (L.const_fp v)
  visit_const lhs type_tag_byte (byte_value v) = store_const lhs (L.const_int L.int8_ty v)
  visit_const lhs type_tag_boolean (bool_value v) =
      store_const lhs (L.const_int L.int1_ty (if v then 1 else 0))
  visit_const lhs type_tag_string (string_value v) = string_constant v >>= store_const lhs
  visit_const lhs type_tag_char_string (string_value v) = string_constant v >>= store_const lhs
  visit_const lhs type_tag_nil v = visit_nil lhs
  visit_const lhs type_tag_int v = fail bad_variant_access
  visit_const lhs type_tag_float v = fail bad_variant_access
  visit_const lhs type_tag_byte v = fail bad_variant_access
  visit_const lhs type_tag_boolean v = fail bad_variant_access
  visit_const lhs type_tag_string v = fail bad_variant_access
  visit_const lhs type_tag_char_string v = fail bad_variant_access
  visit_const lhs _ v = fail unreachable

  unfoldable pub visit_constant_load : Operand → TypeTag → ConstValue → Gen L.State (Unit {0})
  unfolding type_of_operand visit_const
  visit_constant_load lhs tag' v = do
    type' ← type_of_operand L p f fg lhs
    check (tag_value type'.tag == tag_value tag')
    visit_const lhs tag' v
