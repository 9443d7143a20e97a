-- ===== src/Codegen/Types.antt =====
-- compiler/codegen/CodeGenUtils.cpp: the LLVM types of Ballerina's types, and the global nil.
use nballerina_cpp.Base.{Bool, true, false, Option, none, some, [], ◌∷◌, codes}
use nballerina_cpp.Bir.TypeTag.{
  TypeTag, type_tag_int, type_tag_byte, type_tag_float, type_tag_string, type_tag_boolean,
  type_tag_nil, type_tag_anydata, type_tag_typedesc, type_tag_map, type_tag_any, type_tag_array,
  type_tag_union, type_tag_char_string,
}
use nballerina_cpp.Run.{unreachable}
use nballerina_cpp.Codegen.Llvm.{internal_linkage, Llvm}
use nballerina_cpp.Codegen.Gen.{Gen, pure, fail, call, gets, ◌>>=◌, ◌>>◌, check}

abbrev pub is_none : {A : Type 0} → Option A → Bool
is_none none = true
is_none (some a) = false

module _ (L : Llvm) where
  unfoldable pub string_struct_type : Option L.Ty → Gen L.State L.Ty
  string_struct_type (some type') = pure type'
  string_struct_type none = call (
      L.struct_create (L.int64_ty ∷ L.int64_ty ∷ L.int8_ptr_ty ∷ [])
        (codes "struct.balAsciiString"))

  unfoldable pub get_string_struct_type : Gen L.State L.Ty
  unfolding string_struct_type
  get_string_struct_type = do
    found ← gets (L.get_type_by_name (codes "struct.balAsciiString"))
    string_struct_type found

  -- The structs of arrays are made once; the `assert` is that the inner one is not there before.
  unfoldable pub array_struct_type : Option L.Ty → Gen L.State L.Ty
  array_struct_type (some type') = pure (L.pointer_type type')
  array_struct_type none = do
    inner ← gets (L.get_type_by_name (codes "struct.dynamicArray"))
    check (is_none inner)
    dynamic_array ←
        call (L.struct_create (L.int64_ty ∷ L.int64_ptr_ty ∷ []) (codes "struct.dynamicArray"))
    dynamic_bal_array ← call (
        L.struct_create
          (L.int64_ty ∷ L.int64_ty ∷ L.int64_ty ∷ L.int64_ty ∷ L.pointer_type dynamic_array ∷ [])
          (codes "struct.dynamicBalArray"))
    pure (L.pointer_type dynamic_bal_array)

  unfoldable pub get_llvm_type_of_type : TypeTag → Gen L.State L.Ty
  unfolding get_string_struct_type array_struct_type
  get_llvm_type_of_type type_tag_int = pure L.int64_ty
  get_llvm_type_of_type type_tag_float = pure L.double_ty
  get_llvm_type_of_type type_tag_boolean = pure L.int1_ty
  get_llvm_type_of_type type_tag_byte = pure L.int8_ty
  get_llvm_type_of_type type_tag_char_string = do
    struct ← get_string_struct_type
    pure (L.pointer_type struct)
  get_llvm_type_of_type type_tag_string = do
    struct ← get_string_struct_type
    pure (L.pointer_type struct)
  get_llvm_type_of_type type_tag_map = pure L.int8_ptr_ty
  get_llvm_type_of_type type_tag_nil = pure L.int8_ptr_ty
  get_llvm_type_of_type type_tag_any = pure L.int8_ptr_ty
  get_llvm_type_of_type type_tag_anydata = pure L.int8_ptr_ty
  get_llvm_type_of_type type_tag_union = pure L.int8_ptr_ty
  get_llvm_type_of_type type_tag_array = do
    found ← gets (L.get_type_by_name (codes "struct.dynamicBalArray"))
    array_struct_type found
  get_llvm_type_of_type type_tag_typedesc = pure L.int64_ty
  get_llvm_type_of_type _ = fail unreachable

  unfoldable pub nil_var : Option L.Value → Gen L.State L.Value
  nil_var (some nil_global) = pure nil_global
  nil_var none = do
    nil_type ← get_llvm_type_of_type type_tag_nil
    call (
        L.new_global_variable nil_type false internal_linkage (some (L.null_value nil_type))
          (codes "bal_nil_value"))

  unfoldable pub get_global_nil_var : Gen L.State L.Value
  unfolding nil_var
  get_global_nil_var = do
    found ← gets (L.get_global_variable (codes "bal_nil_value") true)
    nil_var found
