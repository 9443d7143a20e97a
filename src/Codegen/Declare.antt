-- ===== src/Codegen/Declare.antt =====
-- compiler/codegen/CodeGenUtils.cpp: the declarations of the functions of the runtime.
use nballerina_cpp.Base.{false, [], ◌∷◌, ◌++◌, if◌then◌else◌, codes}
use nballerina_cpp.Bir.TypeTag.{
  TypeTag, type_tag_int, type_tag_string, type_tag_map, type_tag_array,
}
use nballerina_cpp.Bir.Types.{get_name_of_type, is_bal_value_type}
use nballerina_cpp.Codegen.Llvm.{Llvm}
use nballerina_cpp.Codegen.Gen.{Gen, pure, call, lift, ◌>>=◌}
use nballerina_cpp.Codegen.Types.{get_llvm_type_of_type}

module _ (L : Llvm) where
  unfoldable pub get_abort_func : Gen L.State L.Callee
  get_abort_func =
      call (L.get_or_insert_function (codes "abort") (L.function_type L.void_ty [] false))

  unfoldable pub get_string_init_func : Gen L.State L.Callee
  get_string_init_func = call (
      L.get_or_insert_function (codes "new_string")
        (L.function_type L.int8_ptr_ty (L.int8_ptr_ty ∷ L.int64_ty ∷ []) false))

  unfoldable pub get_box_value_func : L.Ty → TypeTag → Gen L.State L.Callee
  get_box_value_func param_type tag' = do
    name' ← lift (get_name_of_type tag')
    call (
        L.get_or_insert_function (codes "box_bal_" ++ codes name')
          (L.function_type (L.pointer_type param_type) (param_type ∷ []) false))

  unfoldable pub get_is_same_type_func : L.Value → L.Value → Gen L.State L.Callee
  get_is_same_type_func lhs_ref rhs_ref = call (
      L.get_or_insert_function (codes "is_same_type")
        (L.function_type L.int8_ptr_ty (L.type_of lhs_ref ∷ L.type_of rhs_ref ∷ []) false))

  -- A member that is a value of any type is passed by a pointer to it.
  unfoldable pub member_value_type : TypeTag → Gen L.State L.Ty
  member_value_type tag' = do
    type' ← get_llvm_type_of_type L tag'
    pure (if is_bal_value_type tag' then L.pointer_type type' else type')

  unfoldable pub get_array_init_func : TypeTag → Gen L.State L.Callee
  get_array_init_func member_tag = do
    name' ← lift (get_name_of_type member_tag)
    array' ← get_llvm_type_of_type L type_tag_array
    call (
        L.get_or_insert_function (codes "array_init_" ++ codes name')
          (L.function_type array' (L.int64_ty ∷ []) false))

  unfoldable pub get_array_store_func : TypeTag → Gen L.State L.Callee
  unfolding member_value_type
  get_array_store_func member_tag = do
    name' ← lift (get_name_of_type member_tag)
    member' ← member_value_type member_tag
    array' ← get_llvm_type_of_type L type_tag_array
    call (
        L.get_or_insert_function (codes "array_store_" ++ codes name')
          (L.function_type L.void_ty (array' ∷ L.int64_ty ∷ member' ∷ []) false))

  unfoldable pub get_array_load_func : TypeTag → Gen L.State L.Callee
  unfolding member_value_type
  get_array_load_func member_tag = do
    name' ← lift (get_name_of_type member_tag)
    result ← member_value_type member_tag
    array' ← get_llvm_type_of_type L type_tag_array
    call (
        L.get_or_insert_function (codes "array_load_" ++ codes name')
          (L.function_type result (array' ∷ L.int64_ty ∷ []) false))

  unfoldable pub get_map_spread_field_init_func : Gen L.State L.Callee
  get_map_spread_field_init_func = call (
      L.get_or_insert_function (codes "map_spread_field_init")
        (L.function_type L.void_ty (L.int8_ptr_ty ∷ L.int8_ptr_ty ∷ []) false))

  unfoldable pub get_new_map_init_func : Gen L.State L.Callee
  get_new_map_init_func = do
    map' ← get_llvm_type_of_type L type_tag_map
    call (L.get_or_insert_function (codes "bal_map_create") (L.function_type map' [] false))

  unfoldable pub get_map_load_func : Gen L.State L.Callee
  get_map_load_func = do
    map' ← get_llvm_type_of_type L type_tag_map
    string' ← get_llvm_type_of_type L type_tag_string
    int' ← get_llvm_type_of_type L type_tag_int
    call (
        L.get_or_insert_function (codes "bal_map_lookup")
          (L.function_type L.int8_ty (map' ∷ string' ∷ L.pointer_type int' ∷ []) false))

  unfoldable pub get_map_store_func : Gen L.State L.Callee
  get_map_store_func = do
    member' ← get_llvm_type_of_type L type_tag_int
    key' ← get_llvm_type_of_type L type_tag_string
    map' ← get_llvm_type_of_type L type_tag_map
    call (
        L.get_or_insert_function (codes "bal_map_insert")
          (L.function_type L.void_ty (map' ∷ key' ∷ member' ∷ []) false))
