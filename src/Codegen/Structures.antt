-- ===== src/Codegen/Structures.antt =====
-- compiler/codegen: ArrayInsnsCodeGen.cpp, MapInsnsCodeGen.cpp and StructureInsnCodeGen.cpp.
use nballerina_cpp.Base.{Bool, true, false, Option, List, [], ◌∷◌}
use nballerina_cpp.Bir.TypeTag.{TypeTag, type_tag_map}
use nballerina_cpp.Bir.Types.{BalType, get_member_type_tag, is_bal_value_type, check_map_support}
use nballerina_cpp.Bir.Insn.{Operand, MapConstruct, spread_field, key_value}
use nballerina_cpp.Bir.Program.{BirFunction, BirPackage}
use nballerina_cpp.Run.{unreachable}
use nballerina_cpp.Codegen.Llvm.{Llvm}
use nballerina_cpp.Codegen.Gen.{Gen, pure, fail, call, lift, deref, ◌>>=◌, ◌>>◌, each}
use nballerina_cpp.Codegen.Types.{get_llvm_type_of_type}
use nballerina_cpp.Codegen.Declare.{
  get_array_init_func, get_array_store_func, get_array_load_func, get_map_spread_field_init_func,
  get_new_map_init_func, get_map_load_func, get_map_store_func,
}
use nballerina_cpp.Codegen.Boxing.{create_bal_value}
use nballerina_cpp.Codegen.Scope.{
  FunctionCodeGen, get_local_or_global_val, create_temp_val, store_to,
}
use nballerina_cpp.Codegen.Insns.{type_of_operand}

module _ (L : Llvm) (p : BirPackage) (f : BirFunction) (fg : FunctionCodeGen L) where
  -- The member type of the variable that an operand names.
  unfoldable pub member_tag_of : Operand → Gen L.State TypeTag
  member_tag_of op = do type' ← type_of_operand L p f fg op; lift (get_member_type_tag type')

  unfoldable pub visit_array : Operand → Operand → Gen L.State (Unit {0})
  unfolding member_tag_of
  visit_array lhs size = do
    size_ref ← create_temp_val L fg size
    lhs_ref ← get_local_or_global_val L fg lhs
    member ← member_tag_of lhs
    init ← get_array_init_func L member
    array' ← call (L.create_call init (size_ref ∷ []) [])
    store_to L array' lhs_ref

  -- A member that is a value of any type is behind a pointer.
  unfoldable pub store_member : Bool → L.Value → Option L.Value → Gen L.State (Unit {0})
  store_member true pointer lhs_ref = do
    value ← call (L.create_load pointer [])
    store_to L value lhs_ref
  store_member false value lhs_ref = store_to L value lhs_ref

  unfoldable pub visit_array_load : Operand → Operand → Operand → Gen L.State (Unit {0})
  unfolding store_member
  visit_array_load lhs key rhs = do
    lhs_type ← type_of_operand L p f fg lhs
    load' ← get_array_load_func L lhs_type.tag
    lhs_ref ← get_local_or_global_val L fg lhs
    rhs_temp ← create_temp_val L fg rhs
    key_temp ← create_temp_val L fg key
    value ← call (L.create_call load' (rhs_temp ∷ key_temp ∷ []) [])
    store_member (is_bal_value_type lhs_type.tag) value lhs_ref

  -- A member of any type is passed by its variable's pointer.
  unfoldable pub member_value : Bool → Operand → Gen L.State L.Value
  member_value true op = do pointer ← get_local_or_global_val L fg op; deref pointer
  member_value false op = create_temp_val L fg op

  unfoldable pub visit_array_store : Operand → Operand → Operand → Gen L.State (Unit {0})
  unfolding member_value
  visit_array_store lhs key rhs = do
    rhs_type ← type_of_operand L p f fg rhs
    store ← get_array_store_func L rhs_type.tag
    lhs_ref ← get_local_or_global_val L fg lhs
    member ← member_value (is_bal_value_type rhs_type.tag) rhs
    array_ref ← deref lhs_ref
    array' ← call (L.create_load array_ref [])
    key_temp ← create_temp_val L fg key
    _ ← call (L.create_call store (array' ∷ key_temp ∷ member ∷ []) [])
    pure tt

  -- The arguments of a braced list are made from the first to the last.
  unfoldable pub visit_map_store : Operand → Operand → Operand → Gen L.State (Unit {0})
  unfolding member_tag_of
  visit_map_store lhs key rhs = do
    member ← member_tag_of lhs
    lift (check_map_support member)
    value ← create_temp_val L fg rhs
    store ← get_map_store_func L
    map' ← create_temp_val L fg lhs
    key_temp ← create_temp_val L fg key
    _ ← call (L.create_call store (map' ∷ key_temp ∷ value ∷ []) [])
    pure tt

  -- The result of `bal_map_lookup`, whether there is such a key, is not looked at.
  unfoldable pub visit_map_load : Operand → Operand → Operand → Gen L.State (Unit {0})
  unfolding member_tag_of
  visit_map_load lhs key rhs = do
    member ← member_tag_of rhs
    out_type ← get_llvm_type_of_type L member
    lhs_ref ← get_local_or_global_val L fg lhs
    out_param ← call (L.create_alloca out_type [])
    rhs_temp ← create_temp_val L fg rhs
    key_temp ← create_temp_val L fg key
    load' ← get_map_load_func L
    _ ← call (L.create_call load' (rhs_temp ∷ key_temp ∷ out_param ∷ []) [])
    value ← create_bal_value L out_param member
    store_to L value lhs_ref

  unfoldable pub map_create_translate : Operand → BalType → Gen L.State (Unit {0})
  map_create_translate lhs lhs_type = do
    lhs_ref ← get_local_or_global_val L fg lhs
    member ← lift (get_member_type_tag lhs_type)
    lift (check_map_support member)
    create ← get_new_map_init_func L
    map' ← call (L.create_call create [] [])
    store_to L map' lhs_ref

  -- The body of the loop over the initial values.
  unfoldable pub init_field : Operand → L.Callee → L.Callee → MapConstruct → Gen L.State (Unit {0})
  init_field lhs store spread (spread_field expr) = do
    lhs_temp ← create_temp_val L fg lhs
    expr_temp ← create_temp_val L fg expr
    _ ← call (L.create_call spread (lhs_temp ∷ expr_temp ∷ []) [])
    pure tt
  init_field lhs store spread (key_value key value) = do
    value_temp ← create_temp_val L fg value
    lhs_temp ← create_temp_val L fg lhs
    key_temp ← create_temp_val L fg key
    _ ← call (L.create_call store (lhs_temp ∷ key_temp ∷ value_temp ∷ []) [])
    pure tt

  unfoldable pub map_init_translate : Operand → BalType → List MapConstruct → Gen L.State (Unit {0})
  unfolding init_field
  map_init_translate lhs lhs_type init_values = do
    member ← lift (get_member_type_tag lhs_type)
    lift (check_map_support member)
    store ← get_map_store_func L
    spread ← get_map_spread_field_init_func L
    each init_values (init_field lhs store spread)

  unfoldable pub init_unless_empty : Operand → BalType → List MapConstruct → Gen L.State (Unit {0})
  unfolding map_init_translate
  init_unless_empty lhs lhs_type [] = pure tt
  init_unless_empty lhs lhs_type (v ∷ vs) = map_init_translate lhs lhs_type (v ∷ vs)

  -- Only maps are structures.
  unfoldable pub visit_structure_of :
      TypeTag → Operand → BalType → List MapConstruct → Gen L.State (Unit {0})
  unfolding map_create_translate init_unless_empty
  visit_structure_of type_tag_map lhs lhs_type init_values = do
    map_create_translate lhs lhs_type
    init_unless_empty lhs lhs_type init_values
  visit_structure_of _ lhs lhs_type init_values = fail unreachable

  unfoldable pub visit_structure : Operand → List MapConstruct → Gen L.State (Unit {0})
  unfolding visit_structure_of
  visit_structure lhs init_values = do
    lhs_type ← type_of_operand L p f fg lhs
    visit_structure_of lhs_type.tag lhs lhs_type init_values
