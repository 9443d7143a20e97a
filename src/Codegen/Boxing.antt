-- ===== src/Codegen/Boxing.antt =====
-- compiler/codegen/CodeGenUtils.cpp: the functions that are generated to make values of any type
-- from ints and booleans, and back.
use nballerina_cpp.Base.{ℕ, false, Option, none, some, List, [], ◌∷◌, codes}
use nballerina_cpp.Bir.TypeTag.{TypeTag, type_tag_int}
use nballerina_cpp.Run.{unreachable}
use nballerina_cpp.Codegen.Llvm.{
  add, shl, ashr, bit_and, bit_or, icmp_eq, icmp_ne, icmp_sge, no_return, no_unwind, Llvm,
}
use nballerina_cpp.Codegen.Gen.{Gen, pure, fail, call, gets, ◌>>=◌, ◌>>◌, perform}
use nballerina_cpp.Codegen.Declare.{get_abort_func}

module _ (L : Llvm) where
  -- A function that has an `IRBuilder` of its own: the insertion point of the caller's builder, the one
  -- of the state, is where it was.
  unfoldable pub own_builder : {A : Type 0} → Gen L.State A → Gen L.State A
  own_builder build = do
    point ← gets L.save_ip
    built ← build
    perform (L.restore_ip point)
    pure built

  -- A function with its block `entry`, where the builder is put.
  unfoldable pub new_function : L.Ty → List L.Ty → List ℕ → Gen L.State (L.Func × L.Block)
  new_function result params name' = do
    func ← call (L.function_create (L.function_type result params false) name')
    entry ← call (L.block_create (codes "entry") func)
    perform (L.set_insert_point entry)
    pure (func, entry)

  -- The large values of `int_to_any`: a header byte and the value behind it.
  unfoldable pub box_on_heap :
      L.Block → L.Value → L.Value → L.Value → L.Value → Gen L.State (Unit {0})
  box_on_heap else_bb local1 local2 local3 local4 = do
    perform (L.set_insert_point else_bb)
    malloc ← call (L.new_malloc else_bb L.int64_ty L.int8_ty (L.const_int L.int64_ty 9))
    perform (L.push_back else_bb malloc)
    _ ← call (L.create_store malloc local3)
    malloc_load ← call (L.create_load local3 [])
    gep ← call (L.create_in_bounds_gep malloc_load (L.const_int L.int64_ty 1 ∷ []))
    cast ← call (L.create_bit_cast gep L.int64_ptr_ty)
    _ ← call (L.create_store cast local4)
    value ← call (L.create_load local2 [])
    target ← call (L.create_load local4 [])
    _ ← call (L.create_store value target)
    boxed ← call (L.create_load local3 [])
    _ ← call (L.create_store boxed local1)
    pure tt

  -- The small values: shifted by one, with the lowest bit set.
  unfoldable pub box_in_pointer : L.Block → L.Value → L.Value → L.Func → Gen L.State L.Block
  box_in_pointer if_bb value_load local1 func = do
    perform (L.set_insert_point if_bb)
    shl' ← call (L.new_binary shl value_load (L.const_int L.int64_ty 1))
    perform (L.set_has_no_signed_wrap shl')
    ret_bb ← call (L.block_create (codes "return") func)
    or' ← call (L.new_binary bit_or shl' (L.const_int L.int64_ty 1))
    perform (L.push_back if_bb shl')
    perform (L.push_back if_bb or')
    cast ← call (L.create_int_to_ptr or' L.int8_ptr_ty)
    _ ← call (L.create_store cast local1)
    perform (L.create_br ret_bb)
    pure ret_bb

  -- The constants are 2 ^ 62 - 1 and the pattern of - 2 ^ 62.
  unfoldable pub create_int_to_any_function : Gen L.State L.Func
  unfolding own_builder new_function box_in_pointer box_on_heap
  create_int_to_any_function = own_builder do
    (func, entry) ← new_function L.int8_ptr_ty (L.int64_ty ∷ []) (codes "int_to_any")
    local1 ← call (L.create_alloca L.int8_ptr_ty [])
    local2 ← call (L.create_alloca L.int64_ty [])
    local3 ← call (L.create_alloca L.int8_ptr_ty [])
    local4 ← call (L.create_alloca L.int64_ptr_ty [])
    perform (L.set_name (L.argument func 0) (codes "a"))
    _ ← call (L.create_store (L.argument func 0) local2)
    value_load ← call (L.create_load local2 [])
    below ← call (L.new_icmp icmp_sge (L.const_int L.int64_ty 0x3fff_ffff_ffff_ffff) value_load)
    perform (L.push_back entry below)
    lhs_true ← call (L.block_create (codes "lhs.true") func)
    if_bb ← call (L.block_create (codes "if.then") func)
    else_bb ← call (L.block_create (codes "if.else") func)
    perform (L.create_cond_br below lhs_true else_bb)
    perform (L.set_insert_point lhs_true)
    above ← call (L.new_icmp icmp_sge value_load (L.const_int L.int64_ty 0xc000_0000_0000_0000))
    perform (L.push_back lhs_true above)
    perform (L.create_cond_br above if_bb else_bb)
    ret_bb ← box_in_pointer if_bb value_load local1 func
    box_on_heap else_bb local1 local2 local3 local4
    perform (L.create_br ret_bb)
    perform (L.set_insert_point ret_bb)
    result ← call (L.create_load local1 [])
    perform (L.create_ret result)
    pure func

  -- A function of the module, or a new one where there is none.
  unfoldable pub function_or : Option L.Func → Gen L.State L.Func → Gen L.State L.Func
  function_or (some func) create = pure func
  function_or none create = create

  unfoldable pub get_int_to_any_function : Gen L.State L.Func
  unfolding function_or
  get_int_to_any_function = do
    found ← gets (L.get_function (codes "int_to_any"))
    function_or found create_int_to_any_function

  -- The store is put into its block by the builder, and then pushed to the back of it once more.
  unfoldable pub unbox_pointer : L.Block → L.Value → L.Value → Gen L.State (Unit {0})
  unbox_pointer if_bb word local1 = do
    perform (L.set_insert_point if_bb)
    shr ← call (L.new_binary ashr word (L.const_int L.int64_ty 1))
    perform (L.push_back if_bb shr)
    store ← call (L.create_store shr local1)
    perform (L.push_back if_bb store)

  unfoldable pub unbox_heap : L.Block → L.Value → L.Value → L.Value → Gen L.State (Unit {0})
  unbox_heap else_if_bb word local1 local3 = do
    perform (L.set_insert_point else_if_bb)
    add' ← call (L.new_binary add word (L.const_int L.int64_ty 1))
    perform (L.push_back else_if_bb add')
    cast ← call (L.create_int_to_ptr add' L.int64_ptr_ty)
    _ ← call (L.create_store cast local3)
    pointer ← call (L.create_load local3 [])
    value ← call (L.create_load pointer [])
    _ ← call (L.create_store value local1)
    pure tt

  unfoldable pub abort_here : L.Block → Gen L.State (Unit {0})
  abort_here else_else_bb = do
    perform (L.set_insert_point else_else_bb)
    abort' ← get_abort_func L
    abort_call ← call (L.create_call abort' [] [])
    perform (L.add_attribute abort_call no_return)
    perform (L.add_attribute abort_call no_unwind)
    perform L.create_unreachable

  unfoldable pub create_any_to_int_function : Gen L.State L.Func
  unfolding own_builder new_function unbox_pointer unbox_heap abort_here
  create_any_to_int_function = own_builder do
    (func, entry) ← new_function L.int64_ty (L.int8_ptr_ty ∷ []) (codes "any_to_int")
    local1 ← call (L.create_alloca L.int64_ty [])
    local2 ← call (L.create_alloca L.int8_ptr_ty [])
    local3 ← call (L.create_alloca L.int64_ptr_ty [])
    perform (L.set_name (L.argument func 0) (codes "a"))
    _ ← call (L.create_store (L.argument func 0) local2)
    value_load ← call (L.create_load local2 [])
    word ← call (L.create_ptr_to_int value_load L.int64_ty)
    and1 ← call (L.new_binary bit_and word (L.const_int L.int64_ty 1))
    perform (L.push_back entry and1)
    odd ← call (L.new_icmp icmp_ne and1 (L.const_int L.int64_ty 0))
    perform (L.push_back entry odd)
    if_bb ← call (L.block_create (codes "if.then") func)
    else_bb ← call (L.block_create (codes "if.else") func)
    perform (L.create_cond_br odd if_bb else_bb)
    unbox_pointer if_bb word local1
    else_if_bb ← call (L.block_create (codes "if.then2") func)
    else_else_bb ← call (L.block_create (codes "if.else2") func)
    ret_bb ← call (L.block_create (codes "return") func)
    perform (L.create_br ret_bb)
    perform (L.set_insert_point else_bb)
    and2 ← call (L.new_binary bit_and word (L.const_int L.int64_ty 3))
    perform (L.push_back else_bb and2)
    aligned ← call (L.create_cmp icmp_eq and2 (L.const_int L.int64_ty 0) [])
    perform (L.create_cond_br aligned else_if_bb else_else_bb)
    unbox_heap else_if_bb word local1 local3
    perform (L.create_br ret_bb)
    abort_here else_else_bb
    perform (L.set_insert_point ret_bb)
    result ← call (L.create_load local1 [])
    perform (L.create_ret result)
    pure func

  unfoldable pub get_any_to_int_function : Gen L.State L.Func
  unfolding function_or
  get_any_to_int_function = do
    found ← gets (L.get_function (codes "any_to_int"))
    function_or found create_any_to_int_function

  unfoldable pub create_bal_value : L.Value → TypeTag → Gen L.State L.Value
  create_bal_value value type_tag_int = do
    func ← get_int_to_any_function
    loaded ← call (L.create_load value [])
    call (L.create_call (L.callee func) (loaded ∷ []) [])
  create_bal_value value _ = fail unreachable

  -- The two branches of a function that returns one of two constants.
  unfoldable pub return_in : L.Block → L.Value → Gen L.State (Unit {0})
  return_in bb value = do perform (L.set_insert_point bb); perform (L.create_ret value)

  -- `true` is 14 and `false` is 6, as pointers.
  unfoldable pub create_bool_to_any_func : Gen L.State L.Func
  unfolding own_builder new_function
  create_bool_to_any_func = own_builder do
    (func, entry) ← new_function L.int8_ptr_ty (L.int1_ty ∷ []) (codes "bool_to_any")
    cond ← call (L.create_cmp icmp_eq (L.argument func 0) (L.const_int L.int1_ty 1) [])
    then_bb ← call (L.block_create (codes "then") func)
    else_bb ← call (L.block_create (codes "else") func)
    perform (L.create_cond_br cond then_bb else_bb)
    perform (L.set_insert_point then_bb)
    any_true ← call (L.create_int_to_ptr (L.const_int L.int8_ty 14) L.int8_ptr_ty)
    perform (L.create_ret any_true)
    perform (L.set_insert_point else_bb)
    any_false ← call (L.create_int_to_ptr (L.const_int L.int8_ty 6) L.int8_ptr_ty)
    perform (L.create_ret any_false)
    pure func

  unfoldable pub get_bool_to_any_func : Gen L.State L.Func
  unfolding function_or
  get_bool_to_any_func = do
    found ← gets (L.get_function (codes "bool_to_any"))
    function_or found create_bool_to_any_func

  unfoldable pub create_any_to_bool_func : Gen L.State L.Func
  unfolding own_builder new_function return_in
  create_any_to_bool_func = own_builder do
    (func, entry) ← new_function L.int1_ty (L.int8_ptr_ty ∷ []) (codes "any_to_bool")
    byte ← call (L.create_ptr_to_int (L.argument func 0) L.int8_ty)
    cond ← call (L.create_cmp icmp_eq byte (L.const_int L.int8_ty 14) [])
    then_bb ← call (L.block_create (codes "then") func)
    else_bb ← call (L.block_create (codes "else") func)
    perform (L.create_cond_br cond then_bb else_bb)
    return_in then_bb (L.const_int L.int1_ty 1)
    return_in else_bb (L.const_int L.int1_ty 0)
    pure func

  unfoldable pub get_any_to_bool_func : Gen L.State L.Func
  unfolding function_or
  get_any_to_bool_func = do
    found ← gets (L.get_function (codes "any_to_bool"))
    function_or found create_any_to_bool_func
