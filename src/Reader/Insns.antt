-- ===== src/Reader/Insns.antt =====
-- compiler/reader/BIRReadInsns.cpp: a read method for each kind of instruction.
use nballerina_cpp.Base.{ℕ, zero, suc, Bool, true, false, not, List, [], ◌==◌, ℤ}
use nballerina_cpp.Bir.TypeTag.{
  TypeTag, type_tag_int, type_tag_byte, type_tag_float, type_tag_decimal, type_tag_string,
  type_tag_boolean, type_tag_nil, type_tag_signed32_int, type_tag_signed16_int,
  type_tag_signed8_int, type_tag_unsigned32_int, type_tag_unsigned16_int, type_tag_unsigned8_int,
  type_tag_char_string,
}
use nballerina_cpp.Bir.Kinds.{not_a_kind, to_var_kind, is_global, InstructionKind}
use nballerina_cpp.Bir.Insn.{
  Operand, MapConstruct, spread_field, key_value, NonTerminatorInsn, structure_insn, unary_op_insn,
  binary_op_insn, move_insn, type_cast_insn, type_test_insn, array_insn, array_store_insn,
  array_load_insn, map_store_insn, map_load_insn, condition_br_insn, function_call_insn, goto_insn,
  return_insn, int_const_load, byte_const_load, float_const_load, bool_const_load,
  string_const_load, null_const_load,
}
use nballerina_cpp.Bir.Program.{BasicBlock, set_terminator_insn, add_non_term_insn}
use nballerina_cpp.Run.{unsupported_type_tag}
use nballerina_cpp.Reader.Monad.{Reader, pure, fail, ◌>>=◌, lift, loop, vector}
use nballerina_cpp.Reader.Primitives.{read_u1, read_s4be}
use nballerina_cpp.Reader.Pool.Set.{ConstantPoolSet}
use nballerina_cpp.Reader.Pool.Lookup.{
  get_string_cp, get_int_cp, get_byte_cp, get_float_cp, get_type_tag, get_type_cp,
}

module _ (cp : ConstantPoolSet) where
  unfoldable pub string_at : ℤ → Reader (List ℕ)
  string_at index = lift (get_string_cp cp index)

  -- The package and the type of a global variable; the type must exist, and is dropped.
  unfoldable pub read_global_part : Bool → Reader (Unit {0})
  read_global_part true = do
    _ ← read_s4be
    type_index ← read_s4be
    _ ← lift (get_type_cp cp type_index false)
    pure tt
  read_global_part false = pure tt

  unfoldable pub read_operand : Reader Operand
  read_operand = do
    _ ← read_u1
    kind' ← read_u1
    _ ← read_u1
    name_index ← read_s4be
    _ ← read_global_part (is_global (to_var_kind kind'))
    name' ← string_at name_index
    pure (record { name = name'; kind = to_var_kind kind' })

  unfoldable pub read_map_construct_body : ℕ → Reader MapConstruct
  read_map_construct_body zero = do expr ← read_operand; pure (spread_field expr)
  read_map_construct_body (suc key_value_kind) = do
    key ← read_operand
    value ← read_operand
    pure (key_value key value)

  -- `readMapConstructor`: `Spread_Field_Kind` is 0.
  unfoldable pub read_map_constructor : Reader MapConstruct
  read_map_constructor = do kind' ← read_u1; read_map_construct_body kind'

  unfoldable pub read_type_desc_insn : BasicBlock → Reader BasicBlock
  read_type_desc_insn bb = do _ ← read_operand; _ ← read_s4be; pure bb

  -- A count of 0 returns before `reserve`, with no initial values.
  unfoldable pub read_structure_insn : BasicBlock → Reader BasicBlock
  read_structure_insn bb = do
    _ ← read_operand
    lhs ← read_operand
    count ← read_s4be
    values ← vector count read_map_constructor
    pure (add_non_term_insn (structure_insn lhs values) bb)

  -- The cases that take the value from an integer entry.
  unfoldable pub read_int_const : Operand → Reader NonTerminatorInsn
  read_int_const lhs = do
    index ← read_s4be
    v ← lift (get_int_cp cp index)
    pure (int_const_load lhs v)

  -- The `switch` over the type of the constant.
  unfoldable pub read_const_value : TypeTag → Operand → Reader NonTerminatorInsn
  read_const_value type_tag_byte lhs = do
    index ← read_s4be
    v ← lift (get_byte_cp cp index)
    pure (byte_const_load lhs v)
  read_const_value type_tag_boolean lhs = do v ← read_u1; pure (bool_const_load lhs (not (v == 0)))
  read_const_value type_tag_float lhs = do
    index ← read_s4be
    v ← lift (get_float_cp cp index)
    pure (float_const_load lhs v)
  read_const_value type_tag_char_string lhs = do
    index ← read_s4be
    v ← string_at index
    pure (string_const_load lhs v)
  read_const_value type_tag_string lhs = do
    index ← read_s4be
    v ← string_at index
    pure (string_const_load lhs v)
  read_const_value type_tag_nil lhs = pure (null_const_load lhs)
  read_const_value type_tag_int lhs = read_int_const lhs
  read_const_value type_tag_unsigned8_int lhs = read_int_const lhs
  read_const_value type_tag_unsigned16_int lhs = read_int_const lhs
  read_const_value type_tag_unsigned32_int lhs = read_int_const lhs
  read_const_value type_tag_signed8_int lhs = read_int_const lhs
  read_const_value type_tag_signed16_int lhs = read_int_const lhs
  read_const_value type_tag_signed32_int lhs = read_int_const lhs
  read_const_value type_tag_decimal lhs = read_int_const lhs
  read_const_value _ lhs = fail unsupported_type_tag

  unfoldable pub read_const_load_insn : BasicBlock → Reader BasicBlock
  read_const_load_insn bb = do
    type_index ← read_s4be
    lhs ← read_operand
    tag' ← lift (get_type_tag cp type_index)
    insn ← read_const_value tag' lhs
    pure (add_non_term_insn insn bb)

  unfoldable pub read_unary_insn : InstructionKind → BasicBlock → Reader BasicBlock
  read_unary_insn kind' bb = do
    rhs ← read_operand
    lhs ← read_operand
    pure (add_non_term_insn (unary_op_insn lhs rhs kind') bb)

  unfoldable pub read_binary_insn : InstructionKind → BasicBlock → Reader BasicBlock
  read_binary_insn kind' bb = do
    rhs1 ← read_operand
    rhs2 ← read_operand
    lhs ← read_operand
    pure (add_non_term_insn (binary_op_insn lhs rhs1 rhs2 kind') bb)

  unfoldable pub read_cond_br_insn : BasicBlock → Reader BasicBlock
  read_cond_br_insn bb = do
    lhs ← read_operand
    true_index ← read_s4be
    false_index ← read_s4be
    true_id ← string_at true_index
    false_id ← string_at false_index
    pure (set_terminator_insn (condition_br_insn lhs true_id false_id) bb)

  unfoldable pub read_move_insn : BasicBlock → Reader BasicBlock
  read_move_insn bb = do
    rhs ← read_operand
    lhs ← read_operand
    pure (add_non_term_insn (move_insn lhs rhs) bb)

  -- `Operand("", NOT_A_KIND)` where there is no left side.
  unfoldable pub read_lhs : ℕ → Reader Operand
  read_lhs zero = pure (record { name = []; kind = not_a_kind })
  read_lhs (suc has_lhs) = read_operand

  unfoldable pub read_func_call_insn : BasicBlock → Reader BasicBlock
  read_func_call_insn bb = do
    _ ← read_u1
    _ ← read_s4be
    name_index ← read_s4be
    func_name ← string_at name_index
    count ← read_s4be
    args ← vector count read_operand
    has_lhs ← read_u1
    lhs ← read_lhs has_lhs
    then_index ← read_s4be
    then_id ← string_at then_index
    pure (set_terminator_insn (function_call_insn then_id lhs func_name count args) bb)

  unfoldable pub read_type_cast_insn : BasicBlock → Reader BasicBlock
  read_type_cast_insn bb = do
    lhs ← read_operand
    rhs ← read_operand
    type_index ← read_s4be
    _ ← lift (get_type_cp cp type_index false)
    _ ← read_u1
    pure (add_non_term_insn (type_cast_insn lhs rhs) bb)

  unfoldable pub read_type_test_insn : BasicBlock → Reader BasicBlock
  read_type_test_insn bb = do
    type_index ← read_s4be
    _ ← lift (get_type_cp cp type_index false)
    lhs ← read_operand
    _ ← read_operand
    pure (add_non_term_insn (type_test_insn lhs) bb)

  -- The initial values are read and dropped.
  unfoldable pub read_array_insn : BasicBlock → Reader BasicBlock
  read_array_insn bb = do
    type_index ← read_s4be
    _ ← lift (get_type_cp cp type_index false)
    lhs ← read_operand
    size' ← read_operand
    count ← read_s4be
    _ ← loop count read_operand
    pure (add_non_term_insn (array_insn lhs size') bb)

  -- The three operands of a store or a load: `lhsOp`, `keyOp`, `rhsOp`.
  unfoldable pub read_access :
      (Operand → Operand → Operand → NonTerminatorInsn) → BasicBlock → Reader BasicBlock
  read_access insn bb = do
    lhs ← read_operand
    key ← read_operand
    rhs ← read_operand
    pure (add_non_term_insn (insn lhs key rhs) bb)

  unfoldable pub read_array_store_insn : BasicBlock → Reader BasicBlock
  unfolding read_access
  read_array_store_insn bb = read_access array_store_insn bb

  unfoldable pub read_map_store_insn : BasicBlock → Reader BasicBlock
  unfolding read_access
  read_map_store_insn bb = read_access map_store_insn bb

  -- `optionalFieldAccess` and `fillingRead` come first.
  unfoldable pub read_array_load_insn : BasicBlock → Reader BasicBlock
  unfolding read_access
  read_array_load_insn bb = do _ ← read_u1; _ ← read_u1; read_access array_load_insn bb

  unfoldable pub read_map_load_insn : BasicBlock → Reader BasicBlock
  unfolding read_access
  read_map_load_insn bb = do _ ← read_u1; _ ← read_u1; read_access map_load_insn bb

  unfoldable pub read_go_to_insn : BasicBlock → Reader BasicBlock
  read_go_to_insn bb = do
    index ← read_s4be
    id' ← string_at index
    pure (set_terminator_insn (goto_insn id') bb)

  unfoldable pub read_return_insn : BasicBlock → Reader BasicBlock
  read_return_insn bb = pure (set_terminator_insn return_insn bb)
