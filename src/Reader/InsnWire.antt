-- ===== src/Reader/InsnWire.antt =====
-- The format of instructions as data: what stands behind the position of each of them.
use nballerina_cpp.Base.{
  ℕ, suc, not, Option, none, some, List, [], ◌∷◌, ◌++◌, map, ◌==◌, concat_map, pos, int32,
}
use nballerina_cpp.Bir.TypeTag.{
  TypeTag, type_tag_int, type_tag_byte, type_tag_float, type_tag_decimal, type_tag_string,
  type_tag_boolean, type_tag_nil, type_tag_signed32_int, type_tag_signed16_int,
  type_tag_signed8_int, type_tag_unsigned32_int, type_tag_unsigned16_int, type_tag_unsigned8_int,
  type_tag_char_string,
}
use nballerina_cpp.Bir.Kinds.{
  not_a_kind, InstructionKind, instruction_kind_binary_add, instruction_kind_binary_sub,
  instruction_kind_binary_mul, instruction_kind_binary_div, instruction_kind_binary_mod,
  instruction_kind_binary_equal, instruction_kind_binary_not_equal,
  instruction_kind_binary_greater_than, instruction_kind_binary_greater_equal,
  instruction_kind_binary_less_than, instruction_kind_binary_less_equal, instruction_kind_unary_not,
  instruction_kind_unary_neg, instruction_kind_binary_bitwise_xor,
}
use nballerina_cpp.Bir.Insn.{
  Operand, int_value, double_value, bool_value, byte_value, string_value, MapConstruct,
  spread_field, key_value, NonTerminatorInsn, structure_insn, constant_load_insn, unary_op_insn,
  binary_op_insn, move_insn, type_cast_insn, type_test_insn, array_insn, array_store_insn,
  array_load_insn, map_store_insn, map_load_insn, TerminatorInsn, condition_br_insn,
  function_call_insn, goto_insn, return_insn,
}
use nballerina_cpp.Reader.Wire.{to_be, Counted, count, flag, encode_optional}
use nballerina_cpp.Reader.Pool.Set.{ConstantPoolSet}
use nballerina_cpp.Reader.OperandWire.{
  StringRef, IntRef, ByteRef, FloatRef, TypeRef, TagRef, OperandWire, encode_operand, value_operand,
}

pub data BinaryKind : Type 0 where
  binary_add binary_sub binary_mul binary_div binary_mod binary_equal binary_not_equal : BinaryKind
  binary_greater_than binary_greater_equal binary_less_than binary_less_equal : BinaryKind
  binary_bitwise_xor : BinaryKind

unfoldable pub binary_number : BinaryKind → ℕ
binary_number binary_add = 61
binary_number binary_sub = 62
binary_number binary_mul = 63
binary_number binary_div = 64
binary_number binary_mod = 65
binary_number binary_equal = 66
binary_number binary_not_equal = 67
binary_number binary_greater_than = 68
binary_number binary_greater_equal = 69
binary_number binary_less_than = 70
binary_number binary_less_equal = 71
binary_number binary_bitwise_xor = 85

unfoldable pub binary_kind : BinaryKind → InstructionKind
binary_kind binary_add = instruction_kind_binary_add
binary_kind binary_sub = instruction_kind_binary_sub
binary_kind binary_mul = instruction_kind_binary_mul
binary_kind binary_div = instruction_kind_binary_div
binary_kind binary_mod = instruction_kind_binary_mod
binary_kind binary_equal = instruction_kind_binary_equal
binary_kind binary_not_equal = instruction_kind_binary_not_equal
binary_kind binary_greater_than = instruction_kind_binary_greater_than
binary_kind binary_greater_equal = instruction_kind_binary_greater_equal
binary_kind binary_less_than = instruction_kind_binary_less_than
binary_kind binary_less_equal = instruction_kind_binary_less_equal
binary_kind binary_bitwise_xor = instruction_kind_binary_bitwise_xor

-- The types whose constants are integer entries of the pool.
pub data IntegerType : Type 0 where
  plain_int unsigned8 unsigned16 unsigned32 signed8 signed16 signed32 decimal : IntegerType

unfoldable pub integer_tag : IntegerType → TypeTag
integer_tag plain_int = type_tag_int
integer_tag unsigned8 = type_tag_unsigned8_int
integer_tag unsigned16 = type_tag_unsigned16_int
integer_tag unsigned32 = type_tag_unsigned32_int
integer_tag signed8 = type_tag_signed8_int
integer_tag signed16 = type_tag_signed16_int
integer_tag signed32 = type_tag_signed32_int
integer_tag decimal = type_tag_decimal

-- What an instruction is to a block: one of its instructions, its end, or nothing.
pub data InsnValue : Type 0 where
  inner : NonTerminatorInsn → InsnValue
  ends : TerminatorInsn → InsnValue
  dropped : InsnValue

module _ (cp : ConstantPoolSet) where
  -- An initial value of a structure; any kind byte but 0 is a key with a value.
  pub data ConstructWire : Type 0 where
    spread_wire : OperandWire cp → ConstructWire
    key_value_wire : ℕ → OperandWire cp → OperandWire cp → ConstructWire

  unfoldable pub encode_construct : ConstructWire → List ℕ
  encode_construct (spread_wire e) = (0 ∷ []) ++ encode_operand cp e
  encode_construct (key_value_wire k key value) =
      (suc k ∷ []) ++ (encode_operand cp key ++ encode_operand cp value)

  unfoldable pub value_construct : ConstructWire → MapConstruct
  value_construct (spread_wire e) = spread_field (value_operand cp e)
  value_construct (key_value_wire k key value) =
      key_value (value_operand cp key) (value_operand cp value)

  -- The type of a constant and its value.
  pub data ConstWire : Type 0 where
    integer_wire : (t : IntegerType) → TagRef cp (integer_tag t) → IntRef cp → ConstWire
    byte_wire : TagRef cp type_tag_byte → ByteRef cp → ConstWire
    boolean_wire : TagRef cp type_tag_boolean → ℕ → ConstWire
    float_wire : TagRef cp type_tag_float → FloatRef cp → ConstWire
    string_wire : TagRef cp type_tag_string → StringRef cp → ConstWire
    char_string_wire : TagRef cp type_tag_char_string → StringRef cp → ConstWire
    nil_wire : TagRef cp type_tag_nil → ConstWire

  unfoldable pub const_type : ConstWire → ℕ
  const_type (integer_wire t r v) = r.index
  const_type (byte_wire r v) = r.index
  const_type (boolean_wire r v) = r.index
  const_type (float_wire r v) = r.index
  const_type (string_wire r v) = r.index
  const_type (char_string_wire r v) = r.index
  const_type (nil_wire r) = r.index

  unfoldable pub encode_const : ConstWire → List ℕ
  encode_const (integer_wire t r v) = to_be 4 v.index
  encode_const (byte_wire r v) = to_be 4 v.index
  encode_const (boolean_wire r v) = v ∷ []
  encode_const (float_wire r v) = to_be 4 v.index
  encode_const (string_wire r v) = to_be 4 v.index
  encode_const (char_string_wire r v) = to_be 4 v.index
  encode_const (nil_wire r) = []

  unfoldable pub value_const : Operand → ConstWire → NonTerminatorInsn
  value_const lhs (integer_wire t r v) = constant_load_insn lhs type_tag_int (int_value v.number)
  value_const lhs (byte_wire r v) = constant_load_insn lhs type_tag_byte (byte_value v.number)
  value_const lhs (boolean_wire r v) =
      constant_load_insn lhs type_tag_boolean (bool_value (not (v == 0)))
  value_const lhs (float_wire r v) =
      constant_load_insn lhs type_tag_float (double_value v.pattern_bits)
  value_const lhs (string_wire r v) = constant_load_insn lhs type_tag_string (string_value v.text)
  value_const lhs (char_string_wire r v) =
      constant_load_insn lhs type_tag_string (string_value v.text)
  value_const lhs (nil_wire r) = constant_load_insn lhs type_tag_nil (int_value (pos 0))

  pub record CallWire : Type 0 where
    pub is_virtual : ℕ
    pub pkg : ℕ
    pub callee : StringRef cp
    pub arguments : Counted (OperandWire cp)
    pub lhs : Option (OperandWire cp)
    pub then_block : StringRef cp

  unfoldable pub encode_call : CallWire → List ℕ
  encode_call w =
      (w.is_virtual ∷ [])
      ++ (to_be 4 w.pkg
          ++ (to_be 4 w.callee.index
              ++ (to_be 4 (count w.arguments)
                  ++ (concat_map (encode_operand cp) w.arguments.items
                      ++ ((flag w.lhs ∷ [])
                          ++ (encode_optional (encode_operand cp) w.lhs
                              ++ to_be 4 w.then_block.index))))))

  -- Without a left side the operand has no name and no kind.
  unfoldable pub value_lhs : Option (OperandWire cp) → Operand
  value_lhs none = record { name = []; kind = not_a_kind }
  value_lhs (some w) = value_operand cp w

  unfoldable pub value_call : CallWire → TerminatorInsn
  value_call w =
      function_call_insn w.then_block.text (value_lhs w.lhs) w.callee.text
        (int32 (count w.arguments)) (map (value_operand cp) w.arguments.items)

  -- An instruction, with its parts in the order of the file.
  pub data InsnWire : Type 0 where
    type_desc_wire : OperandWire cp → ℕ → InsnWire
    structure_wire : OperandWire cp → OperandWire cp → Counted ConstructWire → InsnWire
    const_load_wire : OperandWire cp → ConstWire → InsnWire
    neg_wire : OperandWire cp → OperandWire cp → InsnWire
    not_wire : OperandWire cp → OperandWire cp → InsnWire
    binary_wire : BinaryKind → OperandWire cp → OperandWire cp → OperandWire cp → InsnWire
    cond_br_wire : OperandWire cp → StringRef cp → StringRef cp → InsnWire
    move_wire : OperandWire cp → OperandWire cp → InsnWire
    call_wire : CallWire → InsnWire
    type_cast_wire : OperandWire cp → OperandWire cp → TypeRef cp → ℕ → InsnWire
    type_test_wire : TypeRef cp → OperandWire cp → OperandWire cp → InsnWire
    array_wire : TypeRef cp → OperandWire cp → OperandWire cp → Counted (OperandWire cp) → InsnWire
    array_store_wire : OperandWire cp → OperandWire cp → OperandWire cp → InsnWire
    array_load_wire : ℕ → ℕ → OperandWire cp → OperandWire cp → OperandWire cp → InsnWire
    map_store_wire : OperandWire cp → OperandWire cp → OperandWire cp → InsnWire
    map_load_wire : ℕ → ℕ → OperandWire cp → OperandWire cp → OperandWire cp → InsnWire
    go_to_wire : StringRef cp → InsnWire
    return_wire : InsnWire

  unfoldable pub insn_number : InsnWire → ℕ
  insn_number (type_desc_wire l t) = 52
  insn_number (structure_wire r l cs) = 22
  insn_number (const_load_wire l c) = 21
  insn_number (neg_wire r l) = 82
  insn_number (not_wire r l) = 81
  insn_number (binary_wire k r s l) = binary_number k
  insn_number (cond_br_wire l a b) = 3
  insn_number (move_wire r l) = 20
  insn_number (call_wire c) = 2
  insn_number (type_cast_wire l r t c) = 29
  insn_number (type_test_wire t l r) = 31
  insn_number (array_wire t l s vs) = 25
  insn_number (array_store_wire l k r) = 26
  insn_number (array_load_wire a b l k r) = 27
  insn_number (map_store_wire l k r) = 23
  insn_number (map_load_wire a b l k r) = 24
  insn_number (go_to_wire b) = 1
  insn_number return_wire = 4

  unfoldable pub encode_access : OperandWire cp → OperandWire cp → OperandWire cp → List ℕ
  encode_access l k r = encode_operand cp l ++ (encode_operand cp k ++ encode_operand cp r)

  unfoldable pub encode_insn_body : InsnWire → List ℕ
  encode_insn_body (type_desc_wire l t) = encode_operand cp l ++ to_be 4 t
  encode_insn_body (structure_wire r l cs) =
      encode_operand cp r
      ++ (encode_operand cp l ++ (to_be 4 (count cs) ++ concat_map encode_construct cs.items))
  encode_insn_body (const_load_wire l c) =
      to_be 4 (const_type c) ++ (encode_operand cp l ++ encode_const c)
  encode_insn_body (neg_wire r l) = encode_operand cp r ++ encode_operand cp l
  encode_insn_body (not_wire r l) = encode_operand cp r ++ encode_operand cp l
  encode_insn_body (binary_wire k r s l) = encode_access r s l
  encode_insn_body (cond_br_wire l a b) =
      encode_operand cp l ++ (to_be 4 a.index ++ to_be 4 b.index)
  encode_insn_body (move_wire r l) = encode_operand cp r ++ encode_operand cp l
  encode_insn_body (call_wire c) = encode_call c
  encode_insn_body (type_cast_wire l r t c) =
      encode_operand cp l ++ (encode_operand cp r ++ (to_be 4 t.index ++ (c ∷ [])))
  encode_insn_body (type_test_wire t l r) =
      to_be 4 t.index ++ (encode_operand cp l ++ encode_operand cp r)
  encode_insn_body (array_wire t l s vs) =
      to_be 4 t.index
      ++ (encode_operand cp l
          ++ (encode_operand cp s
              ++ (to_be 4 (count vs) ++ concat_map (encode_operand cp) vs.items)))
  encode_insn_body (array_store_wire l k r) = encode_access l k r
  encode_insn_body (array_load_wire a b l k r) = (a ∷ []) ++ ((b ∷ []) ++ encode_access l k r)
  encode_insn_body (map_store_wire l k r) = encode_access l k r
  encode_insn_body (map_load_wire a b l k r) = (a ∷ []) ++ ((b ∷ []) ++ encode_access l k r)
  encode_insn_body (go_to_wire b) = to_be 4 b.index
  encode_insn_body return_wire = []

  unfoldable pub value_insn : InsnWire → InsnValue
  value_insn (type_desc_wire l t) = dropped
  value_insn (structure_wire r l cs) =
      inner (structure_insn (value_operand cp l) (map value_construct cs.items))
  value_insn (const_load_wire l c) = inner (value_const (value_operand cp l) c)
  value_insn (neg_wire r l) =
      inner (unary_op_insn (value_operand cp l) (value_operand cp r) instruction_kind_unary_neg)
  value_insn (not_wire r l) =
      inner (unary_op_insn (value_operand cp l) (value_operand cp r) instruction_kind_unary_not)
  value_insn (binary_wire k r s l) = inner (
      binary_op_insn (value_operand cp l) (value_operand cp r) (value_operand cp s) (binary_kind k))
  value_insn (cond_br_wire l a b) = ends (condition_br_insn (value_operand cp l) a.text b.text)
  value_insn (move_wire r l) = inner (move_insn (value_operand cp l) (value_operand cp r))
  value_insn (call_wire c) = ends (value_call c)
  value_insn (type_cast_wire l r t c) =
      inner (type_cast_insn (value_operand cp l) (value_operand cp r))
  value_insn (type_test_wire t l r) = inner (type_test_insn (value_operand cp l))
  value_insn (array_wire t l s vs) = inner (array_insn (value_operand cp l) (value_operand cp s))
  value_insn (array_store_wire l k r) =
      inner (array_store_insn (value_operand cp l) (value_operand cp k) (value_operand cp r))
  value_insn (array_load_wire a b l k r) =
      inner (array_load_insn (value_operand cp l) (value_operand cp k) (value_operand cp r))
  value_insn (map_store_wire l k r) =
      inner (map_store_insn (value_operand cp l) (value_operand cp k) (value_operand cp r))
  value_insn (map_load_wire a b l k r) =
      inner (map_load_insn (value_operand cp l) (value_operand cp k) (value_operand cp r))
  value_insn (go_to_wire b) = ends (goto_insn b.text)
  value_insn return_wire = ends return_insn
