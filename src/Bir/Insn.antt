-- ===== src/Bir/Insn.antt =====
-- compiler/include/bir: operands and instructions.
use nballerina_cpp.Base.{ℕ, Bool, List, ℤ, pos}
use nballerina_cpp.Bir.TypeTag.{
  TypeTag, type_tag_int, type_tag_byte, type_tag_float, type_tag_string, type_tag_boolean,
  type_tag_nil,
}
use nballerina_cpp.Bir.Kinds.{VarKind, InstructionKind}

-- `Operand`: a name and a kind, as `AbstractVariable` has them.
pub record Operand : Type 0 where
  pub name : List ℕ
  pub kind : VarKind

-- `std::variant<int64_t, double, bool, uint8_t, std::string>`; a null load holds the first
-- alternative. A `double` is its bit pattern.
pub data ConstValue : Type 0 where
  int_value : ℤ → ConstValue
  double_value : ℕ → ConstValue
  bool_value : Bool → ConstValue
  byte_value : ℕ → ConstValue
  string_value : List ℕ → ConstValue

-- `MapConstruct`, with `SpreadField` and `KeyValue`.
pub data MapConstruct : Type 0 where
  spread_field : Operand → MapConstruct
  key_value : Operand → Operand → MapConstruct

-- The classes below `NonTerminatorInsn`; the first operand is `lhsOp`.
pub data NonTerminatorInsn : Type 0 where
  structure_insn : Operand → List MapConstruct → NonTerminatorInsn
  constant_load_insn : Operand → TypeTag → ConstValue → NonTerminatorInsn
  unary_op_insn : Operand → Operand → InstructionKind → NonTerminatorInsn
  binary_op_insn : Operand → Operand → Operand → InstructionKind → NonTerminatorInsn
  move_insn : Operand → Operand → NonTerminatorInsn
  type_cast_insn : Operand → Operand → NonTerminatorInsn
  type_test_insn : Operand → NonTerminatorInsn
  array_insn : Operand → Operand → NonTerminatorInsn
  -- `lhsOp`, `keyOp`, `rhsOp`
  array_store_insn : Operand → Operand → Operand → NonTerminatorInsn
  array_load_insn : Operand → Operand → Operand → NonTerminatorInsn
  map_store_insn : Operand → Operand → Operand → NonTerminatorInsn
  map_load_insn : Operand → Operand → Operand → NonTerminatorInsn

-- The classes below `TerminatorInsn`; block ids are `thenBBID` and `elseBBID`.
pub data TerminatorInsn : Type 0 where
  condition_br_insn : Operand → List ℕ → List ℕ → TerminatorInsn
  -- the next block, `lhsOp`, the function's name, `argCount` and the arguments
  function_call_insn : List ℕ → Operand → List ℕ → ℤ → List Operand → TerminatorInsn
  goto_insn : List ℕ → TerminatorInsn
  return_insn : TerminatorInsn

-- The factories of `ConstantLoadInsn`.
unfoldable pub int_const_load : Operand → ℤ → NonTerminatorInsn
int_const_load lhs v = constant_load_insn lhs type_tag_int (int_value v)

unfoldable pub byte_const_load : Operand → ℕ → NonTerminatorInsn
byte_const_load lhs v = constant_load_insn lhs type_tag_byte (byte_value v)

unfoldable pub float_const_load : Operand → ℕ → NonTerminatorInsn
float_const_load lhs v = constant_load_insn lhs type_tag_float (double_value v)

unfoldable pub bool_const_load : Operand → Bool → NonTerminatorInsn
bool_const_load lhs v = constant_load_insn lhs type_tag_boolean (bool_value v)

unfoldable pub string_const_load : Operand → List ℕ → NonTerminatorInsn
string_const_load lhs v = constant_load_insn lhs type_tag_string (string_value v)

unfoldable pub null_const_load : Operand → NonTerminatorInsn
null_const_load lhs = constant_load_insn lhs type_tag_nil (int_value (pos 0))
