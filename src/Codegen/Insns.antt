-- ===== src/Codegen/Insns.antt =====
-- compiler/codegen: the visitors of operators and moves, BinaryOpInsnCodeGen.cpp,
-- UnaryOpInsnCodeGen.cpp and MoveInsnCodeGen.cpp.
use nballerina_cpp.Base.{ℕ, List, ◌++◌, codes}
use nballerina_cpp.Bir.TypeTag.{TypeTag, type_tag_int, type_tag_float, type_tag_nil}
use nballerina_cpp.Bir.Types.{BalType}
use nballerina_cpp.Bir.Kinds.{
  InstructionKind, instruction_kind_binary_add, instruction_kind_binary_sub,
  instruction_kind_binary_mul, instruction_kind_binary_div, instruction_kind_binary_mod,
  instruction_kind_binary_equal, instruction_kind_binary_not_equal,
  instruction_kind_binary_greater_than, instruction_kind_binary_greater_equal,
  instruction_kind_binary_less_than, instruction_kind_binary_less_equal, instruction_kind_unary_not,
  instruction_kind_unary_neg, instruction_kind_binary_bitwise_xor,
}
use nballerina_cpp.Bir.Insn.{Operand}
use nballerina_cpp.Bir.Program.{BirFunction, BirPackage, get_local_or_global_variable}
use nballerina_cpp.Run.{unreachable, Run, ok, fault}
use nballerina_cpp.Codegen.Llvm.{
  Opcode, add, fadd, sub, fsub, mul, fmul, udiv, fdiv, urem, frem, bit_xor, Predicate, icmp_eq,
  icmp_ne, icmp_sgt, icmp_sge, icmp_slt, icmp_sle, fcmp_oeq, fcmp_one, fcmp_ogt, fcmp_oge, fcmp_olt,
  fcmp_ole, Llvm,
}
use nballerina_cpp.Codegen.Gen.{Gen, pure, fail, call, lift, ◌>>=◌}
use nballerina_cpp.Codegen.Scope.{
  FunctionCodeGen, get_local_or_global_val, create_temp_val, store_to,
}

-- Which method of the builder a binary instruction calls.
pub data BinaryCall : Type 0 where
  arithmetic : Opcode → BinaryCall
  comparison : Predicate → BinaryCall

-- The choice between ints and floats in each case of the `switch`.
unfoldable pub int_or_float : TypeTag → BinaryCall → BinaryCall → Run BinaryCall
int_or_float type_tag_int i f = ok i
int_or_float type_tag_float i f = ok f
int_or_float _ i f = fault unreachable

-- Nils are compared for equality too, though not for inequality.
unfoldable pub equality : TypeTag → Run BinaryCall
equality type_tag_nil = ok (comparison icmp_eq)
equality t = int_or_float t (comparison icmp_eq) (comparison fcmp_oeq)

unfoldable pub select_binary : InstructionKind → TypeTag → Run BinaryCall
unfolding int_or_float equality
select_binary instruction_kind_binary_add t = int_or_float t (arithmetic add) (arithmetic fadd)
select_binary instruction_kind_binary_sub t = int_or_float t (arithmetic sub) (arithmetic fsub)
select_binary instruction_kind_binary_mul t = int_or_float t (arithmetic mul) (arithmetic fmul)
select_binary instruction_kind_binary_div t = int_or_float t (arithmetic udiv) (arithmetic fdiv)
select_binary instruction_kind_binary_mod t = int_or_float t (arithmetic urem) (arithmetic frem)
select_binary instruction_kind_binary_greater_than t =
    int_or_float t (comparison icmp_sgt) (comparison fcmp_ogt)
select_binary instruction_kind_binary_greater_equal t =
    int_or_float t (comparison icmp_sge) (comparison fcmp_oge)
select_binary instruction_kind_binary_less_than t =
    int_or_float t (comparison icmp_slt) (comparison fcmp_olt)
select_binary instruction_kind_binary_less_equal t =
    int_or_float t (comparison icmp_sle) (comparison fcmp_ole)
select_binary instruction_kind_binary_equal t = equality t
select_binary instruction_kind_binary_not_equal t =
    int_or_float t (comparison icmp_ne) (comparison fcmp_one)
select_binary instruction_kind_binary_bitwise_xor t = ok (arithmetic bit_xor)
select_binary _ t = fault unreachable

module _ (L : Llvm) (p : BirPackage) (f : BirFunction) (fg : FunctionCodeGen L) where
  -- `getLocalOrGlobalVariable(op).getType()`
  unfoldable pub type_of_operand : Operand → Gen L.State BalType
  type_of_operand op = do
    variable ← lift (get_local_or_global_variable p f op)
    pure variable.type_of

  unfoldable pub build_binary : BinaryCall → L.Value → L.Value → List ℕ → Gen L.State L.Value
  build_binary (arithmetic o) a b name' = call (L.create_binary o a b name')
  build_binary (comparison c) a b name' = call (L.create_cmp c a b name')

  unfoldable pub visit_binary_op :
      Operand → Operand → Operand → InstructionKind → Gen L.State (Unit {0})
  unfolding type_of_operand build_binary
  visit_binary_op lhs rhs1 rhs2 kind' = do
    lhs_ref ← get_local_or_global_val L fg lhs
    rhs1_ref ← create_temp_val L fg rhs1
    rhs2_ref ← create_temp_val L fg rhs2
    rhs_type ← type_of_operand rhs1
    choice ← lift (select_binary kind' rhs_type.tag)
    result ← build_binary choice rhs1_ref rhs2_ref (lhs.name ++ codes "_temp")
    store_to L result lhs_ref

  unfoldable pub build_unary : InstructionKind → L.Value → List ℕ → Gen L.State L.Value
  build_unary instruction_kind_unary_not a name' = call (L.create_not a name')
  build_unary instruction_kind_unary_neg a name' = call (L.create_neg a name')
  build_unary _ a name' = fail unreachable

  unfoldable pub visit_unary_op : Operand → Operand → InstructionKind → Gen L.State (Unit {0})
  unfolding build_unary
  visit_unary_op lhs rhs kind' = do
    lhs_ref ← get_local_or_global_val L fg lhs
    rhs_ref ← create_temp_val L fg rhs
    result ← build_unary kind' rhs_ref (lhs.name ++ codes "_temp")
    store_to L result lhs_ref

  unfoldable pub visit_move : Operand → Operand → Gen L.State (Unit {0})
  visit_move lhs rhs = do
    lhs_ref ← get_local_or_global_val L fg lhs
    rhs_ref ← create_temp_val L fg rhs
    store_to L rhs_ref lhs_ref
