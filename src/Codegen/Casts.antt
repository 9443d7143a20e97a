-- ===== src/Codegen/Casts.antt =====
-- compiler/codegen/TypeCastInsnCodeGen.cpp
use nballerina_cpp.Base.{Bool, true, false, Option, [], ◌∷◌}
use nballerina_cpp.Bir.TypeTag.{TypeTag, type_tag_int, type_tag_float, type_tag_boolean}
use nballerina_cpp.Bir.Types.{is_bal_value_type}
use nballerina_cpp.Bir.Insn.{Operand}
use nballerina_cpp.Bir.Program.{BirFunction, BirPackage}
use nballerina_cpp.Run.{unreachable}
use nballerina_cpp.Codegen.Llvm.{Llvm}
use nballerina_cpp.Codegen.Gen.{Gen, pure, fail, call, deref, ◌>>=◌}
use nballerina_cpp.Codegen.Boxing.{
  get_any_to_int_function, create_bal_value, get_bool_to_any_func, get_any_to_bool_func,
}
use nballerina_cpp.Codegen.Scope.{
  FunctionCodeGen, get_local_or_global_val, create_temp_val, store_to,
}
use nballerina_cpp.Codegen.Insns.{type_of_operand}

module _ (L : Llvm) (p : BirPackage) (f : BirFunction) (fg : FunctionCodeGen L) where
  -- A cast by a call of a generated function.
  unfoldable pub call_cast :
      Gen L.State L.Func → Option L.Value → Option L.Value → Gen L.State (Unit {0})
  call_cast get_func rhs_ref lhs_ref = do
    pointer ← deref rhs_ref
    value ← call (L.create_load pointer [])
    func ← get_func
    result ← call (L.create_call (L.callee func) (value ∷ []) [])
    store_to L result lhs_ref

  -- Out of a value of any type.
  unfoldable pub cast_from_any : TypeTag → Option L.Value → Option L.Value → Gen L.State (Unit {0})
  cast_from_any type_tag_boolean rhs_ref lhs_ref =
      call_cast (get_any_to_bool_func L) rhs_ref lhs_ref
  cast_from_any type_tag_int rhs_ref lhs_ref = call_cast (get_any_to_int_function L) rhs_ref lhs_ref
  cast_from_any _ rhs_ref lhs_ref = fail unreachable

  -- The last `else`: the result of the cast is not stored.
  unfoldable pub cast_bits : Option L.Value → Option L.Value → Gen L.State (Unit {0})
  cast_bits rhs_ref lhs_ref = do
    rhs' ← deref rhs_ref
    lhs' ← deref lhs_ref
    _ ← call (L.create_bit_cast rhs' (L.type_of lhs'))
    pure tt

  -- Into a value of any type, where there is a case for it.
  unfoldable pub cast_to_any : TypeTag → Option L.Value → Option L.Value → Gen L.State (Unit {0})
  unfolding call_cast cast_bits
  cast_to_any type_tag_boolean rhs_ref lhs_ref = call_cast (get_bool_to_any_func L) rhs_ref lhs_ref
  cast_to_any type_tag_int rhs_ref lhs_ref = do
    pointer ← deref rhs_ref
    value ← create_bal_value L pointer type_tag_int
    store_to L value lhs_ref
  cast_to_any _ rhs_ref lhs_ref = cast_bits rhs_ref lhs_ref

  -- Between plain types: from floats to ints alone.
  unfoldable pub cast_plain :
      TypeTag → TypeTag → Option L.Value → Option L.Value → Gen L.State (Unit {0})
  unfolding cast_bits
  cast_plain type_tag_int type_tag_float rhs_ref lhs_ref = do
    rhs' ← deref rhs_ref
    rhs_load ← call (L.create_load rhs' [])
    lhs' ← deref lhs_ref
    lhs_load ← call (L.create_load lhs' [])
    result ← call (L.create_fp_to_si rhs_load (L.type_of lhs_load))
    store_to L result lhs_ref
  cast_plain _ _ rhs_ref lhs_ref = cast_bits rhs_ref lhs_ref

  -- The cases by whether the right and the left side are values of any type.
  unfoldable pub cast_between :
      Bool
      → Bool
      → TypeTag
      → TypeTag
      → Operand
      → Option L.Value
      → Option L.Value
      → Gen L.State (Unit {0})
  unfolding cast_from_any cast_to_any cast_plain
  cast_between true true lhs_tag rhs_tag rhs rhs_ref lhs_ref =
      create_temp_val L fg rhs >>= λ value. store_to L value lhs_ref
  cast_between true false lhs_tag rhs_tag rhs rhs_ref lhs_ref =
      cast_from_any lhs_tag rhs_ref lhs_ref
  cast_between false true lhs_tag rhs_tag rhs rhs_ref lhs_ref = cast_to_any rhs_tag rhs_ref lhs_ref
  cast_between false false lhs_tag rhs_tag rhs rhs_ref lhs_ref =
      cast_plain lhs_tag rhs_tag rhs_ref lhs_ref

  -- `lhsOpRef->getType()` comes first, and needs the left side.
  unfoldable pub visit_type_cast : Operand → Operand → Gen L.State (Unit {0})
  unfolding type_of_operand cast_between
  visit_type_cast lhs rhs = do
    rhs_ref ← get_local_or_global_val L fg rhs
    lhs_ref ← get_local_or_global_val L fg lhs
    _ ← deref lhs_ref
    lhs_type ← type_of_operand L p f fg lhs
    rhs_type ← type_of_operand L p f fg rhs
    cast_between (is_bal_value_type rhs_type.tag) (is_bal_value_type lhs_type.tag) lhs_type.tag
        rhs_type.tag rhs rhs_ref lhs_ref
