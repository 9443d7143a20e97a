-- ===== src/Codegen/Terminators.antt =====
-- compiler/codegen/TerminatorInsnCodeGen.cpp
use nballerina_cpp.Base.{ℕ, not, Option, none, some, List, if◌then◌else◌, codes}
use nballerina_cpp.Bir.Insn.{
  Operand, TerminatorInsn, condition_br_insn, function_call_insn, goto_insn, return_insn,
}
use nballerina_cpp.Bir.Program.{BirFunction, is_main_function}
use nballerina_cpp.Codegen.Llvm.{Llvm}
use nballerina_cpp.Codegen.Gen.{Gen, pure, call, gets, deref, ◌>>=◌, ◌>>◌, perform, check, collect}
use nballerina_cpp.Codegen.Types.{is_none}
use nballerina_cpp.Codegen.Scope.{
  FunctionCodeGen, get_basic_block, get_local_val, get_local_or_global_val, create_temp_val,
  store_to, return_variable,
}

module _ (L : Llvm) (f : BirFunction) (fg : FunctionCodeGen L) where
  -- A block that the `assert` wants to be there.
  unfoldable pub target_block : List ℕ → Gen L.State L.Block
  target_block id' = do
    check (not (is_none (get_basic_block L fg id')))
    deref (get_basic_block L fg id')

  unfoldable pub visit_condition_br : Operand → List ℕ → List ℕ → Gen L.State (Unit {0})
  unfolding target_block
  visit_condition_br lhs then_id else_id = do
    lhs_temp ← create_temp_val L fg lhs
    condition ← call (L.create_is_not_null lhs_temp lhs.name)
    then_block ← target_block then_id
    else_block ← target_block else_id
    perform (L.create_cond_br condition then_block else_block)

  -- Without a block to go on with there is no branch.
  unfoldable pub branch_to : Option L.Block → Gen L.State (Unit {0})
  branch_to (some next) = perform (L.create_br next)
  branch_to none = pure tt

  unfoldable pub visit_function_call :
      List ℕ → Operand → List ℕ → List Operand → Gen L.State (Unit {0})
  unfolding branch_to
  visit_function_call then_id lhs function_name args = do
    params ← collect args (create_temp_val L fg)
    lhs_ref ← get_local_or_global_val L fg lhs
    found ← gets (L.get_function function_name)
    func ← deref found
    result ← call (L.create_call (L.callee func) params (codes "call"))
    store_to L result lhs_ref
    branch_to (get_basic_block L fg then_id)

  unfoldable pub visit_go_to : List ℕ → Gen L.State (Unit {0})
  unfolding target_block
  visit_go_to id' = do next ← target_block id'; perform (L.create_br next)

  unfoldable pub return_value : Gen L.State (Unit {0})
  return_value = do
    variable ← return_variable L f
    pointer ← deref (get_local_val L fg variable.name)
    value ← call (L.create_load pointer (codes "return_val_temp"))
    perform (L.create_ret value)

  unfoldable pub visit_return : Gen L.State (Unit {0})
  unfolding return_value
  visit_return = if is_main_function f then perform L.create_ret_void else return_value

  unfoldable pub visit_terminator : TerminatorInsn → Gen L.State (Unit {0})
  unfolding visit_condition_br visit_function_call visit_go_to visit_return
  visit_terminator (condition_br_insn lhs then_id else_id) = visit_condition_br lhs then_id else_id
  visit_terminator (function_call_insn then_id lhs name' count args) =
      visit_function_call then_id lhs name' args
  visit_terminator (goto_insn id') = visit_go_to id'
  visit_terminator return_insn = visit_return
