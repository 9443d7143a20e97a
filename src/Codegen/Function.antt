-- ===== src/Codegen/Function.antt =====
-- compiler/codegen/BasicBlockCodeGen.cpp and FunctionCodeGen.cpp: the bodies of functions.
use nballerina_cpp.Base.{
  ℕ, ◌+◌, Bool, true, false, not, Option, none, some, List, [], ◌∷◌, codes, get_elem?,
}
use nballerina_cpp.Bir.Insn.{
  NonTerminatorInsn, structure_insn, constant_load_insn, unary_op_insn, binary_op_insn, move_insn,
  type_cast_insn, type_test_insn, array_insn, array_store_insn, array_load_insn, map_store_insn,
  map_load_insn, TerminatorInsn,
}
use nballerina_cpp.Bir.Program.{
  Variable, is_paramter, FunctionParam, BasicBlock, BirFunction, BirPackage,
}
use nballerina_cpp.Run.{out_of_range, unreachable, Run, ok, fault}
use nballerina_cpp.Codegen.Llvm.{Llvm}
use nballerina_cpp.Codegen.Gen.{
  Gen, pure, fail, call, gets, lift, deref, ◌>>=◌, ◌>>◌, perform, check, each,
}
use nballerina_cpp.Codegen.Types.{get_llvm_type_of_type}
use nballerina_cpp.Codegen.Scope.{FunctionCodeGen, get_basic_block}
use nballerina_cpp.Codegen.Constants.{visit_constant_load}
use nballerina_cpp.Codegen.Casts.{visit_type_cast}
use nballerina_cpp.Codegen.Insns.{visit_binary_op, visit_unary_op, visit_move}
use nballerina_cpp.Codegen.Structures.{
  visit_array, visit_array_load, visit_array_store, visit_map_store, visit_map_load,
  visit_structure,
}
use nballerina_cpp.Codegen.Terminators.{visit_terminator}

-- `requiredParams[index]`
unfoldable pub param_at : Option FunctionParam → Run FunctionParam
param_at none = fault out_of_range
param_at (some q) = ok q

module _ (L : Llvm) (p : BirPackage) (f : BirFunction) where
  -- `accept`: no visitor takes a `TypeTestInsn`.
  unfoldable pub visit_insn : FunctionCodeGen L → NonTerminatorInsn → Gen L.State (Unit {0})
  visit_insn fg (structure_insn lhs vs) = visit_structure L p f fg lhs vs
  visit_insn fg (constant_load_insn lhs t v) = visit_constant_load L p f fg lhs t v
  visit_insn fg (unary_op_insn lhs rhs k) = visit_unary_op L p f fg lhs rhs k
  visit_insn fg (binary_op_insn lhs a b k) = visit_binary_op L p f fg lhs a b k
  visit_insn fg (move_insn lhs rhs) = visit_move L p f fg lhs rhs
  visit_insn fg (type_cast_insn lhs rhs) = visit_type_cast L p f fg lhs rhs
  visit_insn fg (type_test_insn lhs) = fail unreachable
  visit_insn fg (array_insn lhs size) = visit_array L p f fg lhs size
  visit_insn fg (array_store_insn lhs k rhs) = visit_array_store L p f fg lhs k rhs
  visit_insn fg (array_load_insn lhs k rhs) = visit_array_load L p f fg lhs k rhs
  visit_insn fg (map_store_insn lhs k rhs) = visit_map_store L p f fg lhs k rhs
  visit_insn fg (map_load_insn lhs k rhs) = visit_map_load L p f fg lhs k rhs

  unfoldable pub visit_end : FunctionCodeGen L → Option TerminatorInsn → Gen L.State (Unit {0})
  visit_end fg none = pure tt
  visit_end fg (some t) = visit_terminator L f fg t

  unfoldable pub visit_block : FunctionCodeGen L → BasicBlock → Gen L.State (Unit {0})
  visit_block fg bb = do each bb.instructions (visit_insn fg); visit_end fg bb.terminator

  -- A parameter's variable takes the argument of its number.
  unfoldable pub store_argument : L.Func → Bool → ℕ → L.Value → Gen L.State ℕ
  store_argument func false index local_ref = pure index
  store_argument func true index local_ref = do
    param ← lift (param_at (get_elem? f.required_params index))
    perform (L.set_name (L.argument func index) param.operand.name)
    _ ← call (L.create_store (L.argument func index) local_ref)
    pure (index + 1)

  -- The variables in their order with their allocas.
  unfoldable pub visit_locals : L.Func → List Variable → ℕ → Gen L.State (List (List ℕ × L.Value))
  unfolding store_argument
  visit_locals func [] index = pure []
  visit_locals func (v ∷ vs) index = do
    type' ← get_llvm_type_of_type L v.type_of.tag
    local_ref ← call (L.create_alloca type' v.name)
    next ← store_argument func (is_paramter v) index local_ref
    refs ← visit_locals func vs next
    pure ((v.name, local_ref) ∷ refs)

  unfoldable pub create_blocks :
      L.Func → List BasicBlock → List (List ℕ × L.Block) → Gen L.State (List (List ℕ × L.Block))
  create_blocks func [] blocks = pure blocks
  create_blocks func (bb ∷ bbs) blocks = do
    block ← call (L.block_create bb.id func)
    create_blocks func bbs ((bb.id, block) ∷ blocks)

  unfoldable pub enter_first : FunctionCodeGen L → List BasicBlock → Gen L.State (Unit {0})
  enter_first fg [] = pure tt
  enter_first fg (bb ∷ bbs) = do
    block ← deref (get_basic_block L fg bb.id)
    perform (L.create_br block)

  unfoldable pub translate_block : FunctionCodeGen L → BasicBlock → Gen L.State (Unit {0})
  unfolding visit_block
  translate_block fg bb = do
    block ← deref (get_basic_block L fg bb.id)
    perform (L.set_insert_point block)
    visit_block fg bb

  -- What follows the local variables.
  unfoldable pub visit_body :
      L.Func → List (List ℕ × L.Value) → List BasicBlock → Gen L.State (Unit {0})
  unfolding create_blocks enter_first translate_block
  visit_body func refs bbs = do
    blocks ← create_blocks func bbs []
    let fg : FunctionCodeGen L = record {
      basic_blocks_map = blocks;
      local_var_refs = refs;
      llvm_function = func;
    }
    enter_first fg bbs
    each bbs (translate_block fg)
    broken ← gets (L.verify_function func)
    check (not broken)

  unfoldable pub visit_function : Gen L.State (Unit {0})
  unfolding visit_locals visit_body
  visit_function = do
    found ← gets (L.get_function f.name)
    func ← deref found
    entry ← call (L.block_create (codes "entry") func)
    perform (L.set_insert_point entry)
    refs ← visit_locals func f.local_vars 0
    visit_body func refs f.basic_blocks
