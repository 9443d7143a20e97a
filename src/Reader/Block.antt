-- ===== src/Reader/Block.antt =====
-- compiler/reader/BIRReadInsns.cpp: `readInsn`; compiler/reader/BIRReadBasicBlock.cpp.

use nballerina_cpp.Bir.Kinds.{
  InstructionKind, instruction_kind_goto, instruction_kind_call,
  instruction_kind_conditional_branch, instruction_kind_return, instruction_kind_move,
  instruction_kind_const_load, instruction_kind_new_structure, instruction_kind_map_store,
  instruction_kind_map_load, instruction_kind_new_array, instruction_kind_array_store,
  instruction_kind_array_load, instruction_kind_type_cast, instruction_kind_type_test,
  instruction_kind_new_typedesc, instruction_kind_binary_add, instruction_kind_binary_sub,
  instruction_kind_binary_mul, instruction_kind_binary_div, instruction_kind_binary_mod,
  instruction_kind_binary_equal, instruction_kind_binary_not_equal,
  instruction_kind_binary_greater_than, instruction_kind_binary_greater_equal,
  instruction_kind_binary_less_than, instruction_kind_binary_less_equal, instruction_kind_unary_not,
  instruction_kind_unary_neg, instruction_kind_binary_bitwise_xor, to_instruction_kind,
}
use nballerina_cpp.Bir.Program.{BasicBlock, new_basic_block}
use nballerina_cpp.Run.{unsupported_instruction}
use nballerina_cpp.Reader.Monad.{Reader, fail, ◌>>=◌, ◌>>◌, rounds, reserve, iterate}
use nballerina_cpp.Reader.Primitives.{read_u1, read_s4be}
use nballerina_cpp.Reader.Pool.Set.{ConstantPoolSet}
use nballerina_cpp.Reader.Insns.{
  string_at, read_type_desc_insn, read_structure_insn, read_const_load_insn, read_unary_insn,
  read_binary_insn, read_cond_br_insn, read_move_insn, read_func_call_insn, read_type_cast_insn,
  read_type_test_insn, read_array_insn, read_array_store_insn, read_map_store_insn,
  read_array_load_insn, read_map_load_insn, read_go_to_insn, read_return_insn,
}

module _ (cp : ConstantPoolSet) where
  -- The `switch` over the kind of the instruction.
  unfoldable pub read_insn_body : InstructionKind → BasicBlock → Reader BasicBlock
  read_insn_body instruction_kind_new_typedesc bb = read_type_desc_insn cp bb
  read_insn_body instruction_kind_new_structure bb = read_structure_insn cp bb
  read_insn_body instruction_kind_const_load bb = read_const_load_insn cp bb
  read_insn_body instruction_kind_goto bb = read_go_to_insn cp bb
  read_insn_body instruction_kind_return bb = read_return_insn cp bb
  read_insn_body instruction_kind_binary_add bb = read_binary_insn cp instruction_kind_binary_add bb
  read_insn_body instruction_kind_binary_sub bb = read_binary_insn cp instruction_kind_binary_sub bb
  read_insn_body instruction_kind_binary_mul bb = read_binary_insn cp instruction_kind_binary_mul bb
  read_insn_body instruction_kind_binary_div bb = read_binary_insn cp instruction_kind_binary_div bb
  read_insn_body instruction_kind_binary_equal bb =
      read_binary_insn cp instruction_kind_binary_equal bb
  read_insn_body instruction_kind_binary_not_equal bb =
      read_binary_insn cp instruction_kind_binary_not_equal bb
  read_insn_body instruction_kind_binary_greater_than bb =
      read_binary_insn cp instruction_kind_binary_greater_than bb
  read_insn_body instruction_kind_binary_greater_equal bb =
      read_binary_insn cp instruction_kind_binary_greater_equal bb
  read_insn_body instruction_kind_binary_less_than bb =
      read_binary_insn cp instruction_kind_binary_less_than bb
  read_insn_body instruction_kind_binary_less_equal bb =
      read_binary_insn cp instruction_kind_binary_less_equal bb
  read_insn_body instruction_kind_binary_bitwise_xor bb =
      read_binary_insn cp instruction_kind_binary_bitwise_xor bb
  read_insn_body instruction_kind_binary_mod bb = read_binary_insn cp instruction_kind_binary_mod bb
  read_insn_body instruction_kind_unary_neg bb = read_unary_insn cp instruction_kind_unary_neg bb
  read_insn_body instruction_kind_unary_not bb = read_unary_insn cp instruction_kind_unary_not bb
  read_insn_body instruction_kind_conditional_branch bb = read_cond_br_insn cp bb
  read_insn_body instruction_kind_move bb = read_move_insn cp bb
  read_insn_body instruction_kind_call bb = read_func_call_insn cp bb
  read_insn_body instruction_kind_type_cast bb = read_type_cast_insn cp bb
  read_insn_body instruction_kind_type_test bb = read_type_test_insn cp bb
  read_insn_body instruction_kind_new_array bb = read_array_insn cp bb
  read_insn_body instruction_kind_array_store bb = read_array_store_insn cp bb
  read_insn_body instruction_kind_array_load bb = read_array_load_insn cp bb
  read_insn_body instruction_kind_map_store bb = read_map_store_insn cp bb
  read_insn_body instruction_kind_map_load bb = read_map_load_insn cp bb
  read_insn_body _ bb = fail unsupported_instruction

  -- The position is read, and its file name must exist.
  unfoldable pub read_insn : BasicBlock → Reader BasicBlock
  read_insn bb = do
    file_index ← read_s4be
    _ ← read_s4be
    _ ← read_s4be
    _ ← read_s4be
    _ ← read_s4be
    _ ← string_at cp file_index
    kind' ← read_u1
    read_insn_body (to_instruction_kind kind') bb

  unfoldable pub read_basic_block : Reader BasicBlock
  read_basic_block = do
    name_index ← read_s4be
    id' ← string_at cp name_index
    count ← read_s4be
    reserve count
    iterate (rounds count) read_insn (new_basic_block id')
