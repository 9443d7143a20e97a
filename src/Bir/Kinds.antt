-- ===== src/Bir/Kinds.antt =====
-- compiler/include/interfaces/AbstractVariable.h and AbstractInstruction.h: the enumerations of the
-- kinds of variables and instructions.
use nballerina_cpp.Base.{ℕ, zero, suc, Bool, true, false, List, [], ◌∷◌, ◌==◌, if◌then◌else◌}

-- A byte that is no enumerator is kept.
pub data VarKind : Type 0 where
  not_a_kind local_var_kind arg_var_kind temp_var_kind return_var_kind global_var_kind : VarKind
  self_var_kind constant_var_kind synthetic_var_kind : VarKind
  unnamed_var_kind : ℕ → VarKind

var_kinds : List VarKind
var_kinds =
    not_a_kind ∷ local_var_kind ∷ arg_var_kind ∷ temp_var_kind ∷ return_var_kind ∷ global_var_kind
    ∷ self_var_kind ∷ constant_var_kind ∷ synthetic_var_kind ∷ []

var_kind_at : ℕ → List VarKind → ℕ → VarKind
var_kind_at n [] i = unnamed_var_kind n
var_kind_at n (k ∷ ks) zero = k
var_kind_at n (k ∷ ks) (suc i) = var_kind_at n ks i

-- The cast `(VarKind)n`.
unfoldable pub to_var_kind : ℕ → VarKind
unfolding var_kinds var_kind_at
to_var_kind n = var_kind_at n var_kinds n

-- `op.getKind() == GLOBAL_VAR_KIND`, and the test for `ARG_VAR_KIND`.
unfoldable pub is_global : VarKind → Bool
is_global global_var_kind = true
is_global _ = false

unfoldable pub is_arg : VarKind → Bool
is_arg arg_var_kind = true
is_arg _ = false

pub data InstructionKind : Type 0 where
  instruction_not_an_instruction instruction_kind_goto instruction_kind_call : InstructionKind
  instruction_kind_conditional_branch instruction_kind_return : InstructionKind
  instruction_kind_binary_ref_equal instruction_kind_binary_ref_not_equal : InstructionKind
  instruction_kind_binary_closed_range instruction_kind_binary_half_open_range : InstructionKind
  instruction_kind_binary_annot_access instruction_kind_binary_bitwise_and : InstructionKind
  instruction_kind_binary_bitwise_or instruction_kind_binary_bitwise_left_shift : InstructionKind
  instruction_kind_move instruction_kind_const_load : InstructionKind
  instruction_kind_new_structure instruction_kind_map_store : InstructionKind
  instruction_kind_map_load instruction_kind_new_array : InstructionKind
  instruction_kind_array_store instruction_kind_array_load : InstructionKind
  instruction_kind_type_cast instruction_kind_type_test : InstructionKind
  instruction_kind_new_typedesc instruction_kind_binary_add : InstructionKind
  instruction_kind_binary_sub instruction_kind_binary_mul : InstructionKind
  instruction_kind_binary_div instruction_kind_binary_mod : InstructionKind
  instruction_kind_binary_equal instruction_kind_binary_not_equal : InstructionKind
  instruction_kind_binary_greater_than instruction_kind_binary_greater_equal : InstructionKind
  instruction_kind_binary_less_than instruction_kind_binary_less_equal : InstructionKind
  instruction_kind_unary_not instruction_kind_unary_neg : InstructionKind
  instruction_kind_binary_bitwise_xor : InstructionKind
  instruction_kind_binary_bitwise_unsigned_right_shift : InstructionKind
  unnamed_instruction : ℕ → InstructionKind

-- The enumerators with their values.
instruction_kinds : List (ℕ × InstructionKind)
instruction_kinds =
    (0, instruction_not_an_instruction)
    ∷ (1, instruction_kind_goto)
    ∷ (2, instruction_kind_call)
    ∷ (3, instruction_kind_conditional_branch)
    ∷ (4, instruction_kind_return)
    ∷ (5, instruction_kind_binary_ref_equal)
    ∷ (6, instruction_kind_binary_ref_not_equal)
    ∷ (7, instruction_kind_binary_closed_range)
    ∷ (8, instruction_kind_binary_half_open_range)
    ∷ (9, instruction_kind_binary_annot_access)
    ∷ (10, instruction_kind_binary_bitwise_and)
    ∷ (11, instruction_kind_binary_bitwise_or)
    ∷ (12, instruction_kind_binary_bitwise_left_shift)
    ∷ (20, instruction_kind_move)
    ∷ (21, instruction_kind_const_load)
    ∷ (22, instruction_kind_new_structure)
    ∷ (23, instruction_kind_map_store)
    ∷ (24, instruction_kind_map_load)
    ∷ (25, instruction_kind_new_array)
    ∷ (26, instruction_kind_array_store)
    ∷ (27, instruction_kind_array_load)
    ∷ (29, instruction_kind_type_cast)
    ∷ (31, instruction_kind_type_test)
    ∷ (52, instruction_kind_new_typedesc)
    ∷ (61, instruction_kind_binary_add)
    ∷ (62, instruction_kind_binary_sub)
    ∷ (63, instruction_kind_binary_mul)
    ∷ (64, instruction_kind_binary_div)
    ∷ (65, instruction_kind_binary_mod)
    ∷ (66, instruction_kind_binary_equal)
    ∷ (67, instruction_kind_binary_not_equal)
    ∷ (68, instruction_kind_binary_greater_than)
    ∷ (69, instruction_kind_binary_greater_equal)
    ∷ (70, instruction_kind_binary_less_than)
    ∷ (71, instruction_kind_binary_less_equal)
    ∷ (81, instruction_kind_unary_not)
    ∷ (82, instruction_kind_unary_neg)
    ∷ (85, instruction_kind_binary_bitwise_xor)
    ∷ (86, instruction_kind_binary_bitwise_unsigned_right_shift)
    ∷ []

instruction_kind_of : ℕ → List (ℕ × InstructionKind) → InstructionKind
instruction_kind_of n [] = unnamed_instruction n
instruction_kind_of n ((v, k) ∷ rest) = if v == n then k else instruction_kind_of n rest

-- The cast `(InstructionKind)n`.
unfoldable pub to_instruction_kind : ℕ → InstructionKind
unfolding instruction_kinds instruction_kind_of
to_instruction_kind n = instruction_kind_of n instruction_kinds
