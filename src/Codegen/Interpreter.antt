-- ===== src/Codegen/Interpreter.antt =====
-- What straight-line instructions on ints, bytes and booleans mean, apart from compiler/codegen: an
-- interpreter of BIR over the bit patterns of the variables.
use nballerina_cpp.Base.{
  ℕ, ◌+◌, ◌-◌, ◌*◌, ◌%◌, ◌^◌, Bool, true, false, not, Option, none, some, List, [], ◌∷◌, ltb, ◌==◌,
  if◌then◌else◌, bytes_eq, ℤ, pos, negsuc, int64, bits64,
}
use nballerina_cpp.Bir.TypeTag.{TypeTag, type_tag_int, type_tag_byte, type_tag_boolean}
use nballerina_cpp.Bir.Kinds.{
  InstructionKind, instruction_kind_binary_add, instruction_kind_binary_sub,
  instruction_kind_binary_mul, instruction_kind_binary_equal, instruction_kind_binary_not_equal,
  instruction_kind_binary_greater_than, instruction_kind_binary_greater_equal,
  instruction_kind_binary_less_than, instruction_kind_binary_less_equal, instruction_kind_unary_not,
  instruction_kind_unary_neg, instruction_kind_binary_bitwise_xor,
}
use nballerina_cpp.Bir.Insn.{
  ConstValue, int_value, bool_value, byte_value, NonTerminatorInsn, constant_load_insn,
  unary_op_insn, binary_op_insn, move_insn,
}
use Prim.Native.Nat.{bit_xor}

-- The bits of a value of a type, for the types that the interpreter knows.
unfoldable pub width_of : TypeTag → Option ℕ
width_of type_tag_int = some 64
width_of type_tag_byte = some 8
width_of type_tag_boolean = some 1
width_of _ = none

unfoldable pub less : ℤ → ℤ → Bool
less (pos m) (pos n) = ltb m n
less (pos m) (negsuc n) = false
less (negsuc m) (pos n) = true
less (negsuc m) (negsuc n) = ltb n m

unfoldable pub bit : Bool → ℕ
bit true = 1
bit false = 0

-- The operators on two ints, with the type of the result: arithmetic wraps around, and comparisons
-- are of signed numbers.
unfoldable pub int_operator : InstructionKind → ℕ → ℕ → Option (TypeTag × ℕ)
unfolding bit less
int_operator instruction_kind_binary_add a b = some (type_tag_int, (a + b) % 2 ^ 64)
int_operator instruction_kind_binary_sub a b = some (type_tag_int, (a + (2 ^ 64 - b)) % 2 ^ 64)
int_operator instruction_kind_binary_mul a b = some (type_tag_int, a * b % 2 ^ 64)
int_operator instruction_kind_binary_bitwise_xor a b = some (type_tag_int, bit_xor a b)
int_operator instruction_kind_binary_equal a b = some (type_tag_boolean, bit (a == b))
int_operator instruction_kind_binary_not_equal a b = some (type_tag_boolean, bit (not (a == b)))
int_operator instruction_kind_binary_less_than a b =
    some (type_tag_boolean, bit (less (int64 a) (int64 b)))
int_operator instruction_kind_binary_greater_than a b =
    some (type_tag_boolean, bit (less (int64 b) (int64 a)))
int_operator instruction_kind_binary_less_equal a b =
    some (type_tag_boolean, bit (not (less (int64 b) (int64 a))))
int_operator instruction_kind_binary_greater_equal a b =
    some (type_tag_boolean, bit (not (less (int64 a) (int64 b))))
int_operator _ a b = none

-- The operators on one value, with the type that it and the result have.
unfoldable pub value_operator : InstructionKind → ℕ → Option (TypeTag × ℕ)
value_operator instruction_kind_unary_neg a = some (type_tag_int, (2 ^ 64 - a) % 2 ^ 64)
value_operator instruction_kind_unary_not a = some (type_tag_boolean, 1 - a)
value_operator _ a = none

unfoldable pub constant : TypeTag → ConstValue → Option ℕ
unfolding bit
constant type_tag_int (int_value v) = some (bits64 v)
constant type_tag_byte (byte_value v) = some (v % 2 ^ 8)
constant type_tag_boolean (bool_value v) = some (bit v)
constant _ _ = none

-- The values of the variables, where `none` is a variable that has none yet.
abbrev pub Env : Type 0
Env = List ℕ → Option ℕ

-- An operator on values that may be missing.
unfoldable pub apply_one : {A : Type 0} → (ℕ → Option A) → Option ℕ → Option A
apply_one f none = none
apply_one f (some a) = f a

unfoldable pub apply_two : {A : Type 0} → (ℕ → ℕ → Option A) → Option ℕ → Option ℕ → Option A
unfolding apply_one
apply_two f none b = none
apply_two f (some a) b = apply_one (f a) b

unfoldable pub set : List ℕ → ℕ → Env → Env
set name' x env m = if bytes_eq name' m then some x else env m

unfoldable pub set_result : List ℕ → Option (TypeTag × ℕ) → Env → Option Env
unfolding set
set_result name' none env = none
set_result name' (some (t, x)) env = some (set name' x env)

unfoldable pub set_constant : List ℕ → Option ℕ → Env → Option Env
unfolding set
set_constant name' none env = none
set_constant name' (some x) env = some (set name' x env)

-- An operand without a value stops the run.
unfoldable pub step : NonTerminatorInsn → Env → Option Env
unfolding set_result set_constant apply_two
step (constant_load_insn lhs t v) env = set_constant lhs.name (constant t v) env
step (move_insn lhs rhs) env = set_constant lhs.name (env rhs.name) env
step (unary_op_insn lhs rhs k) env =
    set_result lhs.name (apply_one (value_operator k) (env rhs.name)) env
step (binary_op_insn lhs a b k) env =
    set_result lhs.name (apply_two (int_operator k) (env a.name) (env b.name)) env
step _ env = none

unfoldable pub steps : List NonTerminatorInsn → Env → Option Env
unfolding step
steps [] env = some env
steps (i ∷ is) env = elim (step i env) [ none ↦ none | some env' ↦ steps is env' ]
