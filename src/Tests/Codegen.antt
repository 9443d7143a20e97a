-- ===== src/Tests/Codegen.antt =====
-- The generator on a block of a function, with the library that runs the code.
use nballerina_cpp.Base.{
  ℕ, ◌-◌, ◌^◌, ◌≡◌, refl, subst, ◌⊎◌, Option, none, some, List, [], ◌∷◌, bytes_eq, codes, All, pos,
  int64, bits64,
}
use nballerina_cpp.Bir.TypeTag.{TypeTag, type_tag_int, type_tag_float, type_tag_boolean}
use nballerina_cpp.Bir.Types.{anonymous, array_type}
use nballerina_cpp.Bir.Kinds.{
  local_var_kind, is_global, is_arg, instruction_kind_binary_sub, instruction_kind_binary_mul,
  instruction_kind_binary_greater_than, instruction_kind_unary_neg,
  instruction_kind_binary_bitwise_xor,
}
use nballerina_cpp.Bir.Insn.{
  Operand, int_value, constant_load_insn, unary_op_insn, binary_op_insn, return_insn,
}
use nballerina_cpp.Bir.Program.{
  Variable, is_paramter, BasicBlock, new_basic_block, BirFunction, BirPackage, find_variable,
  get_local_variable, is_main_function,
}
use nballerina_cpp.Run.{ok}
use nballerina_cpp.Codegen.Function.{visit_block, create_blocks}
use nballerina_cpp.Codegen.Gen.{each, collect}
use nballerina_cpp.Codegen.Interpreter.{
  width_of, less, bit, int_operator, value_operator, constant, Env, apply_one, apply_two, set,
  set_result, set_constant, step, steps,
}
use nballerina_cpp.Codegen.Selection.{compares, is_comparison, FitsType, select_binary-FitsType}
use nballerina_cpp.Codegen.Llvm.{fmul}
use nballerina_cpp.Codegen.Insns.{arithmetic, int_or_float, select_binary}
use nballerina_cpp.Codegen.Package.{declare_function}
use nballerina_cpp.Codegen.Types.{get_llvm_type_of_type}
use nballerina_cpp.Codegen.Labels.{branch_to_blocks}
use nballerina_cpp.Codegen.Declarations.{declare_functions_found}
use nballerina_cpp.Codegen.Terminators.{visit_condition_br, visit_go_to}
use nballerina_cpp.Codegen.Scope.{
  lookup, FunctionCodeGen, get_local_val, get_local_or_global_val, return_variable,
  get_ret_val_type,
}
use nballerina_cpp.Codegen.Slots.{IsApart, lookup-All, lookup-IsApart}
use nballerina_cpp.Codegen.Simulation.Variables.{not_none, HasType, IsScope, Agrees}
use nballerina_cpp.Codegen.Simulation.Blocks.{TypedBy, IsTyped, visit_block_returns}
use nballerina_cpp.Tests.Machine.{
  address, Machine, holds, IsSlot, machine, reading, lawful, functions,
}

abbrev pub variable : TypeTag → List ℕ → Variable
variable t n = record {
  type_of = record {
    tag = t;
    name = anonymous;
    info = array_type (record { member_type = type_tag_int; size = pos 0; state = pos 0 });
  };
  name = n;
  kind = local_var_kind;
}

abbrev pub operand : List ℕ → Operand
operand n = record { name = n; kind = local_var_kind }

-- `r = -(x - x * y)` for x = 6 and y = 7, and whether r > x.
abbrev block : BasicBlock
block = record {
  id = codes "bb0";
  terminator = some return_insn;
  instructions =
      constant_load_insn (operand (codes "x")) type_tag_int (int_value (pos 6))
      ∷ constant_load_insn (operand (codes "y")) type_tag_int (int_value (pos 7))
      ∷ binary_op_insn (operand (codes "r")) (operand (codes "x")) (operand (codes "y"))
          instruction_kind_binary_mul
      ∷ binary_op_insn (operand (codes "r")) (operand (codes "x")) (operand (codes "r"))
          instruction_kind_binary_sub
      ∷ unary_op_insn (operand (codes "r")) (operand (codes "r")) instruction_kind_unary_neg
      ∷ binary_op_insn (operand (codes "b")) (operand (codes "r")) (operand (codes "x"))
          instruction_kind_binary_greater_than
      ∷ [];
}

abbrev pub function : BirFunction
function = record {
  location = record {
    file_name = [];
    s_line = pos 0;
    s_col = pos 0;
    e_line = pos 0;
    e_col = pos 0;
  };
  name = codes "f";
  worker_name = [];
  flags = 0;
  return_var = some (variable type_tag_int (codes "r"));
  local_vars =
      variable type_tag_int (codes "x")
      ∷ variable type_tag_int (codes "y")
      ∷ variable type_tag_int (codes "r")
      ∷ variable type_tag_boolean (codes "b")
      ∷ [];
  basic_blocks = block ∷ [];
  required_params = [];
}

abbrev pub sources : BirPackage
sources = record {
  org = [];
  name = [];
  version = [];
  source_file_name = [];
  global_vars = [];
  functions = function ∷ [];
}

abbrev scope : FunctionCodeGen machine
scope = record {
  basic_blocks_map = [];
  local_var_refs =
      (codes "x", address 64 0)
      ∷ (codes "y", address 64 1)
      ∷ (codes "r", address 64 2)
      ∷ (codes "b", address 1 3)
      ∷ [];
  llvm_function = 0;
}

abbrev start : Machine
start = record { memory = λ w k. none; result = none; next = 4; functions = (codes "f", 7) ∷ [] }

runs : Unit {0}
unfolding get_local_val lookup bytes_eq IsSlot IsApart find_variable get_local_variable width_of
    is_global TypedBy steps step set set_result set_constant constant int_operator value_operator
    bit less apply_one apply_two is_main_function bits64 int64 holds is_paramter is_arg
runs = tt

scope-IsScope : IsScope machine reading lawful sources function scope
unfolding runs
scope-IsScope = (
  λ n q h.
      lookup-All (λ v. (w : ℕ) × IsSlot w v) n q scope.local_var_refs
        ((64, refl), ((64, refl), ((64, refl), ((1, refl), tt)))) h,
  λ n m q.
      lookup-IsApart n m q scope.local_var_refs
        ((cc, (cc, (cc, tt))), ((cc, (cc, tt)), ((cc, tt), (tt, tt)))),
)

-- No variable has a value.
abbrev nothing : Env
nothing n = none

start-Agrees : Agrees machine reading lawful sources function scope start nothing
start-Agrees n q at x h = absurd (not_none h)

int_at :
    (n : List ℕ) (k : ℕ) (v : Variable)
    → get_local_variable function n ≡ ok v
    → v.type_of.tag ≡ type_tag_int
    → get_local_val machine scope n ≡ some (address 64 k)
    → HasType machine reading lawful sources function scope (operand n) type_tag_int
unfolding runs
int_at n k v found tag at = (refl, v, found, tag, 64, refl, address 64 k, at, refl)

b-HasType :
    HasType machine reading lawful sources function scope (operand (codes "b")) type_tag_boolean
unfolding runs
b-HasType =
    (refl, variable type_tag_boolean (codes "b"), refl, refl, 1, refl, address 1 3, refl, refl)

-- The types of the operands, by whatever says the types of variables.
block_typed :
    (P : Operand → TypeTag → Type 0)
    → P (operand (codes "x")) type_tag_int
    → P (operand (codes "y")) type_tag_int
    → P (operand (codes "r")) type_tag_int
    → P (operand (codes "b")) type_tag_boolean
    → All (TypedBy P) block.instructions
unfolding runs
block_typed P x y r b = (
  x,
  (
    y,
    (
      (x, y, λ i j k t h. subst (P (operand (codes "r"))) (same k t h) r),
      (
        (x, r, λ i j k t h. subst (P (operand (codes "r"))) (same k t h) r),
        (
          λ i k t h. (
            subst (P (operand (codes "r"))) (same k t h) r,
            subst (P (operand (codes "r"))) (same k t h) r,
          ),
          ((r, x, λ i j k t h. subst (P (operand (codes "b"))) (same k t h) b), tt),
        ),
      ),
    ),
  ),
)
  where
    same :
        {x : ℕ} {u : TypeTag} (y : ℕ) (t : TypeTag)
        → ◌≡◌ {A = Option (TypeTag × ℕ)} (some (u, x)) (some (t, y))
        → u ≡ t
    same y t h = cc

block-IsTyped : All (IsTyped machine reading lawful sources function scope) block.instructions
unfolding runs
block-IsTyped =
    block_typed (HasType machine reading lawful sources function scope)
      (int_at (codes "x") 0 (variable type_tag_int (codes "x")) refl refl refl)
      (int_at (codes "y") 1 (variable type_tag_int (codes "y")) refl refl refl)
      (int_at (codes "r") 2 (variable type_tag_int (codes "r")) refl refl refl) b-HasType

abbrev after : Env → Env
unfolding set
after env = set (codes "b") 1 (
    set (codes "r") 36 (
      set (codes "r") (2 ^ 64 - 36)
        (set (codes "r") 42 (set (codes "y") 7 (set (codes "x") 6 env)))))

block-steps : (env : Env) → steps block.instructions env ≡ some (after env)
unfolding runs
block-steps env = refl

visit_block_returns_example :
    (s' : Machine) × (visit_block machine sources function scope block start ≡ ok (tt, s'))
    × (s'.result ≡ some 36)
unfolding runs
visit_block_returns_example =
    visit_block_returns machine reading lawful sources function scope scope-IsScope block start
      nothing (after nothing) (variable type_tag_int (codes "r")) (address 64 2) 64 36 refl refl
      refl refl refl block-IsTyped (block-steps nothing) refl start-Agrees

select_binary-FitsType_example :
    ((instruction_kind_binary_mul ≡ instruction_kind_binary_bitwise_xor)
      ⊎ FitsType instruction_kind_binary_mul type_tag_float (arithmetic fmul))
    × (compares (arithmetic fmul) ≡ is_comparison instruction_kind_binary_mul)
unfolding select_binary int_or_float
select_binary-FitsType_example =
    select_binary-FitsType instruction_kind_binary_mul type_tag_float (arithmetic fmul) refl

abbrev blocks : List BasicBlock
blocks = block ∷ new_basic_block (codes "bb1") ∷ []

abbrev labelled : FunctionCodeGen machine
labelled = record scope { basic_blocks_map = (codes "bb1", 0) ∷ (codes "bb0", 0) ∷ [] }

branch_to_blocks_example :
    All
      (λ (bb : BasicBlock).
        (t' : Machine) × (visit_go_to machine function labelled bb.id start ≡ ok (tt, t')))
      blocks
    × All
        (λ (bb : BasicBlock).
          All
            (λ (bb' : BasicBlock).
              (t' : Machine) × (visit_condition_br machine function labelled
                  (operand (codes "b"))
                  bb.id
                  bb'.id
                  start
                ≡ ok (tt, t')))
            blocks)
        blocks
unfolding create_blocks new_basic_block get_local_or_global_val get_local_val lookup is_global
    bytes_eq
branch_to_blocks_example =
    branch_to_blocks machine sources function labelled 7 blocks start start refl
      (operand (codes "b")) (address 1 3) start refl

abbrev helper : BirFunction
helper = record function { name = codes "g" }

abbrev declared : Machine
declared = record start { functions = (codes "f", 7) ∷ (codes "f", 0) ∷ (codes "g", 0) ∷ [] }

declare_functions_found_example :
    All
      (λ (f : BirFunction). (g : ℕ) × (machine.get_function f.name declared ≡ some g))
      (function ∷ helper ∷ [])
    × ((m : List ℕ) (g : ℕ)
        → machine.get_function m start ≡ some g
        → machine.get_function m declared ≡ some g)
unfolding each declare_function collect get_ret_val_type return_variable get_llvm_type_of_type
    is_main_function bytes_eq
declare_functions_found_example =
    declare_functions_found machine functions (function ∷ helper ∷ []) start declared
      (((λ h. cc), refl), (((λ h. cc), refl), tt)) refl
