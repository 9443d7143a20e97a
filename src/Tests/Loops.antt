-- ===== src/Tests/Loops.antt =====
-- The generator on a function with a parameter and a loop, with the library that records the code.
use nballerina_cpp.Tests.RecorderLaws.{recorder_lawful}
use nballerina_cpp.Run.{ok}
use nballerina_cpp.Codegen.Gen.{check}
use nballerina_cpp.Codegen.Function.{visit_function}
use nballerina_cpp.Codegen.Flow.{reading, run_code}
use nballerina_cpp.Codegen.Simulation.Functions.{IsLocal}
use nballerina_cpp.Codegen.Simulation.Translation.{IsSound}
use nballerina_cpp.Codegen.Simulation.Defined.{IsDefined}
use nballerina_cpp.Codegen.Simulation.Executions.{visit_function_runs}
use nballerina_cpp.Base.{
  ℕ, suc, ◌≡◌, refl, subst, not, Option, none, some, List, [], ◌∷◌, bytes_eq, codes, pos, int64,
  bits64,
}
use nballerina_cpp.Bir.TypeTag.{TypeTag, type_tag_int, type_tag_boolean}
use nballerina_cpp.Bir.Kinds.{
  arg_var_kind, is_global, is_arg, instruction_kind_binary_sub, instruction_kind_binary_mul,
  instruction_kind_binary_greater_than,
}
use nballerina_cpp.Bir.Insn.{
  Operand, int_value, constant_load_insn, binary_op_insn, condition_br_insn, goto_insn, return_insn,
}
use nballerina_cpp.Bir.Program.{
  Variable, is_paramter, BasicBlock, BirFunction, find_variable, get_local_variable,
  is_main_function,
}
use nballerina_cpp.Codegen.Scope.{lookup, get_local_val}
use nballerina_cpp.Codegen.Interpreter.{
  width_of, less, bit, int_operator, value_operator, constant, apply_one, apply_two, set,
  set_result, set_constant, step, steps,
}
use nballerina_cpp.Codegen.Jumps.{
  branch, give, leave, with_env, run_block, find_block, run_found, go_on, run_blocks, argument_of,
  argument, with_arguments,
}
use nballerina_cpp.Codegen.Simulation.Blocks.{TypedBy}
use nballerina_cpp.Codegen.Simulation.Branches.{IsKnown}
use nballerina_cpp.Codegen.Simulation.Entry.{Takes, Passes}
use nballerina_cpp.Codegen.Simulation.Graphs.{IsUnique}
use nballerina_cpp.Tests.Codegen.{variable, operand, function, sources}
use nballerina_cpp.Tests.Recorder.{Value, Recorder, empty, width, recorder, flow}

abbrev int_variable : List ℕ → Variable
int_variable n = variable type_tag_int n

-- `r = 1; while (n > z) { r = r * n; n = n - o; }` for the parameter n, z = 0 and o = 1.
abbrev set_up : BasicBlock
set_up = record {
  id = codes "bb0";
  terminator = some (goto_insn (codes "bb1"));
  instructions =
      constant_load_insn (operand (codes "r")) type_tag_int (int_value (pos 1))
      ∷ constant_load_insn (operand (codes "z")) type_tag_int (int_value (pos 0))
      ∷ constant_load_insn (operand (codes "o")) type_tag_int (int_value (pos 1))
      ∷ [];
}

abbrev test : BasicBlock
test = record {
  id = codes "bb1";
  terminator = some (condition_br_insn (operand (codes "t")) (codes "bb2") (codes "bb3"));
  instructions =
      binary_op_insn (operand (codes "t")) (operand (codes "n")) (operand (codes "z"))
        instruction_kind_binary_greater_than
      ∷ [];
}

abbrev round : BasicBlock
round = record {
  id = codes "bb2";
  terminator = some (goto_insn (codes "bb1"));
  instructions =
      binary_op_insn (operand (codes "r")) (operand (codes "r")) (operand (codes "n"))
        instruction_kind_binary_mul
      ∷ binary_op_insn (operand (codes "n")) (operand (codes "n")) (operand (codes "o"))
          instruction_kind_binary_sub
      ∷ [];
}

abbrev finish : BasicBlock
finish = record { id = codes "bb3"; terminator = some return_insn; instructions = [] }

abbrev factorial : BirFunction
factorial = record function {
  name = codes "factorial";
  local_vars =
      record (int_variable (codes "n")) { kind = arg_var_kind }
      ∷ int_variable (codes "r")
      ∷ int_variable (codes "z")
      ∷ int_variable (codes "o")
      ∷ variable type_tag_boolean (codes "t")
      ∷ [];
  basic_blocks = set_up ∷ test ∷ round ∷ finish ∷ [];
  required_params =
      (record { operand = operand (codes "n"); type_of = (int_variable (codes "n")).type_of }) ∷ [];
}

abbrev begin : Recorder
begin = record {
  blocks = λ b. empty;
  current = 0;
  next_block = 0;
  next_slot = 0;
  result = λ c. none;
  functions = (codes "factorial", 7) ∷ [];
}

rules : Unit {0}
unfolding get_local_val lookup bytes_eq find_variable get_local_variable width_of is_global TypedBy
    steps step set set_result set_constant constant int_operator value_operator bit less
    is_main_function bits64 int64 is_paramter is_arg run_blocks go_on run_found run_block with_env
    find_block leave with_arguments argument_of argument IsDefined apply_one apply_two branch give
    IsUnique IsKnown Passes Takes
rules = tt

-- For n = 4.
run-factorial :
    run_blocks factorial.basic_blocks
      (codes "r")
      11
      (codes "bb0")
      (with_arguments (flow.passed 7) factorial.local_vars)
    ≡ some 24
unfolding rules
run-factorial = refl

abbrev Local : Operand → TypeTag → Type 0
Local =
    IsLocal recorder (reading recorder flow λ q. some 0) (recorder_lawful.instructions λ q. some 0)
      sources factorial

local :
    (n : List ℕ) (t : TypeTag) (w : ℕ) (v : Variable)
    → get_local_variable factorial n ≡ ok v
    → v.type_of.tag ≡ t
    → width_of t ≡ some w
    → Local (operand n) t
unfolding rules
local n t w v found tag width = (refl, v, found, tag, w, width)

Local-int :
    (n : List ℕ) (v : Variable)
    → get_local_variable factorial n ≡ ok v
    → v.type_of.tag ≡ type_tag_int
    → Local (operand n) type_tag_int
unfolding rules
Local-int n v found tag = local n type_tag_int 64 v found tag refl

param : Local (operand (codes "n")) type_tag_int
unfolding rules
param = Local-int (codes "n") (record (int_variable (codes "n")) { kind = arg_var_kind }) refl refl

temp : Local (operand (codes "t")) type_tag_boolean
unfolding rules
temp = local (codes "t") type_tag_boolean 1 (variable type_tag_boolean (codes "t")) refl refl refl

accumulator : Local (operand (codes "r")) type_tag_int
unfolding rules
accumulator = Local-int (codes "r") (int_variable (codes "r")) refl refl

zero_constant : Local (operand (codes "z")) type_tag_int
unfolding rules
zero_constant = Local-int (codes "z") (int_variable (codes "z")) refl refl

one_constant : Local (operand (codes "o")) type_tag_int
unfolding rules
one_constant = Local-int (codes "o") (int_variable (codes "o")) refl refl

tag_of :
    (t t' : TypeTag) (x y : ℕ)
    → ◌≡◌ {A = Option (TypeTag × ℕ)} (some (t, x)) (some (t', y))
    → t ≡ t'
tag_of t t' x y h = cc

typed_result :
    (op : Operand) (t t' : TypeTag) (x y : ℕ)
    → ◌≡◌ {A = Option (TypeTag × ℕ)} (some (t, x)) (some (t', y))
    → Local op t
    → Local op t'
typed_result op t t' x y h l = subst (Local op) (tag_of t t' x y h) l

set_up-IsSound : IsSound factorial.basic_blocks Local set_up
unfolding rules
set_up-IsSound = (
  (accumulator, (zero_constant, (one_constant, tt))),
  ((_, refl), ((_, refl), ((_, refl), tt))),
  (test, refl),
)

test-IsSound : IsSound factorial.basic_blocks Local test
unfolding rules
test-IsSound = (
  (
    (
      param,
      zero_constant,
      λ x y z t h. typed_result (operand (codes "t")) type_tag_boolean t _ z h temp,
    ),
    tt,
  ),
  (λ x y. (_, refl), tt),
  (temp, (round, refl), (finish, refl)),
)

round-IsSound : IsSound factorial.basic_blocks Local round
unfolding rules
round-IsSound = (
  (
    (
      accumulator,
      param,
      λ x y z t h. typed_result (operand (codes "r")) type_tag_int t _ z h accumulator,
    ),
    (
      (
        param,
        one_constant,
        λ x y z t h. typed_result (operand (codes "n")) type_tag_int t _ z h param,
      ),
      tt,
    ),
  ),
  (λ x y. (_, refl), (λ x y. (_, refl), tt)),
  (test, refl),
)

factorial-IsUnique : IsUnique factorial.basic_blocks
unfolding rules
factorial-IsUnique = ((refl, (refl, (refl, tt))), ((refl, (refl, tt)), ((refl, tt), (tt, tt))))

factorial-Passes : Passes recorder flow recorder_lawful sources factorial 7 0 factorial.local_vars
unfolding rules
factorial-Passes = (
  64,
  refl,
  (
    record { operand = operand (codes "n"); type_of = (int_variable (codes "n")).type_of },
    refl,
    refl,
  ),
  (64, refl, tt, (64, refl, tt, (64, refl, tt, (1, refl, tt, tt)))),
)

visit_function_runs_example :
    (s' : Recorder) × (visit_function recorder sources factorial begin
      ≡ check (not (recorder.verify_function 7 s')) s')
    × ((μ : Value → Option ℕ) (n x : ℕ)
        → run_blocks factorial.basic_blocks
            (codes "r")
            n
            (codes "bb0")
            (with_arguments (flow.passed 7) factorial.local_vars)
          ≡ some x
        → run_code recorder flow s' (suc n) 1 μ ≡ some x)
unfolding rules
visit_function_runs_example =
    visit_function_runs recorder flow recorder_lawful sources factorial 7 begin set_up
      (test ∷ round ∷ finish ∷ []) (int_variable (codes "r")) (int_variable (codes "r")) 64 refl
      refl refl refl refl refl factorial-Passes factorial-IsUnique
      (set_up-IsSound, (test-IsSound, (round-IsSound, ((tt, tt, tt), tt))))

-- The code that is built computes the factorial of the argument 4.
factorial-returns :
    (s' : Recorder) × ((μ : Value → Option ℕ) → run_code recorder flow s' 12 1 μ ≡ some 24)
unfolding rules
factorial-returns =
    let (s', built, runs) =
      visit_function_runs recorder flow recorder_lawful sources factorial 7 begin set_up
        (test ∷ round ∷ finish ∷ []) (int_variable (codes "r")) (int_variable (codes "r")) 64 refl
        refl refl refl refl refl factorial-Passes factorial-IsUnique
        (set_up-IsSound, (test-IsSound, (round-IsSound, ((tt, tt, tt), tt)))) in
    (s', λ μ. runs μ 11 24 run-factorial)
