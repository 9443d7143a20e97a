-- ===== src/Codegen/Simulation/Defined.antt =====
-- compiler/codegen: where the interpreter of BIR gives the instructions of a block a result.
use nballerina_cpp.Base.{
  ℕ, ◌≡◌, refl, ap, subst, inl, inr, Option, none, some, bytes_eq, Bool-cases, List, [], ◌∷◌, All,
}
use nballerina_cpp.Bir.Insn.{
  NonTerminatorInsn, constant_load_insn, unary_op_insn, binary_op_insn, move_insn, TerminatorInsn,
}
use nballerina_cpp.Bir.Program.{BasicBlock}
use nballerina_cpp.Bir.TypeTag.{TypeTag}
use nballerina_cpp.Codegen.Interpreter.{
  constant, value_operator, int_operator, Env, apply_one, apply_two, set, set_constant, set_result,
  step, steps,
}
use nballerina_cpp.Codegen.Jumps.{Exit, leave, with_env, run_block}

-- The interpreter knows the instruction and gives it a result, whatever values the operands have.
unfoldable pub IsDefined : NonTerminatorInsn → Type 0
IsDefined (constant_load_insn lhs t v) = (x : ℕ) × (constant t v ≡ some x)
IsDefined (move_insn lhs rhs) = Unit {0}
IsDefined (unary_op_insn lhs rhs k) = (x : ℕ) → (r : TypeTag × ℕ) × (value_operator k x ≡ some r)
IsDefined (binary_op_insn lhs a b k) = (x y : ℕ) → (r : TypeTag × ℕ) × (int_operator k x y ≡ some r)
IsDefined _ = ⊥

-- Every variable has a value.
abbrev pub IsTotal : Env → Type 0
IsTotal env = (n : List ℕ) → (x : ℕ) × (env n ≡ some x)

set-IsTotal : (name' : List ℕ) (x : ℕ) (env : Env) → IsTotal env → IsTotal (set name' x env)
unfolding set
set-IsTotal name' x env total n = elim (Bool-cases (bytes_eq name' n)) [
  | inl e ↦ (x, rw e refl)
  | inr e ↦ let (y, known) = total n in (y, rw e known)
]

step-defined :
    (i : NonTerminatorInsn) (env : Env)
    → IsDefined i
    → IsTotal env
    → (env' : Env) × (step i env ≡ some env') × IsTotal env'
unfolding step IsDefined set_constant set_result apply_one apply_two
step-defined (constant_load_insn lhs t v) env (x, e) total =
    (set lhs.name x env, rw (e, set_constant) refl, set-IsTotal lhs.name x env total)
step-defined (move_insn lhs rhs) env defined total =
    let (x, e) = total rhs.name in
    (set lhs.name x env, rw (e, set_constant) refl, set-IsTotal lhs.name x env total)
step-defined (unary_op_insn lhs rhs k) env defined total =
    let (x, e) = total rhs.name in
    let ((t, y), applied) = defined x in
    (
      set lhs.name y env,
      rw (e, apply_one, applied, set_result) refl,
      set-IsTotal lhs.name y env total,
    )
step-defined (binary_op_insn lhs a b k) env defined total =
    let (x, e) = total a.name in
    let (x', e') = total b.name in
    let ((t, y), applied) = defined x x' in
    (
      set lhs.name y env,
      rw (e, e', apply_two, apply_one, applied, set_result) refl,
      set-IsTotal lhs.name y env total,
    )
step-defined _ env defined total = absurd defined

pub steps-defined :
    (is : List NonTerminatorInsn) (env : Env)
    → All IsDefined is
    → IsTotal env
    → (env' : Env) × (steps is env ≡ some env')
unfolding steps
steps-defined [] env all total = (env, refl)
steps-defined (i ∷ is) env (defined, all) total =
    let (env1, stepped, total1) = step-defined i env defined total in
    let (env', rest) = steps-defined is env1 all total1 in (env', rw (steps, stepped) rest)

with_env-some :
    (m : Option Exit) (env env' : Env) (e : Exit)
    → with_env env m ≡ some (e, env')
    → (m ≡ some e) × (env ≡ env')
unfolding with_env
with_env-some none env env' e h = cc
with_env-some (some e') env env' e h = (cc, cc)

run_steps-some :
    (m : Option Env) (ret : List ℕ) (t : Option TerminatorInsn) (env' : Env) (e : Exit)
    → elim m [ none ↦ none | some env1 ↦ with_env env1 (leave ret t env1) ] ≡ some (e, env')
    → (m ≡ some env') × (leave ret t env' ≡ some e)
run_steps-some none ret t env' e h = cc
run_steps-some (some env1) ret t env' e h =
    let (leaving, same) = with_env-some (leave ret t env1) env1 env' e h in
    (ap some same, subst (λ z. leave ret t z ≡ some e) same leaving)

pub run_block-some :
    (ret : List ℕ) (bb : BasicBlock) (env env' : Env) (e : Exit)
    → run_block ret bb env ≡ some (e, env')
    → (steps bb.instructions env ≡ some env') × (leave ret bb.terminator env' ≡ some e)
unfolding run_block
run_block-some ret bb env env' e h =
    run_steps-some (steps bb.instructions env) ret bb.terminator env' e h
