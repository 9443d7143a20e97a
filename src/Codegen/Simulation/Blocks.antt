-- ===== src/Codegen/Simulation/Blocks.antt =====
-- compiler/codegen/BasicBlockCodeGen.cpp: the code of straight-line blocks.
use nballerina_cpp.Base.{
  ℕ, ◌≡◌, refl, subst, ◌∙◌, false, Option, none, some, List, [], ◌∷◌, codes, All,
}
use nballerina_cpp.Bir.TypeTag.{TypeTag, type_tag_int}
use nballerina_cpp.Bir.Insn.{
  Operand, NonTerminatorInsn, constant_load_insn, unary_op_insn, binary_op_insn, move_insn,
  return_insn,
}
use nballerina_cpp.Bir.Program.{Variable, BasicBlock, BirFunction, BirPackage, is_main_function}
use nballerina_cpp.Run.{ok}
use nballerina_cpp.Codegen.Llvm.{Llvm}
use nballerina_cpp.Codegen.Gen.{◌>>=◌, ◌>>◌, each}
use nballerina_cpp.Codegen.Scope.{FunctionCodeGen, get_local_val, return_variable}
use nballerina_cpp.Codegen.Constants.{visit_constant_load}
use nballerina_cpp.Codegen.Insns.{visit_binary_op, visit_unary_op, visit_move}
use nballerina_cpp.Codegen.Function.{visit_insn, visit_end, visit_block}
use nballerina_cpp.Codegen.Terminators.{return_value, visit_return, visit_terminator}
use nballerina_cpp.Codegen.Meaning.{Reading, Lawful}
use nballerina_cpp.Codegen.Interpreter.{
  int_operator, value_operator, constant, Env, apply_one, apply_two, set, set_result, set_constant,
  step, steps,
}
use nballerina_cpp.Codegen.Simulation.Variables.{
  not_none, HasType, IsScope, Agrees, Ends, after-Ends,
}
use nballerina_cpp.Codegen.Simulation.Operators.{visit_binary_op-step, visit_unary_op-step}
use nballerina_cpp.Codegen.Simulation.Constants.{visit_move-step, visit_constant_load-step}

env_injective : (a b : Env) → some a ≡ some b → a ≡ b
env_injective a b h = cc

set_result-some :
    (n : List ℕ) (m : Option (TypeTag × ℕ)) (env env' : Env)
    → set_result n m env ≡ some env'
    → (t : TypeTag) × (x : ℕ) × (m ≡ some (t, x)) × (set n x env ≡ env')
unfolding set_result
set_result-some n none env env' h = absurd (not_none h)
set_result-some n (some (t, x)) env env' h = (t, x, refl, env_injective _ env' h)

set_constant-some :
    (n : List ℕ) (m : Option ℕ) (env env' : Env)
    → set_constant n m env ≡ some env'
    → (x : ℕ) × (m ≡ some x) × (set n x env ≡ env')
unfolding set_constant
set_constant-some n none env env' h = absurd (not_none h)
set_constant-some n (some x) env env' h = (x, refl, env_injective _ env' h)

apply_one-some :
    {A : Type 0} (g : ℕ → Option A) (m : Option ℕ) (r : A)
    → apply_one g m ≡ some r
    → (x : ℕ) × (m ≡ some x) × (g x ≡ some r)
unfolding apply_one
apply_one-some g none r h = absurd (not_none h)
apply_one-some g (some x) r h = (x, refl, h)

apply_two-some :
    {A : Type 0} (g : ℕ → ℕ → Option A) (m m' : Option ℕ) (r : A)
    → apply_two g m m' ≡ some r
    → (x y : ℕ) × (m ≡ some x) × (m' ≡ some y) × (g x y ≡ some r)
unfolding apply_two
apply_two-some g none m' r h = absurd (not_none h)
apply_two-some g (some x) m' r h =
    let (y, e, e') = apply_one-some (g x) m' r h in (x, y, refl, e, e')

steps-some :
    (m : Option Env) (is : List NonTerminatorInsn) (env' : Env)
    → elim m [ none ↦ none | some e ↦ steps is e ] ≡ some env'
    → (e : Env) × (m ≡ some e) × (steps is e ≡ some env')
steps-some none is env' h = absurd (not_none h)
steps-some (some e) is env' h = (e, refl, h)

-- The operands of an instruction have the types that its operator asks for.
unfoldable pub TypedBy : (Operand → TypeTag → Type 0) → NonTerminatorInsn → Type 0
TypedBy P (constant_load_insn lhs t v) = P lhs t
TypedBy P (move_insn lhs rhs) = (t : TypeTag) × P lhs t × P rhs t
TypedBy P (unary_op_insn lhs rhs k) =
    (x y : ℕ) (t : TypeTag) → value_operator k x ≡ some (t, y) → P lhs t × P rhs t
TypedBy P (binary_op_insn lhs a b k) =
    P a type_tag_int
    × P b type_tag_int
    × ((x y z : ℕ) (t : TypeTag) → int_operator k x y ≡ some (t, z) → P lhs t)
TypedBy P _ = ⊥

pub weaken-TypedBy :
    (P Q : Operand → TypeTag → Type 0)
    → ((op : Operand) (t : TypeTag) → P op t → Q op t)
    → (i : NonTerminatorInsn) → TypedBy P i
    → TypedBy Q i
unfolding TypedBy
weaken-TypedBy P Q f (constant_load_insn lhs t v) h = f lhs t h
weaken-TypedBy P Q f (move_insn lhs rhs) (t, hl, hr) = (t, f lhs t hl, f rhs t hr)
weaken-TypedBy P Q f (unary_op_insn lhs rhs k) h =
    λ x y t e. let (hl, hr) = h x y t e in (f lhs t hl, f rhs t hr)
weaken-TypedBy P Q f (binary_op_insn lhs a b k) (ha, hb, h) =
    (f a type_tag_int ha, f b type_tag_int hb, λ x y z t e. f lhs t (h x y z t e))
weaken-TypedBy P Q f _ h = absurd h

module _ (L : Llvm) (R : Reading L) (laws : Lawful L R) (p : BirPackage) (f : BirFunction)
    (fg : FunctionCodeGen L) where
  abbrev pub IsTyped : NonTerminatorInsn → Type 0
  IsTyped = TypedBy (HasType L R laws p f fg)

  pub visit_insn-step :
      IsScope L R laws p f fg
      → (s : L.State) (env env' : Env) (insn : NonTerminatorInsn) → IsTyped insn
      → step insn env ≡ some env'
      → Agrees L R laws p f fg s env
      → Ends L R laws p f fg s (visit_insn L p f fg insn s) env'
  unfolding visit_insn TypedBy step set_result set_constant
  visit_insn-step scope s env env' (constant_load_insn lhs t v) typed h agrees =
      let (x, e, same) = set_constant-some lhs.name (constant t v) env env' h in
      subst (Ends L R laws p f fg s (visit_constant_load L p f fg lhs t v s)) same
        (visit_constant_load-step L R laws p f fg scope s env lhs t v x typed e agrees)
  visit_insn-step scope s env env' (move_insn lhs rhs) (t, hl, hr) h agrees =
      let (x, known, same) = set_constant-some lhs.name (env rhs.name) env env' h in
      subst (Ends L R laws p f fg s (visit_move L p f fg lhs rhs s)) same
        (visit_move-step L R laws p f fg scope s env lhs rhs t hl hr x known agrees)
  visit_insn-step scope s env env' (unary_op_insn lhs rhs k) typed h agrees =
      let (t, x, applied, same) =
        set_result-some lhs.name (apply_one (value_operator k) (env rhs.name)) env env' h in
      let (i, known, e) = apply_one-some (value_operator k) (env rhs.name) (t, x) applied in
      let (hl, hr) = typed i x t e in
      subst (Ends L R laws p f fg s (visit_unary_op L p f fg lhs rhs k s)) same
        (visit_unary_op-step L R laws p f fg scope s env lhs rhs k t i x hl hr known e agrees)
  visit_insn-step scope s env env' (binary_op_insn lhs a b k) (ha, hb, typed) h agrees =
      let (t, x, applied, same) =
        set_result-some lhs.name (apply_two (int_operator k) (env a.name) (env b.name)) env env'
          h in
      let (i, j, hi, hj, e) =
        apply_two-some (int_operator k) (env a.name) (env b.name) (t, x) applied in
      subst (Ends L R laws p f fg s (visit_binary_op L p f fg lhs a b k s)) same (
        visit_binary_op-step L R laws p f fg scope s env lhs a b k t i j x (typed i j x t e) ha hb
          hi hj e agrees)
  visit_insn-step scope s env env' _ typed h agrees = absurd typed

  -- Instructions in a row.
  pub each-steps :
      IsScope L R laws p f fg
      → (is : List NonTerminatorInsn) (s : L.State) (env env' : Env) → All IsTyped is
      → steps is env ≡ some env'
      → Agrees L R laws p f fg s env
      → Ends L R laws p f fg s (each is (visit_insn L p f fg) s) env'
  unfolding each steps
  each-steps scope [] s env env' typed h agrees = (
    s,
    refl,
    subst (Agrees L R laws p f fg s) (env_injective env env' h) agrees,
    laws.preserves_refl s,
  )
  each-steps scope (i ∷ is) s env env' (typed, typed') h agrees =
      let (e, stepped, rest) = steps-some (step i env) is env' h in
      let (s1, visited, agrees1, h1) = visit_insn-step scope s env e i typed stepped agrees in
      rw (visited, ◌>>◌, ◌>>=◌)
        (after-Ends L R laws p f fg s s1 _ env' h1
          (each-steps scope is s1 e env' typed' rest agrees1))

  pub visit_return-ok :
      (s : L.State) (v : Variable) (q : L.Value)
      → is_main_function f ≡ false
      → f.return_var ≡ some v
      → get_local_val L fg v.name ≡ some q
      → let r = L.create_load q (codes "return_val_temp") s in
        visit_terminator L f fg return_insn s ≡ ok (tt, L.create_ret r.0 r.1)
  unfolding visit_terminator visit_return return_value return_variable
  visit_return-ok s v q main var at = rw (main, ◌>>◌, var, ◌>>=◌, var, ◌>>=◌, at) refl

  -- Where a block of loads of constants, moves, negation, `not`, and the addition, subtraction,
  -- multiplication, exclusive or and six comparisons of two ints, on local variables with separate
  -- stack slots of the widths of their types, ends with a return, in a function other than main,
  -- and the interpreter, on values that the slots hold, comes to its end with `x` in the return
  -- variable, the generator ends without a failure, and the code that it has built returns `x`.
  pub visit_block_returns :
      IsScope L R laws p f fg
      → (bb : BasicBlock) (s : L.State) (env env' : Env) (v : Variable) (q : L.Value) (w x : ℕ)
      → bb.terminator ≡ some return_insn
      → is_main_function f ≡ false
      → f.return_var ≡ some v
      → get_local_val L fg v.name ≡ some q
      → R.IsSlot w q
      → All IsTyped bb.instructions
      → steps bb.instructions env ≡ some env'
      → env' v.name ≡ some x
      → Agrees L R laws p f fg s env
      → (s' : L.State) × (visit_block L p f fg bb s ≡ ok (tt, s')) × (R.returned s' ≡ some x)
  unfolding visit_block visit_end
  visit_block_returns scope bb s env env' v q w x ends main var at slot typed h known agrees =
      let (s', visited, agrees', preserved) =
        each-steps scope bb.instructions s env env' typed h agrees in
      let (extends, keeps, is_word, e) = laws.load_word s' w q (codes "return_val_temp") slot in
      (
        L.create_ret (L.create_load q (codes "return_val_temp") s').0
            (L.create_load q (codes "return_val_temp") s').1,
        rw (visited, ends, ◌>>◌, ◌>>=◌) (visit_return-ok s' v q main var at),
        laws.ret_word _ w x _ is_word (e ∙ agrees' v.name q at x known),
      )
