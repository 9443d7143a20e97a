-- ===== src/Codegen/Simulation/Operators.antt =====
-- compiler/codegen/BinaryOpInsnCodeGen.cpp and UnaryOpInsnCodeGen.cpp: the code of operators.
use nballerina_cpp.Base.{ℕ, ◌≡◌, refl, sym, ap, subst, ◌∙◌, Bool, Option, some, List, ◌++◌, codes}
use nballerina_cpp.Bir.TypeTag.{TypeTag, type_tag_int, type_tag_boolean}
use nballerina_cpp.Bir.Kinds.{
  InstructionKind, instruction_kind_binary_add, instruction_kind_binary_sub,
  instruction_kind_binary_mul, instruction_kind_binary_equal, instruction_kind_binary_not_equal,
  instruction_kind_binary_greater_than, instruction_kind_binary_greater_equal,
  instruction_kind_binary_less_than, instruction_kind_binary_less_equal, instruction_kind_unary_not,
  instruction_kind_unary_neg, instruction_kind_binary_bitwise_xor,
}
use nballerina_cpp.Bir.Insn.{Operand}
use nballerina_cpp.Bir.Program.{BirFunction, BirPackage}
use nballerina_cpp.Run.{Run, ok}
use nballerina_cpp.Codegen.Llvm.{
  Opcode, add, sub, mul, bit_xor, Predicate, icmp_eq, icmp_ne, icmp_sgt, icmp_sge, icmp_slt,
  icmp_sle, Llvm,
}
use nballerina_cpp.Codegen.Gen.{lift, ◌>>=◌}
use nballerina_cpp.Codegen.Scope.{FunctionCodeGen}
use nballerina_cpp.Codegen.Insns.{
  BinaryCall, arithmetic, comparison, int_or_float, equality, select_binary, build_binary,
  visit_binary_op, build_unary, visit_unary_op,
}
use nballerina_cpp.Codegen.Meaning.{opcode_word, icmp, Reading, Computes, Lawful}
use nballerina_cpp.Codegen.Interpreter.{width_of, bit, int_operator, value_operator, Env, set}
use nballerina_cpp.Codegen.Simulation.Variables.{
  not_none, number_injective, HasType, IsScope, Agrees, local_ref, Ends, after-Ends, assign, loaded,
}
use nballerina_cpp.Codegen.Simulation.Constants.{type_of_operand-ok}

width_of_tag :
    (t t' : TypeTag) (x y w : ℕ)
    → ◌≡◌ {A = Option (TypeTag × ℕ)} (some (t, x)) (some (t', y))
    → width_of t' ≡ some w
    → width_of t ≡ some w
width_of_tag t t' x y w h e = let same : t ≡ t' = cc in rw same e

result_value :
    (t t' : TypeTag) (x y : ℕ) → ◌≡◌ {A = Option (TypeTag × ℕ)} (some (t, x)) (some (t', y)) → x ≡ y
result_value t t' x y h = cc

module _ (L : Llvm) (R : Reading L) (laws : Lawful L R) (p : BirPackage) (f : BirFunction)
    (fg : FunctionCodeGen L) where
  -- A choice of an instruction that computes `x`, a value of the type `t`.
  abbrev pub Selects : Run BinaryCall → L.State → L.Value → L.Value → List ℕ → TypeTag → ℕ → Type 0
  Selects m s a b n t x =
      (c : BinaryCall) × (m ≡ ok c)
      × (r : L.Value × L.State) × (build_binary L p f fg c a b n s ≡ ok r)
      × (w : ℕ) × (width_of t ≡ some w)
      × Computes L R s w (some x) r

  pub by_arithmetic :
      (o : Opcode) (s : L.State) (a b : L.Value) (n : List ℕ) (t : TypeTag) (i j x y : ℕ)
      → R.IsWord s 64 a
      → R.IsWord s 64 b
      → R.word s a ≡ some i
      → R.word s b ≡ some j
      → opcode_word o 64 i j ≡ some y
      → ◌≡◌ {A = Option (TypeTag × ℕ)} (some (type_tag_int, y)) (some (t, x))
      → Selects (ok (arithmetic o)) s a b n t x
  unfolding build_binary width_of
  by_arithmetic o s a b n t i j x y ha hb hi hj e h =
      let same : type_tag_int ≡ t = cc in
      let y≡x : y ≡ x = cc in
      (
        arithmetic o,
        refl,
        L.create_binary o a b n s,
        refl,
        64,
        rw (sym same) refl,
        laws.binary_word s o 64 a b n i j x ha hb hi hj (rw e (ap some y≡x)),
      )

  pub by_comparison :
      (c : Predicate) (s : L.State) (a b : L.Value) (n : List ℕ) (t : TypeTag) (i j x : ℕ)
      (y : Bool)
      → R.IsWord s 64 a
      → R.IsWord s 64 b
      → R.word s a ≡ some i
      → R.word s b ≡ some j
      → icmp c i j ≡ some y
      → ◌≡◌ {A = Option (TypeTag × ℕ)} (some (type_tag_boolean, bit y)) (some (t, x))
      → Selects (ok (comparison c)) s a b n t x
  unfolding build_binary width_of
  by_comparison c s a b n t i j x y ha hb hi hj e h =
      let same : type_tag_boolean ≡ t = cc in
      let y≡x : bit y ≡ x = cc in
      (
        comparison c,
        refl,
        L.create_cmp c a b n s,
        refl,
        1,
        rw (sym same) refl,
        subst (λ z. Computes L R s 1 (some z) (L.create_cmp c a b n s)) y≡x
            (laws.cmp_word s c a b n i j y ha hb hi hj e),
      )

  -- The instruction of a binary operator on two ints.
  pub select_binary-Selects :
      (k : InstructionKind) (s : L.State) (a b : L.Value) (n : List ℕ) (t : TypeTag) (i j x : ℕ)
      → R.IsWord s 64 a
      → R.IsWord s 64 b
      → R.word s a ≡ some i
      → R.word s b ≡ some j
      → int_operator k i j ≡ some (t, x)
      → Selects (select_binary k type_tag_int) s a b n t x
  unfolding select_binary int_or_float equality int_operator opcode_word icmp
  select_binary-Selects instruction_kind_binary_add s a b n t i j x ha hb hi hj h =
      by_arithmetic add s a b n t i j x _ ha hb hi hj refl h
  select_binary-Selects instruction_kind_binary_sub s a b n t i j x ha hb hi hj h =
      by_arithmetic sub s a b n t i j x _ ha hb hi hj refl h
  select_binary-Selects instruction_kind_binary_mul s a b n t i j x ha hb hi hj h =
      by_arithmetic mul s a b n t i j x _ ha hb hi hj refl h
  select_binary-Selects instruction_kind_binary_bitwise_xor s a b n t i j x ha hb hi hj h =
      by_arithmetic bit_xor s a b n t i j x _ ha hb hi hj refl h
  select_binary-Selects instruction_kind_binary_equal s a b n t i j x ha hb hi hj h =
      by_comparison icmp_eq s a b n t i j x _ ha hb hi hj refl h
  select_binary-Selects instruction_kind_binary_not_equal s a b n t i j x ha hb hi hj h =
      by_comparison icmp_ne s a b n t i j x _ ha hb hi hj refl h
  select_binary-Selects instruction_kind_binary_less_than s a b n t i j x ha hb hi hj h =
      by_comparison icmp_slt s a b n t i j x _ ha hb hi hj refl h
  select_binary-Selects instruction_kind_binary_greater_than s a b n t i j x ha hb hi hj h =
      by_comparison icmp_sgt s a b n t i j x _ ha hb hi hj refl h
  select_binary-Selects instruction_kind_binary_less_equal s a b n t i j x ha hb hi hj h =
      by_comparison icmp_sle s a b n t i j x _ ha hb hi hj refl h
  select_binary-Selects instruction_kind_binary_greater_equal s a b n t i j x ha hb hi hj h =
      by_comparison icmp_sge s a b n t i j x _ ha hb hi hj refl h
  select_binary-Selects _ s a b n t i j x ha hb hi hj h = absurd (not_none h)

  pub visit_binary_op-step :
      IsScope L R laws p f fg
      → (s : L.State) (env : Env) (lhs a b : Operand) (k : InstructionKind) (t : TypeTag)
        (i j x : ℕ)
      → HasType L R laws p f fg lhs t
      → HasType L R laws p f fg a type_tag_int
      → HasType L R laws p f fg b type_tag_int
      → env a.name ≡ some i
      → env b.name ≡ some j
      → int_operator k i j ≡ some (t, x)
      → Agrees L R laws p f fg s env
      → Ends L R laws p f fg s (visit_binary_op L p f fg lhs a b k s) (set lhs.name x env)
  unfolding visit_binary_op width_of
  visit_binary_op-step scope s env lhs a b k t i j x hl ha hb hi hj h agrees =
      let (r, load, (extends, keeps, word_a, is_a), agrees') =
        loaded L R laws p f fg s env a type_tag_int 64 i ha refl hi agrees in
      let (r', load', (extends', keeps', word_b, is_b), agrees'') =
        loaded L R laws p f fg r.1 env b type_tag_int 64 j hb refl hj agrees' in
      let (word_a', is_a') = extends'.1 64 r.0 word_a in
      let (c, selected, res, built, w, ew, computes) =
        select_binary-Selects k r'.1 r.0 r'.0 (lhs.name ++ codes "_temp") t i j x word_a' word_b
          (is_a' ∙ is_a) is_b h in
      let (ea, va, fa, ua, wa, ewa, qa, ata, slota) = ha in
      let (el, vl, fl, ul, wl, ewl, ql, atl, slotl) = hl in
      let w≡wl : w ≡ wl = cc in
      rw
        (
          local_ref L R laws p f fg lhs t s hl,
          load,
          load',
          type_of_operand-ok L R laws p f fg a r'.1 va ea fa,
          ua,
          selected,
          built,
          ◌>>=◌,
          lift,
        )
        (after-Ends L R laws p f fg s r'.1 _ (set lhs.name x env)
          (laws.preserves_trans s r.1 r'.1 extends.0 extends'.0)
          (assign L R laws p f fg scope r'.1 env lhs w ql x res atl (rw w≡wl slotl) computes
            agrees''))

  pub retarget :
      (s : L.State) (w w' : ℕ) (x x' : Option ℕ) (r : L.Value × L.State)
      → w ≡ w'
      → x ≡ x'
      → Computes L R s w x r
      → Computes L R s w' x' r
  retarget s w w' x x' r ew ex h =
      subst (λ v. Computes L R s v x' r) ew (subst (λ y. Computes L R s w y r) ex h)

  -- The instruction of an operator on one value.
  pub build_unary-Computes :
      (k : InstructionKind) (s : L.State) (a : L.Value) (n : List ℕ) (t : TypeTag) (w i y : ℕ)
      → R.IsWord s w a
      → width_of t ≡ some w
      → R.word s a ≡ some i
      → value_operator k i ≡ some (t, y)
      → (r : L.Value × L.State) × (build_unary L p f fg k a n s ≡ ok r)
        × Computes L R s w (some y) r
  unfolding build_unary value_operator width_of
  build_unary-Computes instruction_kind_unary_neg s a n t w i y is_word ew known h =
      let 64≡w = number_injective 64 w (width_of_tag type_tag_int t _ y w h ew) in
      (
        L.create_neg a n s,
        refl,
        retarget s 64 w _ (some y) _ 64≡w (ap some (result_value type_tag_int t _ y h))
            (laws.neg_word s 64 a n i (rw 64≡w is_word) known),
      )
  build_unary-Computes instruction_kind_unary_not s a n t w i y is_word ew known h =
      let 1≡w = number_injective 1 w (width_of_tag type_tag_boolean t _ y w h ew) in
      (
        L.create_not a n s,
        refl,
        retarget s 1 w _ (some y) _ 1≡w (ap some (result_value type_tag_boolean t _ y h))
            (laws.not_word s 1 a n i (rw 1≡w is_word) known),
      )
  build_unary-Computes _ s a n t w i y is_word ew known h = absurd (not_none h)

  pub visit_unary_op-step :
      IsScope L R laws p f fg
      → (s : L.State) (env : Env) (lhs rhs : Operand) (k : InstructionKind) (t : TypeTag) (i x : ℕ)
      → HasType L R laws p f fg lhs t
      → HasType L R laws p f fg rhs t
      → env rhs.name ≡ some i
      → value_operator k i ≡ some (t, x)
      → Agrees L R laws p f fg s env
      → Ends L R laws p f fg s (visit_unary_op L p f fg lhs rhs k s) (set lhs.name x env)
  unfolding visit_unary_op
  visit_unary_op-step scope s env lhs rhs k t i x hl hr known h agrees =
      let (el, vl, fl, ul, w, ew, q, at, slot) = hl in
      let (r, load, (extends, keeps, is_word, e), agrees') =
        loaded L R laws p f fg s env rhs t w i hr ew known agrees in
      let (res, built, computes) =
        build_unary-Computes k r.1 r.0 (lhs.name ++ codes "_temp") t w i x is_word ew e h in
      rw (local_ref L R laws p f fg lhs t s hl, load, built, ◌>>=◌)
        (after-Ends L R laws p f fg s r.1 _ (set lhs.name x env) extends.0
          (assign L R laws p f fg scope r.1 env lhs w q x res at slot computes agrees'))
