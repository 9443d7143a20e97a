-- ===== src/Codegen/Simulation/Constants.antt =====
-- compiler/codegen/ConstantLoadInsnCodeGen.cpp and MoveInsnCodeGen.cpp: the code of loads and moves.
use nballerina_cpp.Base.{
  ℕ, ◌%◌, ◌^◌, ◌≡◌, refl, ap, subst, ◌∙◌, true, false, some, ◌++◌, arith, ◌==◌, codes, ℤ, pos,
  negsuc, bits64,
}
use nballerina_cpp.Bir.TypeTag.{TypeTag, type_tag_int, type_tag_byte, type_tag_boolean, tag_value}
use nballerina_cpp.Bir.Kinds.{is_global}
use nballerina_cpp.Bir.Insn.{Operand, ConstValue, int_value, bool_value, byte_value}
use nballerina_cpp.Bir.Program.{
  Variable, BirFunction, BirPackage, get_local_variable, get_local_or_global_variable,
}
use nballerina_cpp.Run.{ok}
use nballerina_cpp.Codegen.Llvm.{Llvm}
use nballerina_cpp.Codegen.Gen.{◌>>=◌, ◌>>◌, check}
use nballerina_cpp.Codegen.Scope.{FunctionCodeGen}
use nballerina_cpp.Codegen.Constants.{store_const, visit_const, visit_constant_load}
use nballerina_cpp.Codegen.Insns.{type_of_operand, visit_move}
use nballerina_cpp.Codegen.Meaning.{Reading, Computes, Lawful}
use nballerina_cpp.Codegen.Interpreter.{width_of, bit, constant, Env, set}
use nballerina_cpp.Codegen.Simulation.Variables.{
  HasType, IsScope, Agrees, local_ref, temp_val, Ends, assign,
}

bits64_small : (v : ℤ) → bits64 v % 2 ^ 64 ≡ bits64 v
unfolding bits64
bits64_small (pos n) = ground arith
bits64_small (negsuc n) = ground arith

eq_refl : (a : ℕ) → (a == a) ≡ true
eq_refl a = ground arith

module _ (L : Llvm) (R : Reading L) (laws : Lawful L R) (p : BirPackage) (f : BirFunction)
    (fg : FunctionCodeGen L) where
  pub visit_move-step :
      IsScope L R laws p f fg
      → (s : L.State) (env : Env) (lhs rhs : Operand) (t : TypeTag) → HasType L R laws p f fg lhs t
      → HasType L R laws p f fg rhs t
      → (x : ℕ) → env rhs.name ≡ some x
      → Agrees L R laws p f fg s env
      → Ends L R laws p f fg s (visit_move L p f fg lhs rhs s) (set lhs.name x env)
  unfolding visit_move
  visit_move-step scope s env lhs rhs t hl (er, vr, fr, ur, w, ew, q, at, slot) x known agrees =
      let (el, vl, fl, tl, w', ew', q', at', slot') = hl in
      let w≡w' : w ≡ w' = cc in
      rw (local_ref L R laws p f fg lhs t s hl, temp_val L R laws p f fg rhs s q er at, ◌>>=◌)
        (assign L R laws p f fg scope s env lhs w q' x
          (L.create_load q (rhs.name ++ codes "_temp") s) at' (rw w≡w' slot')
          (subst (λ y. Computes L R s w y (L.create_load q (rhs.name ++ codes "_temp") s))
            (agrees rhs.name q at x known) (laws.load_word s w q (rhs.name ++ codes "_temp") slot))
          agrees)

  pub type_of_operand-ok :
      (op : Operand) (s : L.State) (v : Variable)
      → is_global op.kind ≡ false
      → get_local_variable f op.name ≡ ok v
      → type_of_operand L p f fg op s ≡ ok (v.type_of, s)
  unfolding type_of_operand get_local_or_global_variable
  type_of_operand-ok op s v e found = rw (e, found) refl

  pub const_Computes :
      (s : L.State) (w x : ℕ) (c : L.Value)
      → R.IsWord s w c × (R.word s c ≡ some x)
      → Computes L R s w (some x) (c, s)
  const_Computes s w x c (is_word, e) =
      ((laws.preserves_refl s, λ w' v h. (h, refl)), λ q. refl, is_word, e)

  pub store_const-step :
      IsScope L R laws p f fg
      → (s : L.State) (env : Env) (lhs : Operand) (t : TypeTag) (w x : ℕ) (c : L.Value)
      → HasType L R laws p f fg lhs t
      → width_of t ≡ some w
      → R.IsWord s w c × (R.word s c ≡ some x)
      → Agrees L R laws p f fg s env
      → Ends L R laws p f fg s (store_const L p f fg lhs c s) (set lhs.name x env)
  unfolding store_const
  store_const-step scope s env lhs t w x c hl ew known agrees =
      let (el, v, found, ut, w', ew', q, at, slot) = hl in
      let w≡w' : w ≡ w' = cc in
      rw (local_ref L R laws p f fg lhs t s hl, ◌>>=◌)
        (assign L R laws p f fg scope s env lhs w q x (c, s) at (rw w≡w' slot)
          (const_Computes s w x c known) agrees)

  -- The constant of each type that the interpreter knows.
  pub visit_const-step :
      IsScope L R laws p f fg
      → (s : L.State) (env : Env) (lhs : Operand) (t : TypeTag) (v : ConstValue) (x : ℕ)
      → HasType L R laws p f fg lhs t
      → constant t v ≡ some x
      → Agrees L R laws p f fg s env
      → Ends L R laws p f fg s (visit_const L p f fg lhs t v s) (set lhs.name x env)
  unfolding visit_const constant bit width_of bits64
  visit_const-step scope s env lhs type_tag_int (int_value v) x hl h agrees =
      let (is_word, e) = laws.int64_word s (bits64 v) in
      store_const-step scope s env lhs type_tag_int 64 x _ hl refl
        (is_word, e ∙ ap some (bits64_small v) ∙ h) agrees
  visit_const-step scope s env lhs type_tag_byte (byte_value v) x hl h agrees =
      let (is_word, e) = laws.int8_word s v in
      store_const-step scope s env lhs type_tag_byte 8 x _ hl refl (is_word, e ∙ h) agrees
  visit_const-step scope s env lhs type_tag_boolean (bool_value true) x hl h agrees =
      let (is_word, e) = laws.int1_word s 1 in
      store_const-step scope s env lhs type_tag_boolean 1 x _ hl refl (is_word, e ∙ h) agrees
  visit_const-step scope s env lhs type_tag_boolean (bool_value false) x hl h agrees =
      let (is_word, e) = laws.int1_word s 0 in
      store_const-step scope s env lhs type_tag_boolean 1 x _ hl refl (is_word, e ∙ h) agrees
  visit_const-step scope s env lhs _ _ x hl h agrees = cc

  pub visit_constant_load-step :
      IsScope L R laws p f fg
      → (s : L.State) (env : Env) (lhs : Operand) (t : TypeTag) (v : ConstValue) (x : ℕ)
      → HasType L R laws p f fg lhs t
      → constant t v ≡ some x
      → Agrees L R laws p f fg s env
      → Ends L R laws p f fg s (visit_constant_load L p f fg lhs t v s) (set lhs.name x env)
  unfolding visit_constant_load
  visit_constant_load-step scope s env lhs t v x hl h agrees =
      let (el, v', found, ut, w, ew, q, at, slot) = hl in
      rw (type_of_operand-ok lhs s v' el found, ◌>>=◌, ◌>>◌, ut, eq_refl (tag_value t), check)
        (visit_const-step scope s env lhs t v x hl h agrees)
