-- ===== src/Codegen/Simulation/Variables.antt =====
-- compiler/codegen/FunctionCodeGen.cpp: what the stack slots of the local variables hold at the code that
-- has been built.
use nballerina_cpp.Base.{
  ℕ, ◌≡◌, refl, sym, ap, subst, ◌∙◌, inl, inr, false, none, some, List, ◌++◌, bytes_eq,
  bytes_eq_sound, bytes_eq_refl, Bool-cases, codes,
}
use nballerina_cpp.Bir.TypeTag.{TypeTag}
use nballerina_cpp.Bir.Kinds.{is_global}
use nballerina_cpp.Bir.Insn.{Operand}
use nballerina_cpp.Bir.Program.{Variable, BirFunction, BirPackage, get_local_variable}
use nballerina_cpp.Run.{Run, ok}
use nballerina_cpp.Codegen.Llvm.{Llvm}
use nballerina_cpp.Codegen.Scope.{
  FunctionCodeGen, get_local_val, get_local_or_global_val, create_temp_val, store_to,
}
use nballerina_cpp.Codegen.Meaning.{Reading, Computes, Lawful}
use nballerina_cpp.Codegen.Interpreter.{width_of, Env, set}

pub not_none : {A : Type 0} {a : A} → none ≡ some a → ⊥
not_none h = cc

pub number_injective : (a b : ℕ) → some a ≡ some b → a ≡ b
number_injective a b h = cc

module _ (L : Llvm) (R : Reading L) (laws : Lawful L R) (p : BirPackage) (f : BirFunction)
    (fg : FunctionCodeGen L) where
  -- A local variable of a type, with a stack slot of the type's width.
  abbrev pub HasType : Operand → TypeTag → Type 0
  HasType op t =
      (is_global op.kind ≡ false)
      × (v : Variable) × (get_local_variable f op.name ≡ ok v)
      × (v.type_of.tag ≡ t)
      × (w : ℕ) × (width_of t ≡ some w)
      × (q : L.Value) × (get_local_val L fg op.name ≡ some q)
      × R.IsSlot w q

  -- Every local variable has a stack slot, and no two have the same one.
  abbrev pub IsScope : Type 0
  IsScope =
      ((n : List ℕ) (q : L.Value) → get_local_val L fg n ≡ some q → (w : ℕ) × R.IsSlot w q)
      × ((n m : List ℕ) (q : L.Value)
          → get_local_val L fg n ≡ some q
          → get_local_val L fg m ≡ some q
          → n ≡ m)

  -- The slots hold the values of the variables that have one.
  abbrev pub Agrees : L.State → Env → Type 0
  Agrees s env =
      (n : List ℕ) (q : L.Value)
      → get_local_val L fg n ≡ some q
      → (x : ℕ) → env n ≡ some x
      → R.contents s q ≡ some x

  pub some_injective : (a b : L.Value) → some a ≡ some b → a ≡ b
  some_injective a b h = cc

  pub local_ref :
      (op : Operand) (t : TypeTag) (s : L.State) (h : HasType op t)
      → get_local_or_global_val L fg op s ≡ ok (get_local_val L fg op.name, s)
  unfolding get_local_or_global_val
  local_ref op t s h = rw h.0 refl

  pub set_same : (n : List ℕ) (x : ℕ) (env : Env) → set n x env n ≡ some x
  unfolding set
  set_same n x env = rw (bytes_eq_refl n) refl

  pub set_other : (n m : List ℕ) (x : ℕ) (env : Env) → bytes_eq n m ≡ false → set n x env m ≡ env m
  unfolding set
  set_other n m x env h = rw h refl

  pub store-Agrees :
      IsScope
      → (s : L.State) (env : Env) (n : List ℕ) (w x : ℕ) (q v : L.Value)
      → get_local_val L fg n ≡ some q
      → R.IsSlot w q
      → R.IsWord s w v
      → R.word s v ≡ some x
      → Agrees s env
      → Agrees (L.create_store v q s).1 (set n x env)
  store-Agrees scope s env n w x q v at slot is_word value agrees m q' at' y h =
      elim (Bool-cases (bytes_eq n m)) [
        | inl e ↦
            let n≡m = bytes_eq_sound n m e in
            let q≡q' : q ≡ q' = some_injective q q' (sym at ∙ ap (get_local_val L fg) n≡m ∙ at') in
            subst (λ z. R.contents (L.create_store v q s).1 z ≡ some y) q≡q'
              (laws.store_slot s w v q is_word slot
                ∙ value
                ∙ sym (set_same n x env)
                ∙ ap (set n x env) n≡m
                ∙ h)
        | inr e ↦
            let (w', slot') = scope.0 m q' at' in
            laws.store_other s w w' v q q' slot slot' (λ q≡q'.
              let same = scope.1 n m q' (rw (sym q≡q') at) at' in cc (e, bytes_eq_refl n, same))
            ∙ agrees m q' at' y (sym (set_other n m x env e) ∙ h)
      ]

  pub temp_val :
      (op : Operand) (s : L.State) (q : L.Value)
      → is_global op.kind ≡ false
      → get_local_val L fg op.name ≡ some q
      → create_temp_val L fg op s ≡ ok (L.create_load q (op.name ++ codes "_temp") s)
  unfolding create_temp_val get_local_or_global_val
  temp_val op s q e at = rw (e, at) refl

  -- The generator ends, and at the code that it has built since `s` the slots hold the values of `env'`.
  abbrev pub Ends : L.State → Run (Unit {0} × L.State) → Env → Type 0
  Ends s m env' = (s' : L.State) × (m ≡ ok (tt, s')) × Agrees s' env' × R.Preserves s s'

  pub after-Ends :
      (s s1 : L.State) (m : Run (Unit {0} × L.State)) (env : Env)
      → R.Preserves s s1
      → Ends s1 m env
      → Ends s m env
  after-Ends s s1 m env h (s', e, agrees, h') = (s', e, agrees, laws.preserves_trans s s1 s' h h')

  pub assign :
      IsScope
      → (s : L.State) (env : Env) (lhs : Operand) (w : ℕ) (q : L.Value) (x : ℕ)
        (r : L.Value × L.State)
      → get_local_val L fg lhs.name ≡ some q
      → R.IsSlot w q
      → Computes L R s w (some x) r
      → Agrees s env
      → Ends s (store_to L r.0 (get_local_val L fg lhs.name) r.1) (set lhs.name x env)
  unfolding store_to
  assign scope s env lhs w q x r at slot (extends, keeps, is_word, e) agrees = (
    (L.create_store r.0 q r.1).1,
    rw at refl,
    store-Agrees scope r.1 env lhs.name w x q r.0 at slot is_word e
        (λ n q' at' y h. keeps q' ∙ agrees n q' at' y h),
    laws.preserves_trans s r.1 _ extends.0 (laws.store_preserves r.1 r.0 q),
  )

  -- A variable is loaded as its value.
  pub loaded :
      (s : L.State) (env : Env) (op : Operand) (t : TypeTag) (w x : ℕ)
      → HasType op t
      → width_of t ≡ some w
      → env op.name ≡ some x
      → Agrees s env
      → (r : L.Value × L.State) × (create_temp_val L fg op s ≡ ok r)
        × Computes L R s w (some x) r
        × Agrees r.1 env
  loaded s env op t w x (e, v, found, ut, w', ew', q, at, slot) ew known agrees =
      let w≡w' : w ≡ w' = cc in
      let r = L.create_load q (op.name ++ codes "_temp") s in
      let (extends, keeps, is_word, value) = laws.load_word s w q _ (rw w≡w' slot) in
      (
        r,
        temp_val op s q e at,
        (extends, keeps, is_word, value ∙ agrees op.name q at x known),
        λ n q' at' y h. keeps q' ∙ agrees n q' at' y h,
      )
