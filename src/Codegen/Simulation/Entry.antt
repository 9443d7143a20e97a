-- ===== src/Codegen/Simulation/Entry.antt =====
-- compiler/codegen/FunctionCodeGen.cpp: the entry of a function, where the parameters get their slots.
use nballerina_cpp.Base.{
  ℕ, ◌+◌, ◌≡◌, refl, sym, ap, subst, ◌∙◌, ◌≢◌, inl, inr, Bool, true, false, Option, none, some,
  List, [], ◌∷◌, if◌then◌else◌, bytes_eq, Bool-cases, get_elem?, weaken-All,
}
use nballerina_cpp.Bir.Program.{
  Variable, is_paramter, FunctionParam, BirFunction, BirPackage, find_variable,
}
use nballerina_cpp.Codegen.Flow.{
  Flow, IsSteady, IsLater, reading, IsSteady-refl, IsSteady-trans, IsLater-refl, IsLater-trans,
  FlowLawful,
}
use nballerina_cpp.Codegen.Function.{param_at, store_argument, visit_locals}
use nballerina_cpp.Codegen.Gen.{lift, ◌>>=◌, ◌>>◌}
use nballerina_cpp.Codegen.Interpreter.{width_of}
use nballerina_cpp.Codegen.Jumps.{argument_of}
use nballerina_cpp.Codegen.Llvm.{Llvm}
use nballerina_cpp.Codegen.Scope.{lookup}
use nballerina_cpp.Codegen.Simulation.Functions.{not_found-ok, type_bits, Places, first_place}
use nballerina_cpp.Codegen.Simulation.Variables.{not_none, number_injective}
use nballerina_cpp.Codegen.Slots.{IsApart}
use nballerina_cpp.Run.{ok}

true_not_false : false ≡ true → ⊥
true_not_false h = cc

module _ (L : Llvm) (F : Flow L) (laws : FlowLawful L F) (p : BirPackage) (f : BirFunction)
    (func : L.Func) where
  -- An argument for a variable of a width that is a parameter.
  unfoldable pub Takes : ℕ → ℕ → Bool → Type 0
  Takes i w false = Unit {0}
  Takes i w true =
      (param : FunctionParam) × (get_elem? f.required_params i ≡ some param) × F.IsArgument func i w

  -- Variables of types that the interpreter knows, with an argument for every parameter.
  unfoldable pub Passes : ℕ → List Variable → Type 0
  unfolding Takes
  Passes i [] = Unit {0}
  Passes i (v ∷ vs) =
      (w : ℕ) × (width_of v.type_of.tag ≡ some w)
      × Takes i w (is_paramter v)
      × Passes (if is_paramter v then i + 1 else i) vs

  -- What the step for one variable does: its slot `r` is the only one that changes.
  abbrev Stored : Bool → ℕ → L.State → L.State → L.Value → Type 0
  Stored c i s s' r =
      IsSteady L F s s'
      × IsLater L F s s'
      × ((μ : L.Value → Option ℕ) (w : ℕ) (q : L.Value)
          → F.IsSlot w q
          → r ≢ q
          → F.contents μ s' q ≡ F.contents μ s q)
      × (c ≡ true → (μ : L.Value → Option ℕ) → F.contents μ s' r ≡ some (F.passed func i))

  store_argument-Stored :
      (c : Bool) (i w : ℕ) (s : L.State) (r : L.Value)
      → Takes i w c
      → F.IsSlot w r
      → (s' : L.State) × (store_argument L p f func c i r s ≡ ok (if c then i + 1 else i, s'))
        × Stored c i s s' r
  unfolding store_argument Takes param_at
  store_argument-Stored false i w s r takes slot = (
    s,
    refl,
    (
      IsSteady-refl L F s,
      IsLater-refl L F s,
      λ μ w' q slot' apart. refl,
      λ h. absurd (true_not_false h),
    ),
  )
  store_argument-Stored true i w s r (param, found, is_argument) slot =
      let s1 = L.set_name (L.argument func i) param.operand.name s in
      (
        (L.create_store (L.argument func i) r s1).1,
        rw (◌>>=◌, ◌>>◌, found, lift) refl,
        (
          IsSteady-trans L F s s1 _ (laws.set_name_steady s _ _)
              ((laws.instructions λ q. some 0).store_preserves s1 _ r),
          IsLater-trans L F s s1 _ (laws.set_name_later s _ _) (laws.store_later s1 _ r),
          λ μ w' q slot' apart.
              (laws.instructions μ).store_other s1 w w' _ r q slot slot' apart
              ∙ laws.set_name_contents μ s _ _ q,
          λ h μ.
              let (is_word, value) = laws.argument_word μ s1 func i w is_argument in
              (laws.instructions μ).store_slot s1 w _ r is_word slot ∙ value,
        ),
      )

  -- The slots of the parameters hold the arguments.
  abbrev pub Argues : List Variable → ℕ → L.State → List (List ℕ × L.Value) → Type 0
  Argues vs i s' refs =
      (n : List ℕ) (k : ℕ)
      → argument_of n i vs ≡ some k
      → (q : L.Value) × (lookup n refs ≡ some q)
        × ((μ : L.Value → Option ℕ) → F.contents μ s' q ≡ some (F.passed func k))

  -- The slots that the local variables get, with the arguments in those of the parameters.
  abbrev pub Entered : List Variable → ℕ → L.State → L.State → List (List ℕ × L.Value) → Type 0
  Entered vs i s s' refs =
      Places L (reading L F λ q. some 0) (laws.instructions λ q. some 0) p f vs s s' refs
      × IsSteady L F s s'
      × IsLater L F s s'
      × ((μ : L.Value → Option ℕ) (w : ℕ) (q : L.Value)
          → F.IsSlot w q
          → F.IsLive s q
          → F.contents μ s' q ≡ F.contents μ s q)
      × Argues vs i s' refs

  argument-here :
      (n : List ℕ) (i : ℕ) (v : Variable) (vs : List Variable)
      → bytes_eq v.name n ≡ true
      → argument_of n i (v ∷ vs) ≡ (if is_paramter v then some i else none)
  unfolding argument_of
  argument-here n i v vs e = rw e refl

  argument-there :
      (n : List ℕ) (i : ℕ) (v : Variable) (vs : List Variable)
      → bytes_eq v.name n ≡ false
      → argument_of n i (v ∷ vs) ≡ argument_of n (if is_paramter v then i + 1 else i) vs
  unfolding argument_of
  argument-there n i v vs e = rw e refl

  is_argument : (c : Bool) (i k : ℕ) → (if c then some i else none) ≡ some k → (c ≡ true) × (i ≡ k)
  is_argument true i k h = (refl, number_injective i k h)
  is_argument false i k h = absurd (not_none h)

  first_argument :
      (v : Variable) (vs : List Variable) (i : ℕ) (s' : L.State) (r : L.Value)
      (refs : List (List ℕ × L.Value))
      → (is_paramter v ≡ true
          → (μ : L.Value → Option ℕ) → F.contents μ s' r ≡ some (F.passed func i))
      → Argues vs (if is_paramter v then i + 1 else i) s' refs
      → Argues (v ∷ vs) i s' ((v.name, r) ∷ refs)
  unfolding lookup
  first_argument v vs i s' r refs stored rest n k h = elim (Bool-cases (bytes_eq v.name n)) [
    | inl e ↦
        let (param, i≡k) = is_argument (is_paramter v) i k (sym (argument-here n i v vs e) ∙ h) in
        (r, rw e refl, λ μ. stored param μ ∙ ap (λ (j : ℕ). some (F.passed func j)) i≡k)
    | inr e ↦
        let (q, at, value) = rest n k (sym (argument-there n i v vs e) ∙ h) in (q, rw e at, value)
  ]

  pub visit_locals-Entered :
      (vs : List Variable) (i : ℕ) (s : L.State)
      → Passes i vs
      → (refs : List (List ℕ × L.Value)) × (s' : L.State) × (visit_locals L p f func vs i s
          ≡ ok (refs, s'))
        × Entered vs i s s' refs
  unfolding visit_locals find_variable IsApart lookup Passes argument_of
  visit_locals-Entered [] i s passes = (
    [],
    s,
    refl,
    (
      (tt, tt, tt, λ q h. h, λ n v w h. absurd (not_found-ok h)),
      IsSteady-refl L F s,
      IsLater-refl L F s,
      λ μ w q slot live. refl,
      λ n k h. absurd (not_none h),
    ),
  )
  visit_locals-Entered (v ∷ vs) i s (w, ew, takes, passes) =
      let R = reading L F λ q. some 0 in
      let laws0 = laws.instructions λ q. some 0 in
      let (type', typed, bits) = type_bits L R laws0 p f v.type_of.tag w s ew in
      let r = L.create_alloca type' v.name s in
      let live = laws0.alloca_live s type' v.name in
      let slot : F.IsSlot w r.0 = rw (sym bits) (laws0.alloca_slot s type' v.name) in
      let later1 = laws.alloca_later s type' v.name in
      let (s2, stored, (steady2, later2, others2, takes2)) =
        store_argument-Stored (is_paramter v) i w r.1 r.0 takes slot in
      let later = IsLater-trans L F s r.1 s2 later1 later2 in
      let (
        refs,
        s',
        visited,
        ((apart, slots, fresh, keeps, finds), steady', later', kept', argues),
      ) =
        visit_locals-Entered vs (if is_paramter v then i + 1 else i) s2 passes in
      (
        (v.name, r.0) ∷ refs,
        s',
        rw (typed, stored, ◌>>=◌, visited) refl,
        (
          (
            (
              weaken-All (λ (e : List ℕ × L.Value). F.IsLive s2 e.1 → ⊥)
                  (λ (e : List ℕ × L.Value). r.0 ≢ e.1)
                  (λ e old same. old (subst (F.IsLive s2) same (later2.1 r.0 live))) refs fresh,
              apart,
            ),
            ((w, slot), slots),
            (
              laws0.alloca_new s type' v.name,
              weaken-All (λ (e : List ℕ × L.Value). F.IsLive s2 e.1 → ⊥)
                  (λ (e : List ℕ × L.Value). F.IsLive s e.1 → ⊥) (λ e old h. old (later.1 e.1 h))
                  refs fresh,
            ),
            λ q h. keeps q (later.1 q h),
            λ n u x found width.
                first_place L R laws0 p f v vs refs r.0 w ew slot n u x found width finds,
          ),
          IsSteady-trans L F s r.1 s' (laws0.alloca_preserves s type' v.name)
              (IsSteady-trans L F r.1 s2 s' steady2 steady'),
          IsLater-trans L F s s2 s' later later',
          λ μ w' q slot' live'.
              kept' μ w' q slot' (later.1 q live')
              ∙ others2 μ w' q slot'
                  (λ same. laws0.alloca_new s type' v.name (subst (F.IsLive s) (sym same) live'))
              ∙ laws.alloca_contents μ s type' v.name q live',
          first_argument v vs i s' r.0 refs
              (λ param μ. kept' μ w r.0 slot (later2.1 r.0 live) ∙ takes2 param μ) argues,
        ),
      )
