-- ===== src/Codegen/Declarations.antt =====
-- compiler/codegen/PackageCodeGen.cpp: functions are declared before their bodies are translated.
use nballerina_cpp.Base.{
  ℕ, ◌≡◌, refl, subst, ◌∙◌, ◌≢◌, Bool, true, false, not, Option, none, some, List, [], ◌∷◌,
  if◌then◌else◌, codes, All, weaken-All,
}
use nballerina_cpp.Bir.TypeTag.{
  TypeTag, type_tag_int, type_tag_byte, type_tag_float, type_tag_string, type_tag_boolean,
  type_tag_nil, type_tag_anydata, type_tag_typedesc, type_tag_map, type_tag_any, type_tag_array,
  type_tag_union, type_tag_char_string,
}
use nballerina_cpp.Bir.Program.{FunctionParam, BirFunction, is_main_function}
use nballerina_cpp.Run.{Fault, unreachable, Run, ok, fault}
use nballerina_cpp.Codegen.Llvm.{Llvm}
use nballerina_cpp.Codegen.Gen.{Gen, pure, fail, call, gets, deref, ◌>>=◌, check, each, collect}
use nballerina_cpp.Codegen.Types.{
  is_none, string_struct_type, get_string_struct_type, array_struct_type, get_llvm_type_of_type,
}
use nballerina_cpp.Codegen.Scope.{return_variable, get_ret_val_type}
use nballerina_cpp.Codegen.Package.{declare_function}

-- What LLVM documents of the symbol table of a module of functions and global variables: where a name is
-- not empty and no global variable has it, a function that is created with it is found under it, or the
-- one that had it before; functions that are there stay, types do not touch the table, and neither makes
-- a global variable.
pub record FunctionTable (L : Llvm) : Type 0 where
  pub create_found :
      (s : L.State) (t : L.Ty) (n : List ℕ)
      → n ≢ []
      → L.get_global_variable n true s ≡ none
      → (g : L.Func) × (L.get_function n (L.function_create t n s).1 ≡ some g)
  pub create_keeps :
      (s : L.State) (t : L.Ty) (n m : List ℕ) (g : L.Func)
      → L.get_function m s ≡ some g
      → L.get_function m (L.function_create t n s).1 ≡ some g
  pub struct_keeps :
      (s : L.State) (ts : List L.Ty) (n m : List ℕ)
      → L.get_function m (L.struct_create ts n s).1 ≡ L.get_function m s
  pub create_globals :
      (s : L.State) (t : L.Ty) (n m : List ℕ)
      → L.get_global_variable m true (L.function_create t n s).1 ≡ L.get_global_variable m true s
  pub struct_globals :
      (s : L.State) (ts : List L.Ty) (n m : List ℕ)
      → L.get_global_variable m true (L.struct_create ts n s).1 ≡ L.get_global_variable m true s

bind_inversion :
    {S A B : Type 0} (r : Run (A × S)) (f : A × S → Run (B × S)) (b : B) (t : S)
    → elim r [ ok a ↦ f a | fault e ↦ fault e ] ≡ ok (b, t)
    → (a : A) × (s' : S) × (r ≡ ok (a, s')) × (f (a, s') ≡ ok (b, t))
bind_inversion (ok (a, s')) f b t h = (a, s', refl, h)
bind_inversion (fault e) f b t h = cc

module _ (L : Llvm) (table : FunctionTable L) where
  abbrev Keeps : L.State → L.State → Type 0
  Keeps s s' =
      ((m : List ℕ) (g : L.Func) → L.get_function m s ≡ some g → L.get_function m s' ≡ some g)
      × ((m : List ℕ) → L.get_global_variable m true s' ≡ L.get_global_variable m true s)

  Keeps-trans : (s s' s'' : L.State) → Keeps s s' → Keeps s' s'' → Keeps s s''
  Keeps-trans s s' s'' (functions, globals) (functions', globals') =
      (λ m g e. functions' m g (functions m g e), λ m. globals' m ∙ globals m)

  -- A step that leaves the functions that are there.
  abbrev Preserves : {A : Type 0} → Gen L.State A → Type 0
  Preserves {A} m = (s : L.State) (a : A) (s' : L.State) → m s ≡ ok (a, s') → Keeps s s'

  state_eq :
      {A : Type 0} (a b : A) (s s' : L.State)
      → ◌≡◌ {A = Run (A × L.State)} (ok (a, s)) (ok (b, s'))
      → s ≡ s'
  state_eq a b s s' h = cc

  not_ok : {A : Type 0} {e : Fault} {a : A} → fault e ≡ ok a → ⊥
  not_ok h = cc

  pure-Preserves : {A : Type 0} (x : A) → Preserves (pure x)
  pure-Preserves x s a s' h = subst (Keeps s) (state_eq x a s s' h) (λ m g e. e, λ m. refl)

  fail-Preserves : {A : Type 0} (e : Fault) → Preserves {A = A} (fail e)
  fail-Preserves e s a s' h = absurd (not_ok h)

  bind-Preserves :
      {A B : Type 0} (m : Gen L.State A) (k : A → Gen L.State B)
      → Preserves m
      → ((a : A) → Preserves (k a))
      → Preserves (m >>= k)
  bind-Preserves m k hm hk s b s' h = go (m s) refl h
    where
      go :
          (r : Run (_ × L.State))
          → m s ≡ r
          → elim r [ ok a ↦ k a.0 a.1 | fault e ↦ fault e ] ≡ ok (b, s')
          → Keeps s s'
      go (ok (a, t)) e h = Keeps-trans s t s' (hm s a t e) (hk a t b s' h)
      go (fault z) e h = absurd (not_ok h)

  call-Preserves :
      {A : Type 0} (f : L.State → A × L.State)
      → ((s : L.State) → Keeps s (f s).1)
      → Preserves (call f)
  call-Preserves f keeps s a s' h = subst (Keeps s) (state_eq (f s).0 a (f s).1 s' h) (keeps s)

  gets-Preserves : {A : Type 0} (f : L.State → A) → Preserves (gets f)
  gets-Preserves f s a s' h = subst (Keeps s) (state_eq (f s) a s s' h) (λ m g e. e, λ m. refl)

  check-Preserves : (b : Bool) → Preserves (check b)
  check-Preserves true s a s' h = pure-Preserves tt s a s' h
  check-Preserves false s a s' h = absurd (not_ok h)

  deref-Preserves : {A : Type 0} (m : Option A) → Preserves (deref m)
  deref-Preserves none s a s' h = absurd (not_ok h)
  deref-Preserves (some x) s a s' h = pure-Preserves x s a s' h

  struct-Preserves : (ts : List L.Ty) (n : List ℕ) → Preserves (call (L.struct_create ts n))
  struct-Preserves ts n =
      call-Preserves (L.struct_create ts n)
        λ s. (λ m g e. rw (table.struct_keeps s ts n m) e, λ m. table.struct_globals s ts n m)

  string-Preserves : Preserves (get_string_struct_type L)
  unfolding get_string_struct_type string_struct_type
  string-Preserves = bind-Preserves _ _ (gets-Preserves _) found
    where
      found : (m : Option L.Ty) → Preserves (string_struct_type L m)
      found none = struct-Preserves _ _
      found (some t) = pure-Preserves t

  array-Preserves : (m : Option L.Ty) → Preserves (array_struct_type L m)
  unfolding array_struct_type
  array-Preserves (some t) = pure-Preserves _
  array-Preserves none =
      bind-Preserves _ _ (gets-Preserves (L.get_type_by_name (codes "struct.dynamicArray")))
        λ inner. bind-Preserves _ _ (check-Preserves (is_none inner)) λ _.
          bind-Preserves _ _
            (struct-Preserves (L.int64_ty ∷ L.int64_ptr_ty ∷ []) (codes "struct.dynamicArray"))
            λ t.
              bind-Preserves _ _
                (struct-Preserves
                  (L.int64_ty ∷ L.int64_ty ∷ L.int64_ty ∷ L.int64_ty ∷ L.pointer_type t ∷ [])
                  (codes "struct.dynamicBalArray"))
                λ u. pure-Preserves (L.pointer_type u)

  type-Preserves : (t : TypeTag) → Preserves (get_llvm_type_of_type L t)
  unfolding get_llvm_type_of_type
  type-Preserves type_tag_int = pure-Preserves _
  type-Preserves type_tag_float = pure-Preserves _
  type-Preserves type_tag_boolean = pure-Preserves _
  type-Preserves type_tag_byte = pure-Preserves _
  type-Preserves type_tag_map = pure-Preserves _
  type-Preserves type_tag_nil = pure-Preserves _
  type-Preserves type_tag_any = pure-Preserves _
  type-Preserves type_tag_anydata = pure-Preserves _
  type-Preserves type_tag_union = pure-Preserves _
  type-Preserves type_tag_typedesc = pure-Preserves _
  type-Preserves type_tag_string = bind-Preserves _ _ string-Preserves λ t. pure-Preserves _
  type-Preserves type_tag_char_string = bind-Preserves _ _ string-Preserves λ t. pure-Preserves _
  type-Preserves type_tag_array = bind-Preserves _ _ (gets-Preserves _) array-Preserves
  type-Preserves _ = fail-Preserves unreachable

  collect-Preserves :
      {A B : Type 0} (xs : List A) (body : A → Gen L.State B)
      → ((x : A) → Preserves (body x))
      → Preserves (collect xs body)
  unfolding collect
  collect-Preserves [] body h = pure-Preserves _
  collect-Preserves (x ∷ xs) body h =
      let rest = collect-Preserves xs body h in
      bind-Preserves _ _ (h x) λ y. bind-Preserves _ _ rest λ ys. pure-Preserves _

  return_type : BirFunction → Gen L.State L.Ty
  return_type f = return_variable L f >>= λ v. get_llvm_type_of_type L v.type_of.tag

  return-Preserves : (f : BirFunction) → Preserves (return_type f)
  unfolding return_type return_variable
  return-Preserves f =
      bind-Preserves (return_variable L f) _
        (bind-Preserves (check (not (is_none f.return_var))) _
          (check-Preserves (not (is_none f.return_var))) λ _. deref-Preserves f.return_var)
        λ v. type-Preserves v.type_of.tag

  ret-Preserves : (f : BirFunction) → Preserves (get_ret_val_type L f)
  unfolding get_ret_val_type return_type
  ret-Preserves f = go (is_main_function f)
    where
      go : (b : Bool) → Preserves (if b then pure L.void_ty else return_type f)
      go true = pure-Preserves L.void_ty
      go false = return-Preserves f

  -- What stands before the creation of the function leaves the others; the function is then found.
  declare_function-Declares :
      (f : BirFunction) (s s' : L.State)
      → f.name ≢ []
      → L.get_global_variable f.name true s ≡ none
      → declare_function L f s ≡ ok (tt, s')
      → Keeps s s' × (g : L.Func) × (L.get_function f.name s' ≡ some g)
  unfolding declare_function
  declare_function-Declares f s s' named free h =
      let params = λ (q : FunctionParam). get_llvm_type_of_type L q.type_of.tag in
      let (ts, s1, e1, h1) = bind_inversion (collect f.required_params params s) _ tt s' h in
      let (t, s2, e2, h2) = bind_inversion (get_ret_val_type L f s1) _ tt s' h1 in
      let same =
        state_eq tt tt (L.function_create (L.function_type t ts false) f.name s2).1 s' h2 in
      let keeps1 =
        collect-Preserves f.required_params params (λ q. type-Preserves q.type_of.tag) s ts s1 e1 in
      let keeps2 = ret-Preserves f s1 t s2 e2 in
      subst (λ s'. Keeps s s' × (g : L.Func) × (L.get_function f.name s' ≡ some g)) same
        (let (functions, globals) = Keeps-trans s s1 s2 keeps1 keeps2 in
          let ty = L.function_type t ts false in
          let (g, found) = table.create_found s2 ty f.name named (globals f.name ∙ free) in
          (
            (
              (λ m k e. table.create_keeps s2 ty f.name m k (functions m k e)),
              (λ m. table.create_globals s2 ty f.name m ∙ globals m),
            ),
            g,
            found,
          ))

  -- A name that is not empty and that no global variable has.
  abbrev pub IsFree : L.State → BirFunction → Type 0
  IsFree s f = (f.name ≢ []) × (L.get_global_variable f.name true s ≡ none)

  declare_functions-Declares :
      (fs : List BirFunction) (s s' : L.State)
      → All (IsFree s) fs
      → each fs (declare_function L) s ≡ ok (tt, s')
      → Keeps s s'
        × All (λ (f : BirFunction). (g : L.Func) × (L.get_function f.name s' ≡ some g)) fs
  unfolding each
  declare_functions-Declares [] s s' free h = (pure-Preserves tt s tt s' h, tt)
  declare_functions-Declares (f ∷ fs) s s' ((named, alone), free) h =
      let (u, s1, e1, h1) = bind_inversion (declare_function L f s) _ tt s' h in
      let (keeps, g, found) = declare_function-Declares f s s1 named alone e1 in
      let free' =
        weaken-All (IsFree s) (IsFree s1)
          (λ f' (named', alone'). (named', keeps.1 f'.name ∙ alone')) fs free in
      let (keeps', others) = declare_functions-Declares fs s1 s' free' h1 in
      (Keeps-trans s s1 s' keeps keeps', ((g, keeps'.0 f.name g found), others))

  -- After the loop over functions whose names are not empty and are those of no global variables,
  -- every one of them is found under its name, and so is every function that was there before, as the
  -- one it was.
  pub declare_functions_found :
      (fs : List BirFunction) (s s' : L.State)
      → All (IsFree s) fs
      → each fs (declare_function L) s ≡ ok (tt, s')
      → All (λ (f : BirFunction). (g : L.Func) × (L.get_function f.name s' ≡ some g)) fs
        × ((m : List ℕ) (g : L.Func) → L.get_function m s ≡ some g → L.get_function m s' ≡ some g)
  declare_functions_found fs s s' free h =
      let (keeps, found) = declare_functions-Declares fs s s' free h in (found, keeps.0)
