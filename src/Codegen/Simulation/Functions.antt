-- ===== src/Codegen/Simulation/Functions.antt =====
-- compiler/codegen/FunctionCodeGen.cpp: the stack slots of a function.
use nballerina_cpp.Base.{
  ℕ, ◌≡◌, refl, sym, ap, ◌∙◌, inl, inr, true, false, some, List, ◌∷◌, bytes_eq, Bool-cases, All,
}
use nballerina_cpp.Bir.TypeTag.{TypeTag, type_tag_int, type_tag_byte, type_tag_boolean}
use nballerina_cpp.Bir.Kinds.{is_global}
use nballerina_cpp.Bir.Insn.{Operand}
use nballerina_cpp.Bir.Program.{
  Variable, BirFunction, BirPackage, find_variable, get_local_variable,
}
use nballerina_cpp.Run.{not_found, ok, fault}
use nballerina_cpp.Codegen.Llvm.{Llvm}
use nballerina_cpp.Codegen.Types.{get_llvm_type_of_type}
use nballerina_cpp.Codegen.Scope.{lookup, FunctionCodeGen, get_local_val}
use nballerina_cpp.Codegen.Slots.{IsApart, lookup-All, lookup-IsApart}
use nballerina_cpp.Codegen.Meaning.{Reading, Lawful}
use nballerina_cpp.Codegen.Interpreter.{width_of}
use nballerina_cpp.Codegen.Simulation.Variables.{not_none, number_injective, HasType, IsScope}

ok_injective : (v u : Variable) → ok v ≡ ok u → v ≡ u
ok_injective v u h = cc

pub not_found-ok : {v : Variable} → fault not_found ≡ ok v → ⊥
not_found-ok h = cc

find-here :
    (n : List ℕ) (v : Variable) (vs : List Variable)
    → bytes_eq v.name n ≡ true
    → find_variable n (v ∷ vs) ≡ ok v
unfolding find_variable
find-here n v vs e = rw e refl

find-there :
    (n : List ℕ) (v : Variable) (vs : List Variable)
    → bytes_eq v.name n ≡ false
    → find_variable n (v ∷ vs) ≡ find_variable n vs
unfolding find_variable
find-there n v vs e = rw e refl

module _ (L : Llvm) (R : Reading L) (laws : Lawful L R) (p : BirPackage) (f : BirFunction) where
  pub type_bits :
      (t : TypeTag) (w : ℕ) (s : L.State)
      → width_of t ≡ some w
      → (type' : L.Ty) × (get_llvm_type_of_type L t s ≡ ok (type', s)) × (R.bits_of type' ≡ w)
  unfolding width_of get_llvm_type_of_type
  type_bits type_tag_int w s h = (L.int64_ty, refl, laws.int64_bits ∙ number_injective 64 w h)
  type_bits type_tag_byte w s h = (L.int8_ty, refl, laws.int8_bits ∙ number_injective 8 w h)
  type_bits type_tag_boolean w s h = (L.int1_ty, refl, laws.int1_bits ∙ number_injective 1 w h)
  type_bits _ w s h = absurd (not_none h)

  -- A lookup finds the slot of the first variable of the name.
  abbrev pub Finds : List Variable → List (List ℕ × L.Value) → Type 0
  Finds vs refs =
      (n : List ℕ) (v : Variable) (w : ℕ)
      → find_variable n vs ≡ ok v
      → width_of v.type_of.tag ≡ some w
      → (q : L.Value) × (lookup n refs ≡ some q) × R.IsSlot w q

  -- What the entries of the variables `vs` are: separate slots, made after the state `s`, that a
  -- lookup finds with the width of the first variable of the name.
  abbrev pub Places : List Variable → L.State → L.State → List (List ℕ × L.Value) → Type 0
  Places vs s s' refs =
      IsApart refs
      × All (λ (e : List ℕ × L.Value). (w : ℕ) × R.IsSlot w e.1) refs
      × All (λ (e : List ℕ × L.Value). R.IsLive s e.1 → ⊥) refs
      × ((q : L.Value) → R.IsLive s q → R.IsLive s' q)
      × Finds vs refs

  -- The place of the first of some variables.
  pub first_place :
      (v : Variable) (vs : List Variable) (refs : List (List ℕ × L.Value)) (r : L.Value) (w : ℕ)
      → width_of v.type_of.tag ≡ some w
      → R.IsSlot w r
      → (n : List ℕ) (u : Variable) (x : ℕ) → find_variable n (v ∷ vs) ≡ ok u
      → width_of u.type_of.tag ≡ some x
      → Finds vs refs
      → (q : L.Value) × (lookup n ((v.name, r) ∷ refs) ≡ some q) × R.IsSlot x q
  unfolding find_variable lookup
  first_place v vs refs r w ew slot n u x found width finds =
      elim (Bool-cases (bytes_eq v.name n)) [
        | inl e ↦
            let same : v ≡ u = ok_injective v u (sym (find-here n v vs e) ∙ found) in
            let w≡x =
              number_injective w x
                (sym ew ∙ ap (λ (y : Variable). width_of y.type_of.tag) same ∙ width) in
            (r, rw e refl, rw (sym w≡x) slot)
        | inr e ↦
            let (q, at, slot') = finds n u x (sym (find-there n v vs e) ∙ found) width in
            (q, rw e at, slot')
      ]

  -- An operand that is a local variable of a type that the interpreter knows.
  abbrev pub IsLocal : Operand → TypeTag → Type 0
  IsLocal op t =
      (is_global op.kind ≡ false)
      × (v : Variable) × (get_local_variable f op.name ≡ ok v)
      × (v.type_of.tag ≡ t)
      × (w : ℕ) × (width_of t ≡ some w)

  pub local-HasType :
      (fg : FunctionCodeGen L)
      → Finds f.local_vars fg.local_var_refs
      → (op : Operand) (t : TypeTag) → IsLocal op t
      → HasType L R laws p f fg op t
  unfolding get_local_variable get_local_val
  local-HasType fg finds op t (e, v, found, tag, w, width) =
      let (q, at, slot) = finds op.name v w found (rw tag width) in
      (e, v, found, tag, w, width, q, at, slot)

  pub places-IsScope :
      (fg : FunctionCodeGen L) (s s' : L.State)
      → Places f.local_vars s s' fg.local_var_refs
      → IsScope L R laws p f fg
  unfolding get_local_val
  places-IsScope fg s s' (apart, slots, fresh, keeps, finds) = (
    λ n q. lookup-All (λ v. (w : ℕ) × R.IsSlot w v) n q fg.local_var_refs slots,
    λ n m q. lookup-IsApart n m q fg.local_var_refs apart,
  )
