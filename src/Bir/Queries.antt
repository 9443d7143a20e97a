-- ===== src/Bir/Queries.antt =====
-- compiler/bir/Function.cpp and Package.cpp: which variable a lookup by name returns.
use nballerina_cpp.Base.{
  ℕ, ◌≡◌, refl, ap, ◌↔◌, inl, inr, true, false, List, [], ◌∷◌, ◌++◌, arith, bytes_eq, Bool-cases,
  All,
}
use nballerina_cpp.Run.{ok}
use nballerina_cpp.Bir.Program.{
  Variable, BirFunction, BirPackage, find_variable, get_local_variable, get_global_variable,
}

-- The variable stands in the list with this name, behind variables with other names.
abbrev pub IsFirst : List ℕ → Variable → List Variable → Type 0
IsFirst name' v vs =
    (before : List Variable) × (after : List Variable) × (vs ≡ before ++ (v ∷ after))
    × All (λ (u : Variable). bytes_eq u.name name' ≡ false) before
    × (bytes_eq v.name name' ≡ true)

find_variable-IsFirst :
    (name' : List ℕ) (vs : List Variable) (v : Variable)
    → find_variable name' vs ≡ ok v
    → IsFirst name' v vs
unfolding find_variable
find_variable-IsFirst name' [] v h = cc
find_variable-IsFirst name' (u ∷ us) v h =
    let rest = find_variable-IsFirst name' us v in
    elim (Bool-cases (bytes_eq u.name name')) [
      | inl e ↦ ([], us, ground (arith, e, h), tt, ground (arith, e, h))
      | inr e ↦
          let (before, after, p, others, q) = rest (ground (arith, e, h)) in
          (u ∷ before, after, ap (λ xs. u ∷ xs) p, (e, others), q)
    ]

IsFirst-find_variable :
    (name' : List ℕ) (before after : List Variable) (v : Variable)
    → All (λ (u : Variable). bytes_eq u.name name' ≡ false) before
    → bytes_eq v.name name' ≡ true
    → find_variable name' (before ++ (v ∷ after)) ≡ ok v
unfolding find_variable
IsFirst-find_variable name' [] after v h e = rw e refl
IsFirst-find_variable name' (u ∷ us) after v h e =
    rw h.0 (IsFirst-find_variable name' us after v h.1 e)

-- `getLocalVariable` returns a variable exactly when it is the first of the local variables with that
-- name; `getGlobalVariable` likewise for the global variables.
pub get_variable_iff :
    (p : BirPackage) (f : BirFunction) (name' : List ℕ) (v : Variable)
    → ((get_local_variable f name' ≡ ok v) ↔ IsFirst name' v f.local_vars)
      × ((get_global_variable p name' ≡ ok v) ↔ IsFirst name' v p.global_vars)
unfolding get_local_variable get_global_variable
get_variable_iff p f name' v = (iff f.local_vars, iff p.global_vars)
  where
    iff : (vs : List Variable) → (find_variable name' vs ≡ ok v) ↔ IsFirst name' v vs
    iff vs = (
      find_variable-IsFirst name' vs v,
      λ (before, after, e, others, q). rw e (IsFirst-find_variable name' before after v others q),
    )
