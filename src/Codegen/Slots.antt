-- ===== src/Codegen/Slots.antt =====
-- compiler/codegen/FunctionCodeGen.cpp: lookups in the map of the local variables.
use nballerina_cpp.Base.{
  ℕ, ◌≡◌, refl, sym, subst, ◌∙◌, ◌≢◌, inl, inr, true, false, some, List, [], ◌∷◌, bytes_eq,
  bytes_eq_sound, Bool-cases, All,
}
use nballerina_cpp.Codegen.Scope.{lookup}

-- No two entries have the same value.
unfoldable pub IsApart : {A : Type 0} → List (List ℕ × A) → Type 0
IsApart [] = Unit {0}
IsApart ((k, a) ∷ es) = All (λ (e : List ℕ × _). a ≢ e.1) es × IsApart es

some_eq : {A : Type 0} (a b : A) → some a ≡ some b → a ≡ b
some_eq a b h = cc

lookup-here :
    {A : Type 0} (n k : List ℕ) (a : A) (es : List (List ℕ × A))
    → bytes_eq k n ≡ true
    → some a ≡ lookup n ((k, a) ∷ es)
unfolding lookup
lookup-here n k a es e = rw e refl

lookup-there :
    {A : Type 0} (n k : List ℕ) (a : A) (es : List (List ℕ × A))
    → bytes_eq k n ≡ false
    → lookup n es ≡ lookup n ((k, a) ∷ es)
unfolding lookup
lookup-there n k a es e = rw e refl

-- What holds of the value of every entry holds of what a lookup returns.
pub lookup-All :
    {A : Type 0} (P : A → Type 0) (n : List ℕ) (q : A) (es : List (List ℕ × A))
    → All (λ (e : List ℕ × A). P e.1) es
    → lookup n es ≡ some q
    → P q
unfolding lookup
lookup-All P n q [] all h = cc
lookup-All P n q ((k, a) ∷ es) (holds, all) h =
    let rest = lookup-All P n q es all in
    elim (Bool-cases (bytes_eq k n)) [
      | inl e ↦ subst P (some_eq a q (lookup-here n k a es e ∙ h)) holds
      | inr e ↦ rest (lookup-there n k a es e ∙ h)
    ]

-- Only one name is looked up to a value.
pub lookup-IsApart :
    {A : Type 0} (n m : List ℕ) (q : A) (es : List (List ℕ × A))
    → IsApart es
    → lookup n es ≡ some q
    → lookup m es ≡ some q
    → n ≡ m
unfolding lookup IsApart
lookup-IsApart n m q [] apart h h' = cc
lookup-IsApart n m q ((k, a) ∷ es) (differs, apart) h h' =
    let rest = lookup-IsApart n m q es apart in
    let absent = λ (i : List ℕ) (g : lookup i es ≡ some q) (same : some a ≡ some q).
      lookup-All (λ b. a ≢ b) i q es differs g (some_eq a q same) in
    elim (Bool-cases (bytes_eq k n)) [
      | inl e ↦ elim (Bool-cases (bytes_eq k m)) [
        | inl e' ↦ sym (bytes_eq_sound k n e) ∙ bytes_eq_sound k m e'
        | inr e' ↦ absurd (absent m (lookup-there m k a es e' ∙ h') (lookup-here n k a es e ∙ h))
      ]
      | inr e ↦ elim (Bool-cases (bytes_eq k m)) [
        | inl e' ↦ absurd (absent n (lookup-there n k a es e ∙ h) (lookup-here m k a es e' ∙ h'))
        | inr e' ↦ rest (lookup-there n k a es e ∙ h) (lookup-there m k a es e' ∙ h')
      ]
    ]
