-- ===== src/Reader/Kept.antt =====
-- compiler/reader/BIRReadFunction.cpp and BIRReadPackage.cpp: which functions reach the package.
use nballerina_cpp.Base.{
  ℕ, ◌≡◌, refl, inl, inr, Bool, true, false, List, [], ◌∷◌, ◌++◌, Bool-cases, All,
}
use nballerina_cpp.Bir.Program.{BirFunction, BirPackage}
use nballerina_cpp.Run.{ok}
use nballerina_cpp.Reader.Stream.{Stream}
use nballerina_cpp.Reader.Pool.Entry.{ConstantPoolEntry, package_cp_info}
use nballerina_cpp.Reader.Pool.Set.{ConstantPoolSet}
use nballerina_cpp.Reader.Ensures.{
  Ensures, Ensures-bind_with, Ensures-bind, Ensures-pure, Ensures-iterate,
}
use nballerina_cpp.Reader.Function.{ignore_function, keep_function, read_function}
use nballerina_cpp.Reader.Package.{read_type_body, name_package, read_module}

-- No function of the package has a name that the reader is to drop.
abbrev pub IsKept : BirPackage → Type 0
IsKept p = All (λ (f : BirFunction). ignore_function f.name ≡ false) p.functions

All-append_one :
    (fs : List BirFunction) (f : BirFunction)
    → All (λ (g : BirFunction). ignore_function g.name ≡ false) fs
    → ignore_function f.name ≡ false
    → All (λ (g : BirFunction). ignore_function g.name ≡ false) (fs ++ (f ∷ []))
All-append_one [] f h e = (e, tt)
All-append_one (g ∷ fs) f h e = (h.0, All-append_one fs f h.1 e)

keep_function-IsKept :
    (ignored : Bool) (file : List ℕ) (f : BirFunction) (p : BirPackage)
    → IsKept p
    → IsKept (keep_function ignored file f p)
unfolding keep_function
keep_function-IsKept true file f p h = h
keep_function-IsKept false file f p h = elim (Bool-cases (ignore_function f.name)) [
  | inl e ↦ rw e h
  | inr e ↦ rw e (All-append_one p.functions f h e)
]

module _ (cp : ConstantPoolSet) where
  read_function-IsKept :
      (ignored : Bool) (p : BirPackage) → IsKept p → Ensures IsKept (read_function cp ignored p)
  unfolding read_function
  read_function-IsKept ignored p h = Ensures-bind _ _ _ (λ head. Ensures-bind _ _ _ (λ names.
      Ensures-bind _ _ _ (λ f. Ensures-pure _ (keep_function-IsKept ignored head.0 f p h))))

  -- A function that the caller drops leaves the functions as they were, whatever its name.
  read_function_dropped :
      (p : BirPackage) (fs : List BirFunction)
      → p.functions ≡ fs
      → Ensures (λ (p' : BirPackage). p'.functions ≡ fs) (read_function cp true p)
  unfolding read_function keep_function
  read_function_dropped p fs h =
      Ensures-bind _ _ _
        (λ head. Ensures-bind _ _ _ (λ names. Ensures-bind _ _ _ (λ f. Ensures-pure _ h)))

  -- The functions attached to types never reach the package.
  pub read_type_body-functions :
      (p : BirPackage) (s : Stream) (p' : BirPackage) (t : Stream)
      → read_type_body cp p s ≡ ok (p', t)
      → p'.functions ≡ p.functions
  unfolding read_type_body
  read_type_body-functions p s p' t h = body.holds s p' t h
    where
      body : Ensures (λ (q : BirPackage). q.functions ≡ p.functions) (read_type_body cp p)
      body = Ensures-bind _ _ _ (λ n.
          Ensures-bind_with _ _ _ (λ (q : BirPackage). q.functions ≡ p.functions)
            (Ensures-iterate (λ (q : BirPackage). q.functions ≡ p.functions) _ _
              (λ x e. read_function_dropped x p.functions e) p refl)
            (λ q e. Ensures-bind _ _ _ (λ m. Ensures-bind _ _ _ (λ l. Ensures-pure _ e))))

  read_type_body-IsKept : (p : BirPackage) → IsKept p → Ensures IsKept (read_type_body cp p)
  unfolding read_type_body
  read_type_body-IsKept p h = Ensures-bind _ _ _ (λ n.
      Ensures-bind_with _ _ _ IsKept (Ensures-iterate IsKept _ _ (read_function-IsKept true) p h)
        (λ q e. Ensures-bind _ _ _ (λ m. Ensures-bind _ _ _ (λ l. Ensures-pure _ e))))

  name_package-IsKept : (e : ConstantPoolEntry) → Ensures IsKept (name_package cp e)
  unfolding name_package
  name_package-IsKept (package_cp_info e) =
      Ensures-bind _ _ _
        (λ a. Ensures-bind _ _ _ (λ b. Ensures-bind _ _ _ (λ c. Ensures-pure _ tt)))
  name_package-IsKept _ = Ensures-pure _ tt

  -- Whatever the bytes, no function of the package that `readModule` returns has a name that begins
  -- with one of the ignored names.
  pub read_module-IsKept :
      (s : Stream) (p : BirPackage) (t : Stream) → read_module cp s ≡ ok (p, t) → IsKept p
  unfolding read_module
  read_module-IsKept s p t h = module_keeps.holds s p t h
    where
      module_keeps : Ensures IsKept (read_module cp)
      module_keeps = Ensures-bind _ _ _ (λ i. Ensures-bind _ _ _ (λ e.
          Ensures-bind_with _ _ _ IsKept (name_package-IsKept e) (λ n k. Ensures-bind _ _ _ (λ a.
            Ensures-bind _ _ _ (λ b. Ensures-bind _ _ _ (λ c. Ensures-bind _ _ _ (λ d.
              Ensures-bind _ _ _ (λ e'. Ensures-bind _ _ _ (λ f. Ensures-bind _ _ _ (λ g.
                Ensures-bind _ _ _ (λ gs. Ensures-bind _ _ _ (λ j.
                  Ensures-bind_with _ _ _ IsKept
                    (Ensures-iterate IsKept _ _ read_type_body-IsKept _ k)
                    (λ q r. Ensures-bind _ _ _ (λ l. Ensures-bind _ _ _ (λ u.
                      Ensures-iterate IsKept _ _ (read_function-IsKept false) q r)))))))))))))))
