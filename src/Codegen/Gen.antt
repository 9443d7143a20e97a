-- ===== src/Codegen/Gen.antt =====
-- Steps of the generator: they change the state of the library, and may end the run.
use nballerina_cpp.Base.{Bool, true, false, Option, none, some, List, [], ◌∷◌}
use nballerina_cpp.Run.{Fault, null_pointer, failed_assert, Run, ok, fault}

abbrev pub Gen : Type 0 → Type 0 → Type 0
Gen S A = S → Run (A × S)

module _ {S A : Type 0} where
  abbrev pub pure : A → Gen S A
  pure a s = ok (a, s)

  abbrev pub fail : Fault → Gen S A
  fail e s = fault e

  -- An operation of the library that returns a value.
  abbrev pub call : (S → A × S) → Gen S A
  call f s = ok (f s)

  -- A query that changes nothing.
  abbrev pub gets : (S → A) → Gen S A
  gets f s = ok (f s, s)

  abbrev pub lift : Run A → Gen S A
  lift (ok a) s = ok (a, s)
  lift (fault e) s = fault e

  -- A use of a pointer, which is undefined where it is null.
  abbrev pub deref : Option A → Gen S A
  deref none s = fault null_pointer
  deref (some a) s = ok (a, s)

infixl 5 ◌>>=◌ ◌>>◌
abbrev pub ◌>>=◌ : {S A B : Type 0} → Gen S A → (A → Gen S B) → Gen S B
◌>>=◌ m f s = elim (m s) [ ok a ↦ f a.0 a.1 | fault e ↦ fault e ]

abbrev pub ◌>>◌ : {S B : Type 0} → Gen S (Unit {0}) → Gen S B → Gen S B
m >> k = m >>= λ _. k

-- An operation that returns nothing.
abbrev pub perform : {S : Type 0} → (S → S) → Gen S (Unit {0})
perform f s = ok (tt, f s)

-- The failure of an `assert`.
abbrev pub check : {S : Type 0} → Bool → Gen S (Unit {0})
check true s = ok (tt, s)
check false s = fault failed_assert

-- `for (const auto &x : xs)`
unfoldable pub each : {S A : Type 0} → List A → (A → Gen S (Unit {0})) → Gen S (Unit {0})
each [] body = pure tt
each (x ∷ xs) body = body x >> each xs body

-- The same, where the body's results are collected in a vector.
unfoldable pub collect : {S A B : Type 0} → List A → (A → Gen S B) → Gen S (List B)
collect [] body = pure []
collect (x ∷ xs) body = do y ← body x; ys ← collect xs body; pure (y ∷ ys)
