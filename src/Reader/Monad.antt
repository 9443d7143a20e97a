-- ===== src/Reader/Monad.antt =====
-- The state and the failures of the reader: every read method takes the stream and returns it, or
-- ends the process.
use nballerina_cpp.Base.{ℕ, zero, suc, Option, none, some, List, [], ◌∷◌, ℤ, pos, negsuc}
use nballerina_cpp.Run.{Fault, length_error, Run, ok, fault}
use nballerina_cpp.Reader.Stream.{Stream}

abbrev pub Reader : Type 0 → Type 0
Reader A = Stream → Run (A × Stream)

unfoldable pub pure : {A : Type 0} → A → Reader A
pure a s = ok (a, s)

unfoldable pub fail : {A : Type 0} → Fault → Reader A
fail e s = fault e

infixl 5 ◌>>=◌ ◌>>◌
unfoldable pub ◌>>=◌ : {A B : Type 0} → Reader A → (A → Reader B) → Reader B
◌>>=◌ m f s = elim (m s) [ ok (a, s') ↦ f a s' | fault e ↦ fault e ]

abbrev pub ◌>>◌ : {B : Type 0} → Reader (Unit {0}) → Reader B → Reader B
m >> k = m >>= λ _. k

-- A result that needs no reading.
unfoldable pub lift : {A : Type 0} → Run A → Reader A
lift (ok a) s = ok (a, s)
lift (fault e) s = fault e

-- `for (auto i = 0; i < count; i++)` makes no round at a negative count.
unfoldable pub rounds : ℤ → ℕ
rounds (pos n) = n
rounds (negsuc n) = 0

unfoldable pub repeat : {A : Type 0} → ℕ → Reader A → Reader (List A)
repeat zero body = pure []
repeat (suc n) body = do x ← body; xs ← repeat n body; pure (x ∷ xs)

-- `reserve` and the constructor of a vector throw at a length that is negative as an `int`.
unfoldable pub reserve : ℤ → Reader (Unit {0})
reserve (pos n) = pure tt
reserve (negsuc n) = fail length_error

-- `readS4be` for a count, then that many rounds; with `reserve` in between in `read_vector`.
unfoldable pub loop : {A : Type 0} → ℤ → Reader A → Reader (List A)
loop count body = repeat (rounds count) body

unfoldable pub vector : {A : Type 0} → ℤ → Reader A → Reader (List A)
vector count body = do reserve count; loop count body

-- A part that stands behind a flag byte: `if (flag != 0U) { … }`.
unfoldable pub optional : {A : Type 0} → ℕ → Reader A → Reader (Option A)
optional zero body = pure none
optional (suc flag) body = do x ← body; pure (some x)

-- A loop whose body changes a value that the code holds outside of the loop.
unfoldable pub iterate : {S : Type 0} → ℕ → (S → Reader S) → S → Reader S
iterate zero body s = pure s
iterate (suc n) body s = do s' ← body s; iterate n body s'
