-- ===== src/Driver/Paths.antt =====
-- compiler/driver.cpp: what removeExtension removes.
use nballerina_cpp.Base.{
  ℕ, ◌≡◌, refl, true, false, none, some, List, [], ◌∷◌, ◌++◌, ◌==◌, if◌then◌else◌, length,
  get_elem?, All,
}
use nballerina_cpp.Driver.{is_separator, find_last_of, substr, cut_at, remove_extension}

find_last_of-none : (cs : List ℕ) → All (λ c. is_separator c ≡ false) cs → find_last_of cs ≡ none
unfolding find_last_of
find_last_of-none [] h = refl
find_last_of-none (c ∷ cs) h = rw (find_last_of-none cs h.1, h.0) refl

find_last_of-length :
    (stem name : List ℕ) (c : ℕ)
    → is_separator c ≡ true
    → All (λ d. is_separator d ≡ false) name
    → find_last_of (stem ++ (c ∷ name)) ≡ some (length stem)
unfolding find_last_of
find_last_of-length [] name c e h = rw (find_last_of-none name h, e) refl
find_last_of-length (d ∷ stem) name c e h = rw (find_last_of-length stem name c e h) refl

get_elem?-length :
    (stem rest : List ℕ) (c : ℕ) → get_elem? (stem ++ (c ∷ rest)) (length stem) ≡ some c
get_elem?-length [] rest c = refl
get_elem?-length (d ∷ stem) rest c = get_elem?-length stem rest c

substr-length : (stem rest : List ℕ) → substr (length stem) (stem ++ rest) ≡ stem
unfolding substr
substr-length [] [] = refl
substr-length [] (c ∷ rest) = refl
substr-length (d ∷ stem) rest = rw (substr-length stem rest) refl

-- A path whose last part, behind its last `/`, `\` or `.`, is set off by a dot loses the dot and that
-- part; every other path, with another separator in this place or without any, stays as it is.
pub remove_extension_lem :
    (stem name : List ℕ) (c : ℕ)
    → is_separator c ≡ true
    → All (λ d. is_separator d ≡ false) name
    → (remove_extension (stem ++ (c ∷ name)) ≡ (if c == 46 then stem else stem ++ (c ∷ name)))
      × (remove_extension name ≡ name)
unfolding remove_extension cut_at
remove_extension_lem stem name c e h = (
  rw
      (
        find_last_of-length stem name c e h,
        cut_at,
        get_elem?-length stem name c,
        substr-length stem (c ∷ name),
      )
      refl,
  rw (find_last_of-none name h) refl,
)
