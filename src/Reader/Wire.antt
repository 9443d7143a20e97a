-- ===== src/Reader/Wire.antt =====
-- The big-endian format of the file, and rules about read methods that run on its bytes.
use nballerina_cpp.Base.{
  ℕ, zero, suc, ◌+◌, ◌*◌, ◌/◌, ◌%◌, ◌^◌, ◌<◌, ◌≡◌, refl, sym, Option, none, some, List, [], ◌∷◌,
  ◌++◌, map, append_assoc, arith, length, replicate, length-append, length-replicate, concat_map,
  pos, int32, int64, int32_small, int32-mod, int64-mod,
}
use nballerina_cpp.Reader.Stream.{good, fill, read_raw, little, be_value_from, be_value, read_be}
use nballerina_cpp.Run.{Run, ok}
use nballerina_cpp.Reader.Monad.{
  Reader, pure, ◌>>=◌, lift, rounds, repeat, reserve, loop, vector, optional,
}
use nballerina_cpp.Reader.Primitives.{
  read_u1, read_s4be, read_s8be, read_s8bef, read_chars, skip, ignore,
}
use mathlib.Core.List.{reverse-reverse}

-- The low `n` bytes of a number, the highest first.
unfoldable pub to_be : ℕ → ℕ → List ℕ
to_be zero x = []
to_be (suc n) x = to_be n (x / 256) ++ (x % 256 ∷ [])

pub length-to_be : (n x : ℕ) → length (to_be n x) ≡ n
unfolding to_be
length-to_be zero x = refl
length-to_be (suc n) x =
    omega (arith, length-append {0} (to_be n (x / 256)) (x % 256 ∷ []), length-to_be n (x / 256))

be_value_from-append :
    (acc : ℕ) (bs : List ℕ) (b : ℕ)
    → be_value_from acc (bs ++ (b ∷ [])) ≡ be_value_from acc bs * 256 + b
unfolding be_value_from
be_value_from-append acc [] b = refl
be_value_from-append acc (c ∷ bs) b = be_value_from-append (acc * 256 + c) bs b

be_value-append : (bs : List ℕ) (b : ℕ) → be_value (bs ++ (b ∷ [])) ≡ be_value bs * 256 + b
unfolding be_value
be_value-append bs b = be_value_from-append 0 bs b

fill-append :
    (buffer bs rest : List ℕ)
    → length buffer ≡ length bs
    → fill buffer (bs ++ rest) ≡ (bs, good rest)
unfolding fill
fill-append [] [] rest h = refl
fill-append [] (b ∷ bs) rest h = absurd (omega arith)
fill-append (z ∷ zs) [] rest h = absurd (omega arith)
fill-append (z ∷ zs) (b ∷ bs) rest h = rw (fill-append zs bs rest (omega arith))

read_be-append :
    (buffer bs rest : List ℕ)
    → length buffer ≡ length bs
    → read_be little buffer (good (bs ++ rest)) ≡ (be_value bs, good rest)
unfolding read_be
read_be-append buffer bs rest h = rw (fill-append buffer bs rest h, reverse-reverse)

be_value-to_be_4 : (x : ℕ) → be_value (to_be 4 x) ≡ x % 2 ^ 32
unfolding to_be
be_value-to_be_4 x = simp be_value-append (unfold be_value be_value_from in omega arith)

be_value-to_be_8 : (x : ℕ) → be_value (to_be 8 x) ≡ x % 2 ^ 64
unfolding to_be
be_value-to_be_8 x = simp be_value-append (unfold be_value be_value_from in omega arith)

be_value-byte : (b : ℕ) → be_value (b ∷ []) ≡ b
unfolding be_value be_value_from
be_value-byte b = omega arith

-- The read method takes exactly these bytes off a good stream, whatever follows, and returns `v`.
pub record Parses {A : Type 0} (p : Reader A) (bs : List ℕ) (v : A) : Type 0 where
  pub run : (rest : List ℕ) → p (good (bs ++ rest)) ≡ ok (v, good rest)

pub Parses-bind :
    {A B : Type 0} {p : Reader A} (f : A → Reader B) {bs cs : List ℕ} {a : A} {b : B}
    → Parses p bs a
    → Parses (f a) cs b
    → Parses (p >>= f) (bs ++ cs) b
unfolding ◌>>=◌
Parses-bind f {bs = bs} {cs = cs} hp hf = record {
  run = λ rest. rw (append_assoc bs cs rest, ◌>>=◌, hp.run (cs ++ rest)) (hf.run rest);
}

pub Parses-pure : {A : Type 0} {a : A} → Parses (pure a) [] a
unfolding pure
Parses-pure = record { run = λ rest. refl }

-- A last step, which needs no empty tail.
pub Parses-last :
    {A B : Type 0} {p : Reader A} (f : A → B) {bs : List ℕ} {a : A}
    → Parses p bs a
    → Parses (p >>= λ x. pure (f x)) bs (f a)
unfolding ◌>>=◌ pure
Parses-last f hp = record { run = λ rest. rw (◌>>=◌, hp.run rest) }

-- A step after which nothing more is read.
pub Parses-bind_rest :
    {A B : Type 0} {p : Reader A} (f : A → Reader B) {bs : List ℕ} {a : A} {b : B}
    → Parses p bs a
    → Parses (f a) [] b
    → Parses (p >>= f) bs b
unfolding ◌>>=◌
Parses-bind_rest f hp hf = record { run = λ rest. rw (◌>>=◌, hp.run rest) (hf.run rest) }

pub Parses-lift : {A : Type 0} {r : Run A} {a : A} → r ≡ ok a → Parses (lift r) [] a
unfolding lift
Parses-lift h = record { run = λ rest. rw h refl }

pub Parses-read_u1 : (b : ℕ) → Parses read_u1 (b ∷ []) b
unfolding read_u1
Parses-read_u1 b = record {
  run = λ rest. rw (read_be-append (0 ∷ []) (b ∷ []) rest refl, be_value-byte);
}

pub Parses-read_s4be : (x : ℕ) → Parses read_s4be (to_be 4 x) (int32 x)
unfolding read_s4be
Parses-read_s4be x = record {
  run = λ rest. rw (
    read_be-append (replicate 4 0) (to_be 4 x) rest (sym (length-to_be 4 x)),
    be_value-to_be_4 x,
    int32-mod,
  );
}

pub Parses-read_s8be : (x : ℕ) → Parses read_s8be (to_be 8 x) (int64 x)
unfolding read_s8be
Parses-read_s8be x = record {
  run = λ rest. rw (
    read_be-append (replicate 8 0) (to_be 8 x) rest (sym (length-to_be 8 x)),
    be_value-to_be_8 x,
    int64-mod,
  );
}

pub Parses-read_s8bef : (x : ℕ) → Parses read_s8bef (to_be 8 x) (x % 2 ^ 64)
unfolding read_s8bef
Parses-read_s8bef x = record {
  run = λ rest. rw (
    read_be-append (0 ∷ 0 ∷ 0 ∷ 0 ∷ 0 ∷ 0 ∷ 0xf8 ∷ 0x7f ∷ []) (to_be 8 x) rest
        (sym (length-to_be 8 x)),
    be_value-to_be_8 x,
  );
}

pub Parses-read_chars : (cs : List ℕ) → Parses (read_chars (pos (length cs))) cs cs
unfolding read_chars read_raw
Parses-read_chars cs = record {
  run = λ rest. rw (fill-append (replicate (length cs) 0) cs rest (length-replicate _ _));
}

skip-append : (cs rest : List ℕ) → skip (length cs) (cs ++ rest) ≡ good rest
unfolding skip
skip-append [] rest = refl
skip-append (c ∷ cs) rest = skip-append cs rest

pub Parses-ignore : (cs : List ℕ) → Parses (ignore (pos (length cs))) cs tt
unfolding ignore
Parses-ignore cs = record { run = λ rest. rw skip-append }

-- Counted loops: the count as the reader sees it, and one item after the other.
pub rounds-int32 : (n : ℕ) → n < 2 ^ 31 → rounds (int32 n) ≡ n
unfolding rounds
rounds-int32 n h = rw (int32_small n h)

pub Parses-reserve : (n : ℕ) → n < 2 ^ 31 → Parses (reserve (int32 n)) [] tt
unfolding reserve
Parses-reserve n h = rw (int32_small n h) Parses-pure

-- A sequence that a writer can put behind a signed count of 32 bits.
pub record Counted (W : Type 0) : Type 0 where
  pub items : List W
  pub fits : length items < 2 ^ 31

-- The count of a sequence, on the wire and as it is read.
abbrev pub count : {W : Type 0} → Counted W → ℕ
count ws = length ws.items

module _ {A W : Type 0} (body : Reader A) (encode : W → List ℕ) (value : W → A) where
  Parses-repeat :
      (ws : List W)
      → ((w : W) → Parses body (encode w) (value w))
      → Parses (repeat (length ws) body) (concat_map encode ws) (map value ws)
  unfolding repeat concat_map
  Parses-repeat [] item = Parses-pure
  Parses-repeat (w ∷ ws) item = Parses-bind _ (item w) (Parses-last _ (Parses-repeat ws item))

  pub Parses-loop :
      (ws : Counted W)
      → ((w : W) → Parses body (encode w) (value w))
      → Parses (loop (int32 (count ws)) body) (concat_map encode ws.items) (map value ws.items)
  unfolding loop
  Parses-loop ws item = rw (rounds-int32 (count ws) ws.fits) (Parses-repeat ws.items item)

  pub Parses-vector :
      (ws : Counted W)
      → ((w : W) → Parses body (encode w) (value w))
      → Parses (vector (int32 (count ws)) body) (concat_map encode ws.items) (map value ws.items)
  unfolding vector
  Parses-vector ws item = Parses-bind _ (Parses-reserve (count ws) ws.fits) (Parses-loop ws item)

-- A part behind a flag byte, which a writer sets to 0 or 1.
abbrev pub flag : {W : Type 0} → Option W → ℕ
flag none = 0
flag (some w) = 1

abbrev pub encode_optional : {W : Type 0} → (W → List ℕ) → Option W → List ℕ
encode_optional encode none = []
encode_optional encode (some w) = encode w

abbrev pub value_optional : {A W : Type 0} → (W → A) → Option W → Option A
value_optional value none = none
value_optional value (some w) = some (value w)

pub Parses-optional :
    {A W : Type 0} (body : Reader A) (encode : W → List ℕ) (value : W → A) (o : Option W)
    → ((w : W) → Parses body (encode w) (value w))
    → Parses (optional (flag o) body) (encode_optional encode o) (value_optional value o)
unfolding optional
Parses-optional body encode value none item = Parses-pure
Parses-optional body encode value (some w) item = Parses-last _ (item w)
