-- ===== src/Reader/Primitives.antt =====
-- The methods of `BIRFileReader` that implement the interface `Parser`.
use nballerina_cpp.Base.{
  ℕ, zero, suc, List, [], ◌∷◌, replicate, ℤ, pos, negsuc, int16, int32, int64,
}
use nballerina_cpp.Reader.Stream.{Stream, good, bad, read_raw, little, nan_bytes, read_be}
use nballerina_cpp.Run.{length_error, ok}
use nballerina_cpp.Reader.Monad.{Reader, fail}

-- The value of a single byte; the buffer holds 0.
unfoldable pub read_u1 : Reader ℕ
read_u1 s = ok (read_be little (0 ∷ []) s)

unfoldable pub read_s2be : Reader ℤ
read_s2be s = let (v, s') = read_be little (replicate 2 0) s in ok (int16 v, s')

unfoldable pub read_s4be : Reader ℤ
read_s4be s = let (v, s') = read_be little (replicate 4 0) s in ok (int32 v, s')

unfoldable pub read_s8be : Reader ℤ
read_s8be s = let (v, s') = read_be little (replicate 8 0) s in ok (int64 v, s')

-- A `double` is its bit pattern; the buffer holds the host's NAN.
unfoldable pub read_s8bef : Reader ℕ
unfolding nan_bytes
read_s8bef s = ok (read_be little (nan_bytes little) s)

-- `readChars` into a buffer of that many zeros, as `std::vector<char> result(length)` makes it.
unfoldable pub read_chars : ℤ → Reader (List ℕ)
unfolding read_raw
read_chars (pos n) s = ok (read_raw (replicate n 0) s)
read_chars (negsuc n) s = fail length_error s

-- `is.ignore(n)`: at the end of the file the stream is no longer good.
unfoldable pub skip : ℕ → List ℕ → Stream
skip zero bs = good bs
skip (suc n) [] = bad
skip (suc n) (b ∷ bs) = skip n bs

unfoldable pub ignore : ℤ → Reader (Unit {0})
unfolding skip
ignore (pos n) (good bs) = ok (tt, skip n bs)
ignore (pos n) bad = ok (tt, bad)
ignore (negsuc n) s = ok (tt, s)
