-- ===== src/Reader/Stream.antt =====
-- compiler/reader/BIRFileReader.cpp and compiler/include/interfaces/Parser.h: the byte stream and
-- the big-endian numbers on it.
use nballerina_cpp.Base.{ℕ, ◌+◌, ◌*◌, List, [], ◌∷◌}
use mathlib.Core.List.{reverse}

-- The `std::ifstream`: the bytes not yet extracted while `good()` holds. Once it does not, no read
-- extracts anything.
pub data Stream : Type 0 where
  good : List ℕ → Stream
  bad : Stream

-- `is.read(p, n)` over a buffer that holds the given bytes: what cannot be read stays as it was.
unfoldable pub fill : List ℕ → List ℕ → List ℕ × Stream
fill [] bs = ([], good bs)
fill (z ∷ zs) [] = (z ∷ zs, bad)
fill (z ∷ zs) (b ∷ bs) = let (xs, s) = fill zs bs in (b ∷ xs, s)

unfoldable pub read_raw : List ℕ → Stream → List ℕ × Stream
unfolding fill
read_raw buffer (good bs) = fill buffer bs
read_raw buffer bad = (buffer, bad)

-- The number that bytes in memory stand for, on a host of either byte order.
pub data Endian : Type 0 where
  little big : Endian

unfoldable pub be_value_from : ℕ → List ℕ → ℕ
be_value_from acc [] = acc
be_value_from acc (b ∷ bs) = be_value_from (acc * 256 + b) bs

unfoldable pub be_value : List ℕ → ℕ
unfolding be_value_from
be_value bs = be_value_from 0 bs

unfoldable pub load : Endian → List ℕ → ℕ
unfolding be_value
load little bs = be_value (reverse bs)
load big bs = be_value bs

-- `swapEndian`: the bytes of the value in the opposite order.
unfoldable pub swap_endian : List ℕ → List ℕ
swap_endian u8 = reverse u8

-- The bytes of `double value = NAN` in memory: a quiet NAN, 0x7ff8000000000000.
unfoldable pub nan_bytes : Endian → List ℕ
nan_bytes little = 0 ∷ 0 ∷ 0 ∷ 0 ∷ 0 ∷ 0 ∷ 0xf8 ∷ 0x7f ∷ []
nan_bytes big = 0x7f ∷ 0xf8 ∷ 0 ∷ 0 ∷ 0 ∷ 0 ∷ 0 ∷ 0 ∷ []

-- The common text of `readS2be`, `readS4be`, `readS8be` and `readS8bef`: the buffer is read, and its
-- bytes are swapped if `isLittleEndian()`.
unfoldable pub read_be : Endian → List ℕ → Stream → ℕ × Stream
unfolding read_raw load swap_endian
read_be little buffer s = let (xs, s') = read_raw buffer s in (load little (swap_endian xs), s')
read_be big buffer s = let (xs, s') = read_raw buffer s in (load big xs, s')
