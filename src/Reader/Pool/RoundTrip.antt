-- ===== src/Reader/Pool/RoundTrip.antt =====
-- The format of the whole constant pool, against `ConstantPoolSet::read`.
use nballerina_cpp.Base.{
  ℕ, ◌%◌, ◌^◌, ◌≡◌, some, List, [], ◌∷◌, ◌++◌, map, append_assoc, length, concat_map, int32, int64,
  int32_small,
}
use nballerina_cpp.Reader.Stream.{good}
use nballerina_cpp.Run.{ok}
use nballerina_cpp.Reader.Wire.{
  to_be, Parses, Parses-bind, Parses-pure, Parses-last, Parses-read_u1, Parses-read_s4be,
  Parses-read_s8be, Parses-read_s8bef, Parses-read_chars, rounds-int32, Parses-reserve, Counted,
  count,
}
use nballerina_cpp.Reader.Pool.Entry.{
  PackageCpInfo, ConstantPoolEntry, integer_cp_info, float_cp_info, boolean_cp_info, string_cp_info,
  package_cp_info, byte_cp_info, shape_cp_info,
}
use nballerina_cpp.Reader.Pool.Set.{
  read_string_cp, read_package_cp, to_cp_tag, read_entry, push_entry, read_entries, read_pool,
}
use nballerina_cpp.Reader.Pool.ShapeWire.{ShapeWire, encode_shape, value_shape, Parses-shape}

pub record PackageWire : Type 0 where
  pub org : ℕ
  pub name : ℕ
  pub version : ℕ

unfoldable pub encode_package_cp : PackageWire → List ℕ
encode_package_cp w = to_be 4 w.org ++ (to_be 4 w.name ++ to_be 4 w.version)

unfoldable pub value_package_cp : PackageWire → PackageCpInfo
value_package_cp w = record {
  org_index = int32 w.org;
  name_index = int32 w.name;
  version_index = int32 w.version;
}

Parses-package_cp :
    (w : PackageWire) → Parses read_package_cp (encode_package_cp w) (value_package_cp w)
unfolding read_package_cp encode_package_cp value_package_cp
Parses-package_cp w =
    Parses-bind _ (Parses-read_s4be _)
      (Parses-bind _ (Parses-read_s4be _) (Parses-last _ (Parses-read_s4be _)))

Parses-string_cp : (w : Counted ℕ) → Parses read_string_cp (to_be 4 (count w) ++ w.items) w.items
unfolding read_string_cp
Parses-string_cp w = Parses-bind _ (Parses-read_s4be _) (
    Parses-bind _ (Parses-reserve (count w) w.fits)
      (rw (int32_small (count w) w.fits) (Parses-read_chars w.items)))

-- An entry of the pool, of one of the seven kinds.
pub data EntryWire : Type 0 where
  integer_entry : ℕ → EntryWire
  float_entry : ℕ → EntryWire
  boolean_entry : ℕ → EntryWire
  string_entry : Counted ℕ → EntryWire
  package_entry : PackageWire → EntryWire
  byte_entry : ℕ → EntryWire
  shape_entry : ShapeWire → EntryWire

unfoldable pub entry_number : EntryWire → ℕ
entry_number (integer_entry v) = 1
entry_number (float_entry v) = 2
entry_number (boolean_entry v) = 3
entry_number (string_entry s) = 4
entry_number (package_entry p) = 5
entry_number (byte_entry v) = 6
entry_number (shape_entry s) = 7

unfoldable pub encode_payload : EntryWire → List ℕ
encode_payload (integer_entry v) = to_be 8 v
encode_payload (float_entry v) = to_be 8 v
encode_payload (boolean_entry v) = v ∷ []
encode_payload (string_entry s) = to_be 4 (count s) ++ s.items
encode_payload (package_entry p) = encode_package_cp p
encode_payload (byte_entry v) = to_be 4 v
encode_payload (shape_entry s) = encode_shape s

unfoldable pub value_entry : EntryWire → ConstantPoolEntry
value_entry (integer_entry v) = integer_cp_info (int64 v)
value_entry (float_entry v) = float_cp_info (v % 2 ^ 64)
value_entry (boolean_entry v) = boolean_cp_info v
value_entry (string_entry s) = string_cp_info s.items
value_entry (package_entry p) = package_cp_info (value_package_cp p)
value_entry (byte_entry v) = byte_cp_info (int32 v)
value_entry (shape_entry s) = shape_cp_info (value_shape s)

Parses-entry :
    (e : EntryWire)
    → Parses (read_entry (to_cp_tag (entry_number e))) (encode_payload e) (some (value_entry e))
unfolding read_entry to_cp_tag entry_number encode_payload value_entry
Parses-entry (integer_entry v) = Parses-last _ (Parses-read_s8be v)
Parses-entry (float_entry v) = Parses-last _ (Parses-read_s8bef v)
Parses-entry (boolean_entry v) = Parses-last _ (Parses-read_u1 v)
Parses-entry (string_entry s) = Parses-last _ (Parses-string_cp s)
Parses-entry (package_entry p) = Parses-last _ (Parses-package_cp p)
Parses-entry (byte_entry v) = Parses-last _ (Parses-read_s4be v)
Parses-entry (shape_entry s) = Parses-last _ (Parses-shape s)

unfoldable pub encode_entry : EntryWire → List ℕ
encode_entry e = (entry_number e ∷ []) ++ encode_payload e

unfoldable pub encode_pool : Counted EntryWire → List ℕ
encode_pool w = to_be 4 (count w) ++ concat_map encode_entry w.items

Parses-entries :
    (es : List EntryWire)
    → Parses (read_entries (length es)) (concat_map encode_entry es) (map value_entry es)
unfolding read_entries concat_map encode_entry push_entry
Parses-entries [] = Parses-pure
Parses-entries (e ∷ es) = rw append_assoc (
    Parses-bind _ (Parses-read_u1 (entry_number e))
      (Parses-bind _ (Parses-entry e) (Parses-last _ (Parses-entries es))))

-- Reading back a constant pool: on the encoding of any sequence of entries of the seven kinds
-- (fewer than 2 ^ 31 of them), whatever bytes follow it, `ConstantPoolSet::read` ends normally,
-- consumes exactly the encoding, and holds the entries in their order.
pub read_pool-encode_pool :
    (w : Counted EntryWire) (rest : List ℕ)
    → read_pool (good (encode_pool w ++ rest)) ≡ ok (map value_entry w.items, good rest)
unfolding read_pool encode_pool
read_pool-encode_pool w rest = pool_parses.run rest
  where
    pool_parses : Parses read_pool (encode_pool w) (map value_entry w.items)
    pool_parses = Parses-bind _ (Parses-read_s4be _) (
        Parses-bind _ (Parses-reserve (count w) w.fits)
          (rw (rounds-int32 (count w) w.fits) (Parses-entries w.items)))
