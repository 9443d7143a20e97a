-- ===== src/Reader/Pool/Set.antt =====
-- compiler/reader/ConstantPool.cpp: the entries' read methods and `ConstantPoolSet::read`.
use nballerina_cpp.Base.{ℕ, zero, suc, Option, none, some, List, [], ◌∷◌}
use nballerina_cpp.Reader.Monad.{Reader, pure, ◌>>=◌, ◌>>◌, rounds, reserve}
use nballerina_cpp.Reader.Primitives.{read_u1, read_s4be, read_s8be, read_s8bef, read_chars}
use nballerina_cpp.Reader.Pool.Entry.{
  PackageCpInfo, ConstantPoolEntry, integer_cp_info, float_cp_info, boolean_cp_info, string_cp_info,
  package_cp_info, byte_cp_info, shape_cp_info,
}
use nballerina_cpp.Reader.Pool.Shape.{read_shape}

unfoldable pub read_string_cp : Reader (List ℕ)
read_string_cp = do string_length ← read_s4be; reserve string_length; read_chars string_length

unfoldable pub read_package_cp : Reader PackageCpInfo
read_package_cp = do
  org ← read_s4be
  name ← read_s4be
  version ← read_s4be
  pure (record { org_index = org; name_index = name; version_index = version })

-- `ConstantPoolEntry::tagEnum`; any other byte takes the `default` of the `switch`.
pub data CpTag : Type 0 where
  cp_integer cp_float cp_boolean cp_string cp_package cp_byte cp_shape : CpTag
  cp_other : CpTag

cp_tags : List CpTag
cp_tags =
    cp_other ∷ cp_integer ∷ cp_float ∷ cp_boolean ∷ cp_string ∷ cp_package ∷ cp_byte ∷ cp_shape ∷ []

cp_tag_at : List CpTag → ℕ → CpTag
cp_tag_at [] i = cp_other
cp_tag_at (t ∷ ts) zero = t
cp_tag_at (t ∷ ts) (suc i) = cp_tag_at ts i

unfoldable pub to_cp_tag : ℕ → CpTag
unfolding cp_tags cp_tag_at
to_cp_tag n = cp_tag_at cp_tags n

-- The `switch` of `ConstantPoolSet::read`; `none` where nothing is read and nothing is pushed.
unfoldable pub read_entry : CpTag → Reader (Option ConstantPoolEntry)
read_entry cp_package = do p ← read_package_cp; pure (some (package_cp_info p))
read_entry cp_shape = do s ← read_shape; pure (some (shape_cp_info s))
read_entry cp_string = do s ← read_string_cp; pure (some (string_cp_info s))
read_entry cp_integer = do v ← read_s8be; pure (some (integer_cp_info v))
read_entry cp_float = do v ← read_s8bef; pure (some (float_cp_info v))
read_entry cp_boolean = do v ← read_u1; pure (some (boolean_cp_info v))
read_entry cp_byte = do v ← read_s4be; pure (some (byte_cp_info v))
read_entry cp_other = pure none

unfoldable pub push_entry :
    Option ConstantPoolEntry → List ConstantPoolEntry → List ConstantPoolEntry
push_entry none entries = entries
push_entry (some e) entries = e ∷ entries

-- The `for` loop: the entries of the rounds that are left.
unfoldable pub read_entries : ℕ → Reader (List ConstantPoolEntry)
read_entries zero = pure []
read_entries (suc n) = do
  tag ← read_u1
  entry ← read_entry (to_cp_tag tag)
  entries ← read_entries n
  pure (push_entry entry entries)

abbrev pub ConstantPoolSet : Type 0
ConstantPoolSet = List ConstantPoolEntry

unfoldable pub read_pool : Reader ConstantPoolSet
read_pool = do count ← read_s4be; reserve count; read_entries (rounds count)
