-- ===== src/Reader/Pool/Lookup.antt =====
-- compiler/reader/ConstantPool.cpp: the queries of `ConstantPoolSet`.
use nballerina_cpp.Base.{
  ℕ, zero, suc, ◌%◌, Bool, true, false, not, Option, none, some, List, [], ◌∷◌, leb, ◌==◌,
  if◌then◌else◌, get_elem?, ℤ, pos, negsuc,
}
use nballerina_cpp.Run.{
  length_error, out_of_range, wrong_entry, byte_range, indeterminate, Run, ok, fault, ◌>>=◌,
}
use nballerina_cpp.Bir.TypeTag.{TypeTag, type_tag_int, type_tag_nil, type_tag_map, type_tag_array}
use nballerina_cpp.Bir.Types.{TypeName, named, anonymous, array_type, map_type, BalType, plain_type}
use nballerina_cpp.Reader.Pool.Entry.{
  ShapeCpInfo, ConstantPoolEntry, integer_cp_info, float_cp_info, boolean_cp_info, string_cp_info,
  byte_cp_info, shape_cp_info,
}
use nballerina_cpp.Reader.Pool.Set.{ConstantPoolSet}

unfoldable pub entry_at : Option ConstantPoolEntry → Run ConstantPoolEntry
entry_at none = fault out_of_range
entry_at (some e) = ok e

-- `poolEntries[index]`: a negative index becomes a huge one.
unfoldable pub get_entry : ConstantPoolSet → ℤ → Run ConstantPoolEntry
unfolding entry_at
get_entry cp (pos i) = entry_at (get_elem? cp i)
get_entry cp (negsuc i) = fault out_of_range

-- The `assert` on the tag with the `static_cast` behind it, for each kind of entry.
unfoldable pub as_string : ConstantPoolEntry → Run (List ℕ)
as_string (string_cp_info s) = ok s
as_string _ = fault wrong_entry

unfoldable pub as_int : ConstantPoolEntry → Run ℤ
as_int (integer_cp_info v) = ok v
as_int _ = fault wrong_entry

-- The value must also be a byte, to which it is then cast.
unfoldable pub as_byte : ConstantPoolEntry → Run ℕ
as_byte (byte_cp_info (pos n)) = if leb n 255 then ok (n % 256) else fault byte_range
as_byte (byte_cp_info (negsuc n)) = fault byte_range
as_byte _ = fault wrong_entry

unfoldable pub as_float : ConstantPoolEntry → Run ℕ
as_float (float_cp_info v) = ok v
as_float _ = fault wrong_entry

unfoldable pub as_boolean : ConstantPoolEntry → Run Bool
as_boolean (boolean_cp_info v) = ok (not (v == 0))
as_boolean _ = fault wrong_entry

unfoldable pub as_shape : ConstantPoolEntry → Run ShapeCpInfo
as_shape (shape_cp_info s) = ok s
as_shape _ = fault wrong_entry

-- A member that no read has set.
unfoldable pub determined : {A : Type 0} → Option A → Run A
determined none = fault indeterminate
determined (some a) = ok a

module _ (cp : ConstantPoolSet) (index : ℤ) where
  unfoldable pub get_string_cp : Run (List ℕ)
  get_string_cp = get_entry cp index >>= as_string

  unfoldable pub get_int_cp : Run ℤ
  unfolding get_entry as_int
  get_int_cp = get_entry cp index >>= as_int

  unfoldable pub get_byte_cp : Run ℕ
  get_byte_cp = get_entry cp index >>= as_byte

  unfoldable pub get_float_cp : Run ℕ
  unfolding get_entry as_float
  get_float_cp = get_entry cp index >>= as_float

  unfoldable pub get_boolean_cp : Run Bool
  unfolding get_entry as_boolean
  get_boolean_cp = get_entry cp index >>= as_boolean

  unfoldable pub get_shape : Run ShapeCpInfo
  unfolding get_entry as_shape
  get_shape = get_entry cp index >>= as_shape

  unfoldable pub get_type_tag : Run TypeTag
  unfolding get_shape
  get_type_tag = do shape ← get_shape; ok shape.type_tag

-- An empty name is replaced by `anon-` and the digits of a random number.
unfoldable pub type_name : List ℕ → TypeName
type_name [] = anonymous
type_name (c ∷ cs) = named (c ∷ cs)

-- The tests on the tag at the end of `getTypeCp`, in their order.
unfoldable pub type_of_shape :
    ConstantPoolSet → Bool → ShapeCpInfo → TypeName → TypeTag → Run BalType
type_of_shape cp true s name type_tag_nil = ok (plain_type type_tag_int name)
type_of_shape cp void_to_int s name type_tag_map = do
  index ← determined s.constraint_type_cp_index
  member ← get_shape cp index
  ok (record { tag = type_tag_map; name = name; info = map_type member.type_tag })
type_of_shape cp void_to_int s name type_tag_array = do
  index ← determined s.element_type_cp_index
  member ← get_shape cp index
  size' ← determined s.size
  state' ← determined s.state
  ok (record {
    tag = type_tag_array;
    name = name;
    info = array_type (record { member_type = member.type_tag; size = size'; state = pos state' });
  })
type_of_shape cp void_to_int s name tag' = ok (plain_type tag' name)

unfoldable pub get_type_cp : ConstantPoolSet → ℤ → Bool → Run BalType
unfolding get_shape get_string_cp type_of_shape
get_type_cp cp index void_to_int = do
  shape ← get_shape cp index
  name ← get_string_cp cp shape.name_index
  type_of_shape cp void_to_int shape (type_name name) shape.type_tag

-- compiler/include/bir/InvocableType.h
pub record InvocableType : Type 0 where
  pub param_types : List BalType
  pub return_type : BalType
  pub rest_type : Option BalType

-- The types of the parameters from the index `i` on, for the rounds that are left.
unfoldable pub get_param_types : ConstantPoolSet → List ℤ → ℕ → Run (List BalType)
get_param_types cp params zero = ok []
get_param_types cp [] (suc n) = fault out_of_range
get_param_types cp (p ∷ ps) (suc n) = do
  t ← get_type_cp cp p false
  ts ← get_param_types cp ps n
  ok (t ∷ ts)

-- The vector of the parameters reserves their count.
unfoldable pub param_rounds : ℤ → Run ℕ
param_rounds (pos n) = ok n
param_rounds (negsuc n) = fault length_error

unfoldable pub get_rest_type : ConstantPoolSet → ℕ → Option ℤ → Run (Option BalType)
get_rest_type cp zero rest = ok none
get_rest_type cp (suc flag) rest = do
  index ← determined rest
  t ← get_type_cp cp index false
  ok (some t)

unfoldable pub get_invocable_type : ConstantPoolSet → ℤ → Run InvocableType
get_invocable_type cp index = do
  shape ← get_shape cp index
  count ← determined shape.param_count
  n ← param_rounds count
  params' ← get_param_types cp shape.params n
  return_index ← determined shape.return_type_index
  return' ← get_type_cp cp return_index false
  has_rest ← determined shape.has_rest_type
  rest' ← get_rest_type cp has_rest shape.rest_type_index
  ok (record { param_types = params'; return_type = return'; rest_type = rest' })
