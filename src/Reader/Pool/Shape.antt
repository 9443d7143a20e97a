-- ===== src/Reader/Pool/Shape.antt =====
-- compiler/reader/ConstantPool.cpp: `ShapeCpInfo::read`.
use nballerina_cpp.Base.{ℕ, zero, suc, none, some, List, [], ℤ, narrow32}
use nballerina_cpp.Bir.TypeTag.{
  TypeTag, type_tag_invalid, type_tag_xml, type_tag_table, type_tag_record, type_tag_typedesc,
  type_tag_stream, type_tag_map, type_tag_invokable, type_tag_array, type_tag_union,
  type_tag_intersection, type_tag_error, type_tag_tuple, type_tag_future, type_tag_finite,
  type_tag_object, type_tag_parameterized_type, unnamed, to_type_tag,
}
use nballerina_cpp.Run.{invalid_type_tag}
use nballerina_cpp.Reader.Monad.{Reader, pure, fail, ◌>>=◌, loop, vector, optional}
use nballerina_cpp.Reader.Primitives.{read_u1, read_s4be, read_s8be}
use nballerina_cpp.Reader.Pool.Entry.{ShapeCpInfo}
use nballerina_cpp.Reader.Pool.Parts.{
  read_type_id, read_object_field, read_record_field, read_object_attached_function, read_indices,
}

-- `case TYPE_TAG_INVOKABLE`.
unfoldable pub read_invokable_type : ShapeCpInfo → Reader ShapeCpInfo
read_invokable_type s = do
  count ← read_s4be
  params' ← loop count read_s4be
  has_rest ← read_u1
  rest ← optional has_rest read_s4be
  return_type ← read_s4be
  pure (record s {
    param_count = some count;
    params = params';
    has_rest_type = some has_rest;
    rest_type_index = rest;
    return_type_index = some return_type;
  })

unfoldable pub read_invokable : ShapeCpInfo → ℕ → Reader ShapeCpInfo
read_invokable s zero = read_invokable_type s
read_invokable s (suc is_any_function) = pure s

-- The cases that set `constraintTypeCpIndex` and nothing else.
unfoldable pub read_constraint : ShapeCpInfo → Reader ShapeCpInfo
read_constraint s = do c ← read_s4be; pure (record s { constraint_type_cp_index = some c })

unfoldable pub read_error : ShapeCpInfo → Reader ShapeCpInfo
read_error s = do _ ← read_s4be; _ ← read_s4be; _ ← read_s4be; _ ← read_type_id; pure s

unfoldable pub read_stream : ShapeCpInfo → Reader ShapeCpInfo
read_stream s = do
  c ← read_s4be
  has_error ← read_u1
  _ ← optional has_error read_s4be
  pure (record s { constraint_type_cp_index = some c })

unfoldable pub read_parameterized : ShapeCpInfo → Reader ShapeCpInfo
read_parameterized s = do _ ← read_s4be; _ ← read_s4be; pure s

-- The fields and the functions of an object, then what follows them.
unfoldable pub read_object : ShapeCpInfo → Reader ShapeCpInfo
read_object s = do
  _ ← read_u1
  _ ← read_s4be
  _ ← read_s4be
  _ ← read_u1
  _ ← read_u1
  fields_count ← read_s4be
  _ ← vector fields_count read_object_field
  has_generated_init ← read_u1
  _ ← optional has_generated_init read_object_attached_function
  has_init ← read_u1
  _ ← optional has_init read_object_attached_function
  functions_count ← read_s4be
  _ ← vector functions_count read_object_attached_function
  _ ← read_indices
  _ ← read_type_id
  pure s

-- `pkdIdCpIndex` and `nameCpIndex` of a named union.
unfoldable pub read_name_pair : Reader (ℤ × ℤ)
read_name_pair = do pkg ← read_s4be; name ← read_s4be; pure (pkg, name)

-- The members of an enumeration.
unfoldable pub read_enum : Reader (ℤ × ℤ × List ℤ)
read_enum = do pkg ← read_s4be; name ← read_s4be; members ← read_indices; pure (pkg, name, members)

unfoldable pub read_union : ShapeCpInfo → Reader ShapeCpInfo
read_union s = do
  _ ← read_u1
  has_name ← read_u1
  _ ← optional has_name read_name_pair
  _ ← read_indices
  _ ← read_indices
  is_enum ← read_u1
  _ ← optional is_enum read_enum
  pure s

unfoldable pub read_tuple : ShapeCpInfo → Reader ShapeCpInfo
read_tuple s = do
  _ ← read_indices
  has_rest ← read_u1
  _ ← optional has_rest read_s4be
  pure (record s { has_rest_type = some has_rest })

unfoldable pub read_intersection : ShapeCpInfo → Reader ShapeCpInfo
read_intersection s = do _ ← read_indices; _ ← read_s4be; pure s

unfoldable pub read_table : ShapeCpInfo → Reader ShapeCpInfo
read_table s = do
  c ← read_s4be
  has_names ← read_u1
  _ ← optional has_names read_indices
  has_key ← read_u1
  _ ← optional has_key read_s4be
  pure (record s { constraint_type_cp_index = some c })

unfoldable pub read_record : ShapeCpInfo → Reader ShapeCpInfo
read_record s = do
  _ ← read_s4be
  _ ← read_s4be
  _ ← read_u1
  _ ← read_s4be
  field_count ← read_s4be
  _ ← vector field_count read_record_field
  has_init ← read_u1
  _ ← optional has_init read_object_attached_function
  _ ← read_indices
  pure s

-- One value of a finite type: its type, its length, and that many bytes.
unfoldable pub read_finite_value : Reader (List ℕ)
read_finite_value = do _ ← read_s4be; length' ← read_s4be; loop length' read_u1

unfoldable pub read_finite : ShapeCpInfo → Reader ShapeCpInfo
read_finite s = do
  _ ← read_s4be
  _ ← read_s8be
  size' ← read_s4be
  _ ← loop size' read_finite_value
  pure s

unfoldable pub read_array : ShapeCpInfo → Reader ShapeCpInfo
read_array s = do
  state' ← read_u1
  size' ← read_s4be
  element ← read_s4be
  pure (record s { state = some state'; size = some size'; element_type_cp_index = some element })

-- The `switch` over the tag. The cases that are not written end at once by `break`.
unfoldable pub read_shape_body : TypeTag → ShapeCpInfo → Reader ShapeCpInfo
read_shape_body type_tag_invokable s = do is_any ← read_u1; read_invokable s is_any
read_shape_body type_tag_map s = read_constraint s
read_shape_body type_tag_error s = read_error s
read_shape_body type_tag_stream s = read_stream s
read_shape_body type_tag_typedesc s = read_constraint s
read_shape_body type_tag_parameterized_type s = read_parameterized s
read_shape_body type_tag_future s = read_constraint s
read_shape_body type_tag_object s = read_object s
read_shape_body type_tag_union s = read_union s
read_shape_body type_tag_tuple s = read_tuple s
read_shape_body type_tag_intersection s = read_intersection s
read_shape_body type_tag_xml s = read_constraint s
read_shape_body type_tag_table s = read_table s
read_shape_body type_tag_record s = read_record s
read_shape_body type_tag_finite s = read_finite s
read_shape_body type_tag_array s = read_array s
read_shape_body type_tag_invalid s = fail invalid_type_tag
read_shape_body (unnamed n) s = fail invalid_type_tag
read_shape_body _ s = pure s

-- The shape before the `switch`: the members that it sets are not set yet.
unfoldable pub new_shape : ℤ → TypeTag → ℤ → ℤ → ℤ → ShapeCpInfo
new_shape length' tag name flag special = record {
  shape_length = length';
  type_tag = tag;
  name_index = name;
  type_flag = flag;
  type_special_flag = special;
  param_count = none;
  has_rest_type = none;
  return_type_index = none;
  rest_type_index = none;
  params = [];
  constraint_type_cp_index = none;
  state = none;
  size = none;
  element_type_cp_index = none;
}

-- `typeFlag` is an `int32_t` that takes the value of `readS8be`.
unfoldable pub read_shape : Reader ShapeCpInfo
read_shape = do
  length' ← read_s4be
  tag ← read_u1
  name ← read_s4be
  flag ← read_s8be
  special ← read_s4be
  read_shape_body (to_type_tag tag)
      (new_shape length' (to_type_tag tag) name (narrow32 flag) special)
