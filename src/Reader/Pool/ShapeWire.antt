-- ===== src/Reader/Pool/ShapeWire.antt =====
-- The format of a shape, with one case for each type tag, against `ShapeCpInfo::read`.
use nballerina_cpp.Base.{
  ℕ, ◌≡◌, refl, Bool, true, false, List, [], ◌∷◌, ◌++◌, arith, int32, narrow32-int64,
}
use nballerina_cpp.Bir.TypeTag.{
  TypeTag, type_tag_invalid, type_tag_xml, type_tag_table, type_tag_nil, type_tag_record,
  type_tag_typedesc, type_tag_stream, type_tag_map, type_tag_invokable, type_tag_array,
  type_tag_union, type_tag_intersection, type_tag_error, type_tag_tuple, type_tag_future,
  type_tag_finite, type_tag_object, type_tag_parameterized_type, unnamed, to_type_tag,
}
use nballerina_cpp.Reader.Monad.{pure}
use nballerina_cpp.Reader.Wire.{
  to_be, Parses, Parses-bind, Parses-pure, Parses-read_u1, Parses-read_s4be, Parses-read_s8be,
}
use nballerina_cpp.Reader.Pool.Entry.{ShapeCpInfo}
use nballerina_cpp.Reader.Pool.Shape.{read_invokable, read_shape_body, new_shape, read_shape}
use nballerina_cpp.Reader.Pool.SimpleWire.{
  InvokableWire, encode_invokable_type, set_invokable_type, Parses-invokable_type,
  encode_constraint, set_constraint, Parses-constraint, ErrorWire, encode_error, Parses-error,
  StreamWire, encode_stream, set_stream, Parses-stream, ParameterizedWire, encode_parameterized,
  Parses-parameterized, TupleWire, encode_tuple, set_tuple, Parses-tuple, IntersectionWire,
  encode_intersection, Parses-intersection, TableWire, encode_table, set_table, Parses-table,
  ArrayWire, encode_array, set_array, Parses-array,
}
use nballerina_cpp.Reader.Pool.NestedWire.{
  ObjectWire, encode_object, Parses-object, RecordWire, encode_record, Parses-record, UnionWire,
  encode_union, Parses-union, FiniteWire, encode_finite, Parses-finite,
}

-- The tags whose shapes have no body.
unfoldable pub has_no_body : TypeTag → Bool
has_no_body type_tag_invokable = false
has_no_body type_tag_map = false
has_no_body type_tag_error = false
has_no_body type_tag_stream = false
has_no_body type_tag_typedesc = false
has_no_body type_tag_parameterized_type = false
has_no_body type_tag_future = false
has_no_body type_tag_object = false
has_no_body type_tag_union = false
has_no_body type_tag_tuple = false
has_no_body type_tag_intersection = false
has_no_body type_tag_xml = false
has_no_body type_tag_table = false
has_no_body type_tag_record = false
has_no_body type_tag_finite = false
has_no_body type_tag_array = false
has_no_body type_tag_invalid = false
has_no_body (unnamed n) = false
has_no_body _ = true

-- The body of a shape, by its type tag.
pub data BodyWire : Type 0 where
  no_body : (tag : ℕ) → has_no_body (to_type_tag tag) ≡ true → BodyWire
  any_function : BodyWire
  invokable_body : InvokableWire → BodyWire
  map_body : ℕ → BodyWire
  typedesc_body : ℕ → BodyWire
  future_body : ℕ → BodyWire
  xml_body : ℕ → BodyWire
  error_body : ErrorWire → BodyWire
  stream_body : StreamWire → BodyWire
  parameterized_body : ParameterizedWire → BodyWire
  object_body : ObjectWire → BodyWire
  union_body : UnionWire → BodyWire
  tuple_body : TupleWire → BodyWire
  intersection_body : IntersectionWire → BodyWire
  table_body : TableWire → BodyWire
  record_body : RecordWire → BodyWire
  finite_body : FiniteWire → BodyWire
  array_body : ArrayWire → BodyWire

unfoldable pub tag_number : BodyWire → ℕ
tag_number (no_body tag h) = tag
tag_number any_function = 16
tag_number (invokable_body w) = 16
tag_number (map_body c) = 15
tag_number (typedesc_body c) = 13
tag_number (future_body c) = 31
tag_number (xml_body c) = 8
tag_number (error_body w) = 28
tag_number (stream_body w) = 14
tag_number (parameterized_body w) = 52
tag_number (object_body w) = 33
tag_number (union_body w) = 20
tag_number (tuple_body w) = 30
tag_number (intersection_body w) = 21
tag_number (table_body w) = 9
tag_number (record_body w) = 12
tag_number (finite_body w) = 32
tag_number (array_body w) = 19

unfoldable pub encode_body : BodyWire → List ℕ
encode_body (no_body tag h) = []
encode_body any_function = 1 ∷ []
encode_body (invokable_body w) = (0 ∷ []) ++ encode_invokable_type w
encode_body (map_body c) = encode_constraint c
encode_body (typedesc_body c) = encode_constraint c
encode_body (future_body c) = encode_constraint c
encode_body (xml_body c) = encode_constraint c
encode_body (error_body w) = encode_error w
encode_body (stream_body w) = encode_stream w
encode_body (parameterized_body w) = encode_parameterized w
encode_body (object_body w) = encode_object w
encode_body (union_body w) = encode_union w
encode_body (tuple_body w) = encode_tuple w
encode_body (intersection_body w) = encode_intersection w
encode_body (table_body w) = encode_table w
encode_body (record_body w) = encode_record w
encode_body (finite_body w) = encode_finite w
encode_body (array_body w) = encode_array w

-- The members that the body of a shape sets.
unfoldable pub set_body : BodyWire → ShapeCpInfo → ShapeCpInfo
set_body (invokable_body w) s = set_invokable_type w s
set_body (map_body c) s = set_constraint c s
set_body (typedesc_body c) s = set_constraint c s
set_body (future_body c) s = set_constraint c s
set_body (xml_body c) s = set_constraint c s
set_body (stream_body w) s = set_stream w s
set_body (tuple_body w) s = set_tuple w s
set_body (table_body w) s = set_table w s
set_body (array_body w) s = set_array w s
set_body _ s = s

read_shape_body-has_no_body :
    (t : TypeTag) (s : ShapeCpInfo) → has_no_body t ≡ true → read_shape_body t s ≡ pure s
unfolding has_no_body read_shape_body
read_shape_body-has_no_body type_tag_nil s h = refl
read_shape_body-has_no_body _ s h = ground arith

Parses-body :
    (b : BodyWire) (s : ShapeCpInfo)
    → Parses (read_shape_body (to_type_tag (tag_number b)) s) (encode_body b) (set_body b s)
unfolding tag_number to_type_tag read_shape_body read_invokable encode_body set_body
Parses-body (no_body tag h) s = rw (read_shape_body-has_no_body (to_type_tag tag) s h) Parses-pure
Parses-body any_function s = Parses-bind _ (Parses-read_u1 1) Parses-pure
Parses-body (invokable_body w) s = Parses-bind _ (Parses-read_u1 0) (Parses-invokable_type w s)
Parses-body (map_body c) s = Parses-constraint c s
Parses-body (typedesc_body c) s = Parses-constraint c s
Parses-body (future_body c) s = Parses-constraint c s
Parses-body (xml_body c) s = Parses-constraint c s
Parses-body (error_body w) s = Parses-error w s
Parses-body (stream_body w) s = Parses-stream w s
Parses-body (parameterized_body w) s = Parses-parameterized w s
Parses-body (object_body w) s = Parses-object w s
Parses-body (union_body w) s = Parses-union w s
Parses-body (tuple_body w) s = Parses-tuple w s
Parses-body (intersection_body w) s = Parses-intersection w s
Parses-body (table_body w) s = Parses-table w s
Parses-body (record_body w) s = Parses-record w s
Parses-body (finite_body w) s = Parses-finite w s
Parses-body (array_body w) s = Parses-array w s

pub record ShapeWire : Type 0 where
  pub shape_length : ℕ
  pub name : ℕ
  pub type_flag : ℕ
  pub type_special_flag : ℕ
  pub body : BodyWire

unfoldable pub encode_shape : ShapeWire → List ℕ
encode_shape w =
    to_be 4 w.shape_length
    ++ ((tag_number w.body ∷ [])
        ++ (to_be 4 w.name
            ++ (to_be 8 w.type_flag ++ (to_be 4 w.type_special_flag ++ encode_body w.body))))

-- The flags are written as 64 bits; the low 32 of them are kept.
unfoldable pub value_shape : ShapeWire → ShapeCpInfo
value_shape w = set_body w.body (
    new_shape (int32 w.shape_length) (to_type_tag (tag_number w.body)) (int32 w.name)
      (int32 w.type_flag) (int32 w.type_special_flag))

pub Parses-shape : (w : ShapeWire) → Parses read_shape (encode_shape w) (value_shape w)
unfolding read_shape encode_shape value_shape
Parses-shape w = Parses-bind _ (Parses-read_s4be _) (
    Parses-bind _ (Parses-read_u1 _) (
      Parses-bind _ (Parses-read_s4be _) (
        Parses-bind _ (Parses-read_s8be _)
          (Parses-bind _ (Parses-read_s4be _) (rw narrow32-int64 (Parses-body w.body _))))))
