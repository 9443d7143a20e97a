-- ===== src/Reader/Pool/SimpleWire.antt =====
-- The format of the bodies of shapes with a fixed number of parts, against the cases
-- of `ShapeCpInfo::read`.
use nballerina_cpp.Base.{ℕ, Option, some, List, [], ◌∷◌, ◌++◌, map, concat_map, int32}
use nballerina_cpp.Reader.Wire.{
  to_be, Parses, Parses-bind, Parses-last, Parses-read_u1, Parses-read_s4be, Counted, count,
  Parses-loop, flag, encode_optional, value_optional, Parses-optional,
}
use nballerina_cpp.Reader.Pool.Entry.{ShapeCpInfo}
use nballerina_cpp.Reader.Pool.Shape.{
  read_invokable_type, read_constraint, read_error, read_stream, read_parameterized, read_tuple,
  read_intersection, read_table, read_array,
}
use nballerina_cpp.Reader.Pool.PartsWire.{
  TypeIdWire, encode_type_id, Parses-type_id, encode_indices, Parses-indices,
}

pub record InvokableWire : Type 0 where
  pub params : Counted ℕ
  pub rest : Option ℕ
  pub return_index : ℕ

unfoldable pub encode_invokable_type : InvokableWire → List ℕ
encode_invokable_type w =
    to_be 4 (count w.params)
    ++ (concat_map (to_be 4) w.params.items
        ++ ((flag w.rest ∷ []) ++ (encode_optional (to_be 4) w.rest ++ (to_be 4 w.return_index))))

-- What the case sets.
unfoldable pub set_invokable_type : InvokableWire → ShapeCpInfo → ShapeCpInfo
set_invokable_type w s = record s {
  param_count = some (int32 (count w.params));
  params = map int32 w.params.items;
  has_rest_type = some (flag w.rest);
  rest_type_index = value_optional int32 w.rest;
  return_type_index = some (int32 w.return_index);
}

pub Parses-invokable_type :
    (w : InvokableWire) (s : ShapeCpInfo)
    → Parses (read_invokable_type s) (encode_invokable_type w) (set_invokable_type w s)
unfolding read_invokable_type encode_invokable_type set_invokable_type
Parses-invokable_type w s = Parses-bind _ (Parses-read_s4be _) (
    Parses-bind _ (Parses-loop _ _ _ w.params Parses-read_s4be) (
      Parses-bind _ (Parses-read_u1 _) (
        Parses-bind _ (Parses-optional _ _ _ w.rest Parses-read_s4be)
          (Parses-last _ (Parses-read_s4be _)))))

unfoldable pub encode_constraint : ℕ → List ℕ
encode_constraint w = to_be 4 w

-- What the case sets.
unfoldable pub set_constraint : ℕ → ShapeCpInfo → ShapeCpInfo
set_constraint w s = record s { constraint_type_cp_index = some (int32 w) }

pub Parses-constraint :
    (w : ℕ) (s : ShapeCpInfo)
    → Parses (read_constraint s) (encode_constraint w) (set_constraint w s)
unfolding read_constraint encode_constraint set_constraint
Parses-constraint w s = Parses-last _ (Parses-read_s4be _)

pub record ErrorWire : Type 0 where
  pub pkg : ℕ
  pub name : ℕ
  pub detail : ℕ
  pub ids : TypeIdWire

unfoldable pub encode_error : ErrorWire → List ℕ
encode_error w = to_be 4 w.pkg ++ (to_be 4 w.name ++ (to_be 4 w.detail ++ (encode_type_id w.ids)))

pub Parses-error : (w : ErrorWire) (s : ShapeCpInfo) → Parses (read_error s) (encode_error w) s
unfolding read_error encode_error
Parses-error w s = Parses-bind _ (Parses-read_s4be _) (
    Parses-bind _ (Parses-read_s4be _)
      (Parses-bind _ (Parses-read_s4be _) (Parses-last _ (Parses-type_id _))))

pub record StreamWire : Type 0 where
  pub constraint : ℕ
  pub error_type : Option ℕ

unfoldable pub encode_stream : StreamWire → List ℕ
encode_stream w =
    to_be 4 w.constraint ++ ((flag w.error_type ∷ []) ++ (encode_optional (to_be 4) w.error_type))

-- What the case sets.
unfoldable pub set_stream : StreamWire → ShapeCpInfo → ShapeCpInfo
set_stream w s = record s { constraint_type_cp_index = some (int32 w.constraint) }

pub Parses-stream :
    (w : StreamWire) (s : ShapeCpInfo) → Parses (read_stream s) (encode_stream w) (set_stream w s)
unfolding read_stream encode_stream set_stream
Parses-stream w s = Parses-bind _ (Parses-read_s4be _) (
    Parses-bind _ (Parses-read_u1 _)
      (Parses-last _ (Parses-optional _ _ _ w.error_type Parses-read_s4be)))

pub record ParameterizedWire : Type 0 where
  pub value_type : ℕ
  pub param_index : ℕ

unfoldable pub encode_parameterized : ParameterizedWire → List ℕ
encode_parameterized w = to_be 4 w.value_type ++ (to_be 4 w.param_index)

pub Parses-parameterized :
    (w : ParameterizedWire) (s : ShapeCpInfo)
    → Parses (read_parameterized s) (encode_parameterized w) s
unfolding read_parameterized encode_parameterized
Parses-parameterized w s = Parses-bind _ (Parses-read_s4be _) (Parses-last _ (Parses-read_s4be _))

pub record TupleWire : Type 0 where
  pub members : Counted ℕ
  pub rest : Option ℕ

unfoldable pub encode_tuple : TupleWire → List ℕ
encode_tuple w =
    encode_indices w.members ++ ((flag w.rest ∷ []) ++ (encode_optional (to_be 4) w.rest))

-- What the case sets.
unfoldable pub set_tuple : TupleWire → ShapeCpInfo → ShapeCpInfo
set_tuple w s = record s { has_rest_type = some (flag w.rest) }

pub Parses-tuple :
    (w : TupleWire) (s : ShapeCpInfo) → Parses (read_tuple s) (encode_tuple w) (set_tuple w s)
unfolding read_tuple encode_tuple set_tuple
Parses-tuple w s = Parses-bind _ (Parses-indices _) (
    Parses-bind _ (Parses-read_u1 _)
      (Parses-last _ (Parses-optional _ _ _ w.rest Parses-read_s4be)))

pub record IntersectionWire : Type 0 where
  pub constituents : Counted ℕ
  pub effective : ℕ

unfoldable pub encode_intersection : IntersectionWire → List ℕ
encode_intersection w = encode_indices w.constituents ++ (to_be 4 w.effective)

pub Parses-intersection :
    (w : IntersectionWire) (s : ShapeCpInfo)
    → Parses (read_intersection s) (encode_intersection w) s
unfolding read_intersection encode_intersection
Parses-intersection w s = Parses-bind _ (Parses-indices _) (Parses-last _ (Parses-read_s4be _))

pub record TableWire : Type 0 where
  pub constraint : ℕ
  pub field_names : Option (Counted ℕ)
  pub key_type : Option ℕ

unfoldable pub encode_table : TableWire → List ℕ
encode_table w =
    to_be 4 w.constraint
    ++ ((flag w.field_names ∷ [])
        ++ (encode_optional encode_indices w.field_names
            ++ ((flag w.key_type ∷ []) ++ (encode_optional (to_be 4) w.key_type))))

-- What the case sets.
unfoldable pub set_table : TableWire → ShapeCpInfo → ShapeCpInfo
set_table w s = record s { constraint_type_cp_index = some (int32 w.constraint) }

pub Parses-table :
    (w : TableWire) (s : ShapeCpInfo) → Parses (read_table s) (encode_table w) (set_table w s)
unfolding read_table encode_table set_table
Parses-table w s = Parses-bind _ (Parses-read_s4be _) (
    Parses-bind _ (Parses-read_u1 _) (
      Parses-bind _ (Parses-optional _ _ _ w.field_names Parses-indices) (
        Parses-bind _ (Parses-read_u1 _)
          (Parses-last _ (Parses-optional _ _ _ w.key_type Parses-read_s4be)))))

pub record ArrayWire : Type 0 where
  pub array_state : ℕ
  pub array_size : ℕ
  pub element : ℕ

unfoldable pub encode_array : ArrayWire → List ℕ
encode_array w = (w.array_state ∷ []) ++ (to_be 4 w.array_size ++ (to_be 4 w.element))

-- What the case sets.
unfoldable pub set_array : ArrayWire → ShapeCpInfo → ShapeCpInfo
set_array w s = record s {
  state = some w.array_state;
  size = some (int32 w.array_size);
  element_type_cp_index = some (int32 w.element);
}

pub Parses-array :
    (w : ArrayWire) (s : ShapeCpInfo) → Parses (read_array s) (encode_array w) (set_array w s)
unfolding read_array encode_array set_array
Parses-array w s =
    Parses-bind _ (Parses-read_u1 _)
      (Parses-bind _ (Parses-read_s4be _) (Parses-last _ (Parses-read_s4be _)))
