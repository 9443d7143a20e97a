-- ===== src/Reader/Pool/NestedWire.antt =====
-- The format of the bodies of shapes with nested parts: objects, records, unions, finite types.
use nballerina_cpp.Base.{ℕ, Option, List, [], ◌∷◌, ◌++◌, map, concat_map, ℤ, int32}
use nballerina_cpp.Reader.Wire.{
  to_be, Parses, Parses-bind, Parses-last, Parses-read_u1, Parses-read_s4be, Parses-read_s8be,
  Counted, count, Parses-loop, Parses-vector, flag, encode_optional, Parses-optional,
}
use nballerina_cpp.Reader.Pool.Entry.{ShapeCpInfo}
use nballerina_cpp.Reader.Pool.Shape.{
  read_object, read_name_pair, read_enum, read_union, read_record, read_finite_value, read_finite,
}
use nballerina_cpp.Reader.Pool.PartsWire.{
  TypeIdWire, encode_type_id, Parses-type_id, encode_indices, value_indices, Parses-indices,
  FieldWire, encode_object_field, Parses-object_field, Parses-record_field, AttachedWire,
  encode_object_attached_function, Parses-object_attached_function,
}

pub record ObjectWire : Type 0 where
  pub is_object_type : ℕ
  pub pkg : ℕ
  pub name : ℕ
  pub is_abstract : ℕ
  pub is_client : ℕ
  pub fields : Counted FieldWire
  pub generated_init : Option AttachedWire
  pub init : Option AttachedWire
  pub functions : Counted AttachedWire
  pub inclusions : Counted ℕ
  pub ids : TypeIdWire

unfoldable pub encode_object : ObjectWire → List ℕ
encode_object w =
    (w.is_object_type ∷ [])
    ++ (to_be 4 w.pkg
        ++ (to_be 4 w.name
            ++ ((w.is_abstract ∷ [])
                ++ ((w.is_client ∷ [])
                    ++ (to_be 4 (count w.fields)
                        ++ (concat_map encode_object_field w.fields.items
                            ++ ((flag w.generated_init ∷ [])
                                ++ (encode_optional encode_object_attached_function w.generated_init
                                    ++ ((flag w.init ∷ [])
                                        ++ (encode_optional encode_object_attached_function w.init
                                            ++ (to_be 4 (count w.functions)
                                                ++ (concat_map encode_object_attached_function
                                                      w.functions.items
                                                    ++ (encode_indices w.inclusions
                                                        ++ (encode_type_id w.ids))))))))))))))

pub Parses-object : (w : ObjectWire) (s : ShapeCpInfo) → Parses (read_object s) (encode_object w) s
unfolding read_object encode_object
Parses-object w s = Parses-bind _ (Parses-read_u1 _) (
    Parses-bind _ (Parses-read_s4be _) (
      Parses-bind _ (Parses-read_s4be _) (
        Parses-bind _ (Parses-read_u1 _) (
          Parses-bind _ (Parses-read_u1 _) (
            Parses-bind _ (Parses-read_s4be _) (
              Parses-bind _ (Parses-vector _ _ _ w.fields Parses-object_field) (
                Parses-bind _ (Parses-read_u1 _) (
                  Parses-bind _
                    (Parses-optional _ _ _ w.generated_init Parses-object_attached_function)
                    (Parses-bind _ (Parses-read_u1 _) (
                      Parses-bind _ (Parses-optional _ _ _ w.init Parses-object_attached_function) (
                        Parses-bind _ (Parses-read_s4be _) (
                          Parses-bind _
                            (Parses-vector _ _ _ w.functions Parses-object_attached_function)
                            (Parses-bind _ (Parses-indices _)
                              (Parses-last _ (Parses-type_id _)))))))))))))))

pub record RecordWire : Type 0 where
  pub pkg : ℕ
  pub name : ℕ
  pub is_sealed : ℕ
  pub rest_field_type : ℕ
  pub fields : Counted FieldWire
  pub init : Option AttachedWire
  pub inclusions : Counted ℕ

unfoldable pub encode_record : RecordWire → List ℕ
encode_record w =
    to_be 4 w.pkg
    ++ (to_be 4 w.name
        ++ ((w.is_sealed ∷ [])
            ++ (to_be 4 w.rest_field_type
                ++ (to_be 4 (count w.fields)
                    ++ (concat_map encode_object_field w.fields.items
                        ++ ((flag w.init ∷ [])
                            ++ (encode_optional encode_object_attached_function w.init
                                ++ (encode_indices w.inclusions))))))))

pub Parses-record : (w : RecordWire) (s : ShapeCpInfo) → Parses (read_record s) (encode_record w) s
unfolding read_record encode_record
Parses-record w s = Parses-bind _ (Parses-read_s4be _) (
    Parses-bind _ (Parses-read_s4be _) (
      Parses-bind _ (Parses-read_u1 _) (
        Parses-bind _ (Parses-read_s4be _) (
          Parses-bind _ (Parses-read_s4be _) (
            Parses-bind _ (Parses-vector _ _ _ w.fields Parses-record_field) (
              Parses-bind _ (Parses-read_u1 _) (
                Parses-bind _ (Parses-optional _ _ _ w.init Parses-object_attached_function)
                  (Parses-last _ (Parses-indices _)))))))))

pub record NamePairWire : Type 0 where
  pub pkg : ℕ
  pub name : ℕ

unfoldable pub encode_name_pair : NamePairWire → List ℕ
encode_name_pair w = to_be 4 w.pkg ++ (to_be 4 w.name)

unfoldable pub value_name_pair : NamePairWire → ℤ × ℤ
value_name_pair w = (int32 w.pkg, int32 w.name)

pub Parses-name_pair :
    (w : NamePairWire) → Parses read_name_pair (encode_name_pair w) (value_name_pair w)
unfolding read_name_pair encode_name_pair value_name_pair
Parses-name_pair w = Parses-bind _ (Parses-read_s4be _) (Parses-last _ (Parses-read_s4be _))

pub record EnumWire : Type 0 where
  pub pkg : ℕ
  pub name : ℕ
  pub members : Counted ℕ

unfoldable pub encode_enum : EnumWire → List ℕ
encode_enum w = to_be 4 w.pkg ++ (to_be 4 w.name ++ (encode_indices w.members))

unfoldable pub value_enum : EnumWire → ℤ × ℤ × List ℤ
value_enum w = (int32 w.pkg, int32 w.name, value_indices w.members)

pub Parses-enum : (w : EnumWire) → Parses read_enum (encode_enum w) (value_enum w)
unfolding read_enum encode_enum value_enum
Parses-enum w =
    Parses-bind _ (Parses-read_s4be _)
      (Parses-bind _ (Parses-read_s4be _) (Parses-last _ (Parses-indices _)))

pub record UnionWire : Type 0 where
  pub is_cyclic : ℕ
  pub union_name : Option NamePairWire
  pub members : Counted ℕ
  pub original_members : Counted ℕ
  pub enum_part : Option EnumWire

unfoldable pub encode_union : UnionWire → List ℕ
encode_union w =
    (w.is_cyclic ∷ [])
    ++ ((flag w.union_name ∷ [])
        ++ (encode_optional encode_name_pair w.union_name
            ++ (encode_indices w.members
                ++ (encode_indices w.original_members
                    ++ ((flag w.enum_part ∷ []) ++ (encode_optional encode_enum w.enum_part))))))

pub Parses-union : (w : UnionWire) (s : ShapeCpInfo) → Parses (read_union s) (encode_union w) s
unfolding read_union encode_union
Parses-union w s = Parses-bind _ (Parses-read_u1 _) (
    Parses-bind _ (Parses-read_u1 _) (
      Parses-bind _ (Parses-optional _ _ _ w.union_name Parses-name_pair) (
        Parses-bind _ (Parses-indices _) (
          Parses-bind _ (Parses-indices _) (
            Parses-bind _ (Parses-read_u1 _)
              (Parses-last _ (Parses-optional _ _ _ w.enum_part Parses-enum)))))))

pub record FiniteValueWire : Type 0 where
  pub type_index : ℕ
  pub value_bytes : Counted ℕ

unfoldable pub encode_finite_value : FiniteValueWire → List ℕ
encode_finite_value w =
    to_be 4 w.type_index
    ++ (to_be 4 (count w.value_bytes) ++ (concat_map (λ b. b ∷ []) w.value_bytes.items))

unfoldable pub value_finite_value : FiniteValueWire → List ℕ
value_finite_value w = map (λ b. b) w.value_bytes.items

pub Parses-finite_value :
    (w : FiniteValueWire) → Parses read_finite_value (encode_finite_value w) (value_finite_value w)
unfolding read_finite_value encode_finite_value value_finite_value
Parses-finite_value w =
    Parses-bind _ (Parses-read_s4be _)
      (Parses-bind _ (Parses-read_s4be _) (Parses-loop _ _ _ w.value_bytes Parses-read_u1))

pub record FiniteWire : Type 0 where
  pub name : ℕ
  pub flags : ℕ
  pub values : Counted FiniteValueWire

unfoldable pub encode_finite : FiniteWire → List ℕ
encode_finite w =
    to_be 4 w.name
    ++ (to_be 8 w.flags
        ++ (to_be 4 (count w.values) ++ (concat_map encode_finite_value w.values.items)))

pub Parses-finite : (w : FiniteWire) (s : ShapeCpInfo) → Parses (read_finite s) (encode_finite w) s
unfolding read_finite encode_finite
Parses-finite w s = Parses-bind _ (Parses-read_s4be _) (
    Parses-bind _ (Parses-read_s8be _) (
      Parses-bind _ (Parses-read_s4be _)
        (Parses-last _ (Parses-loop _ _ _ w.values Parses-finite_value))))
