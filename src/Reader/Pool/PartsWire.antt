-- ===== src/Reader/Pool/PartsWire.antt =====
-- The format of a constant pool entry as data: what a writer puts into the file, as numbers that
-- are written big-endian, with the bytes of each part.
use nballerina_cpp.Base.{ℕ, List, [], ◌∷◌, ◌++◌, map, concat_map, ℤ, int32, int64}
use nballerina_cpp.Reader.Wire.{
  to_be, Parses, Parses-bind, Parses-last, Parses-read_u1, Parses-read_s4be, Parses-read_s8be,
  Counted, count, Parses-loop, Parses-vector,
}
use nballerina_cpp.Reader.Pool.Parts.{
  TypeIdSet, TypeId, ObjectField, ObjectAttachedFunction, read_type_id_set, read_type_id,
  read_markdown, read_object_field, read_record_field, read_object_attached_function, read_indices,
}

pub record TypeIdSetWire : Type 0 where
  pub pkg : ℕ
  pub name : ℕ
  pub is_public : ℕ

unfoldable pub encode_type_id_set : TypeIdSetWire → List ℕ
encode_type_id_set w = to_be 4 w.pkg ++ (to_be 4 w.name ++ ((w.is_public ∷ [])))

unfoldable pub value_type_id_set : TypeIdSetWire → TypeIdSet
value_type_id_set w = record {
  pkg_id_cp_index = int32 w.pkg;
  type_id_name_cp_index = int32 w.name;
  is_public_id = w.is_public;
}

pub Parses-type_id_set :
    (w : TypeIdSetWire) → Parses read_type_id_set (encode_type_id_set w) (value_type_id_set w)
unfolding read_type_id_set encode_type_id_set value_type_id_set
Parses-type_id_set w =
    Parses-bind _ (Parses-read_s4be _)
      (Parses-bind _ (Parses-read_s4be _) (Parses-last _ (Parses-read_u1 _)))

pub record TypeIdWire : Type 0 where
  pub primary : Counted TypeIdSetWire
  pub secondary : Counted TypeIdSetWire

unfoldable pub encode_type_id : TypeIdWire → List ℕ
encode_type_id w =
    to_be 4 (count w.primary)
    ++ (concat_map encode_type_id_set w.primary.items
        ++ (to_be 4 (count w.secondary) ++ (concat_map encode_type_id_set w.secondary.items)))

unfoldable pub value_type_id : TypeIdWire → TypeId
value_type_id w = record {
  primary_type_id = map value_type_id_set w.primary.items;
  secondary_type_id = map value_type_id_set w.secondary.items;
}

pub Parses-type_id : (w : TypeIdWire) → Parses read_type_id (encode_type_id w) (value_type_id w)
unfolding read_type_id encode_type_id value_type_id
Parses-type_id w = Parses-bind _ (Parses-read_s4be _) (
    Parses-bind _ (Parses-vector _ _ _ w.primary Parses-type_id_set) (
      Parses-bind _ (Parses-read_s4be _)
        (Parses-last _ (Parses-vector _ _ _ w.secondary Parses-type_id_set))))

-- A sequence of pool indices behind its count.
unfoldable pub encode_indices : Counted ℕ → List ℕ
encode_indices w = to_be 4 (count w) ++ (concat_map (to_be 4) w.items)

unfoldable pub value_indices : Counted ℕ → List ℤ
value_indices w = map int32 w.items

pub Parses-indices : (w : Counted ℕ) → Parses read_indices (encode_indices w) (value_indices w)
unfolding read_indices encode_indices value_indices
Parses-indices w = Parses-bind _ (Parses-read_s4be _) (Parses-vector _ _ _ w Parses-read_s4be)

unfoldable pub encode_markdown : Counted ℕ → List ℕ
encode_markdown w = to_be 4 (count w) ++ (concat_map (to_be 4) w.items)

unfoldable pub value_markdown : Counted ℕ → List ℤ
value_markdown w = map int32 w.items

pub Parses-markdown : (w : Counted ℕ) → Parses read_markdown (encode_markdown w) (value_markdown w)
unfolding read_markdown encode_markdown value_markdown
Parses-markdown w = Parses-bind _ (Parses-read_s4be _) (Parses-loop _ _ _ w Parses-read_s4be)

pub record FieldWire : Type 0 where
  pub name : ℕ
  pub flags : ℕ
  pub doc : Counted ℕ
  pub type_index : ℕ

unfoldable pub encode_object_field : FieldWire → List ℕ
encode_object_field w =
    to_be 4 w.name ++ (to_be 8 w.flags ++ (encode_markdown w.doc ++ (to_be 4 w.type_index)))

unfoldable pub value_object_field : FieldWire → ObjectField
value_object_field w = record {
  name_cp_index = int32 w.name;
  flags = int64 w.flags;
  type_cp_index = int32 w.type_index;
}

pub Parses-object_field :
    (w : FieldWire) → Parses read_object_field (encode_object_field w) (value_object_field w)
unfolding read_object_field encode_object_field value_object_field
Parses-object_field w = Parses-bind _ (Parses-read_s4be _) (
    Parses-bind _ (Parses-read_s8be _)
      (Parses-bind _ (Parses-markdown _) (Parses-last _ (Parses-read_s4be _))))

pub Parses-record_field :
    (w : FieldWire) → Parses read_record_field (encode_object_field w) (value_object_field w)
unfolding read_record_field encode_object_field value_object_field
Parses-record_field w = Parses-bind _ (Parses-read_s4be _) (
    Parses-bind _ (Parses-read_s8be _)
      (Parses-bind _ (Parses-markdown _) (Parses-last _ (Parses-read_s4be _))))

pub record AttachedWire : Type 0 where
  pub name : ℕ
  pub flags : ℕ
  pub type_index : ℕ

unfoldable pub encode_object_attached_function : AttachedWire → List ℕ
encode_object_attached_function w = to_be 4 w.name ++ (to_be 8 w.flags ++ (to_be 4 w.type_index))

unfoldable pub value_object_attached_function : AttachedWire → ObjectAttachedFunction
value_object_attached_function w = record {
  name_cp_index = int32 w.name;
  flags = int64 w.flags;
  type_cp_index = int32 w.type_index;
}

pub Parses-object_attached_function :
    (w : AttachedWire)
    → Parses read_object_attached_function
        (encode_object_attached_function w)
        (value_object_attached_function w)
unfolding read_object_attached_function encode_object_attached_function
    value_object_attached_function
Parses-object_attached_function w =
    Parses-bind _ (Parses-read_s4be _)
      (Parses-bind _ (Parses-read_s8be _) (Parses-last _ (Parses-read_s4be _)))
