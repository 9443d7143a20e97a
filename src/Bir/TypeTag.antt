-- ===== src/Bir/TypeTag.antt =====
-- compiler/include/bir/Types.h: the enumeration of type tags.
use nballerina_cpp.Base.{ℕ, zero, suc, List, [], ◌∷◌}

-- `TypeTag(n)` of a byte that is no enumerator is kept as `unnamed n`.
pub data TypeTag : Type 0 where
  type_tag_invalid type_tag_int type_tag_byte type_tag_float type_tag_decimal type_tag_string :
      TypeTag
  type_tag_boolean type_tag_json type_tag_xml type_tag_table type_tag_nil type_tag_anydata : TypeTag
  type_tag_record type_tag_typedesc type_tag_stream type_tag_map type_tag_invokable : TypeTag
  type_tag_any type_tag_endpoint type_tag_array type_tag_union type_tag_intersection : TypeTag
  type_tag_package type_tag_none type_tag_void type_tag_xmlns type_tag_annotation : TypeTag
  type_tag_semantic_error type_tag_error type_tag_iterator type_tag_tuple type_tag_future : TypeTag
  type_tag_finite type_tag_object type_tag_service type_tag_byte_array : TypeTag
  type_tag_function_pointer type_tag_handle type_tag_readonly type_tag_signed32_int : TypeTag
  type_tag_signed16_int type_tag_signed8_int type_tag_unsigned32_int type_tag_unsigned16_int :
      TypeTag
  type_tag_unsigned8_int type_tag_char_string type_tag_xml_element type_tag_xml_pi : TypeTag
  type_tag_xml_comment type_tag_xml_text type_tag_never type_tag_null_set : TypeTag
  type_tag_parameterized_type : TypeTag
  unnamed : ℕ → TypeTag

-- The enumerators in the order of their values, 0 to 52.
enumerators : List TypeTag
enumerators =
    type_tag_invalid ∷ type_tag_int ∷ type_tag_byte ∷ type_tag_float ∷ type_tag_decimal
    ∷ type_tag_string ∷ type_tag_boolean ∷ type_tag_json ∷ type_tag_xml ∷ type_tag_table
    ∷ type_tag_nil ∷ type_tag_anydata ∷ type_tag_record ∷ type_tag_typedesc ∷ type_tag_stream
    ∷ type_tag_map ∷ type_tag_invokable ∷ type_tag_any ∷ type_tag_endpoint ∷ type_tag_array
    ∷ type_tag_union ∷ type_tag_intersection ∷ type_tag_package ∷ type_tag_none ∷ type_tag_void
    ∷ type_tag_xmlns ∷ type_tag_annotation ∷ type_tag_semantic_error ∷ type_tag_error
    ∷ type_tag_iterator ∷ type_tag_tuple ∷ type_tag_future ∷ type_tag_finite ∷ type_tag_object
    ∷ type_tag_service ∷ type_tag_byte_array ∷ type_tag_function_pointer ∷ type_tag_handle
    ∷ type_tag_readonly ∷ type_tag_signed32_int ∷ type_tag_signed16_int ∷ type_tag_signed8_int
    ∷ type_tag_unsigned32_int ∷ type_tag_unsigned16_int ∷ type_tag_unsigned8_int
    ∷ type_tag_char_string ∷ type_tag_xml_element ∷ type_tag_xml_pi ∷ type_tag_xml_comment
    ∷ type_tag_xml_text ∷ type_tag_never ∷ type_tag_null_set ∷ type_tag_parameterized_type ∷ []

tag_at : ℕ → List TypeTag → ℕ → TypeTag
tag_at n [] i = unnamed n
tag_at n (t ∷ ts) zero = t
tag_at n (t ∷ ts) (suc i) = tag_at n ts i

-- The cast `TypeTag(n)`.
unfoldable pub to_type_tag : ℕ → TypeTag
unfolding enumerators tag_at
to_type_tag n = tag_at n enumerators n

-- The value of an enumerator; a number without one stands for itself.
unfoldable pub tag_value : TypeTag → ℕ
tag_value type_tag_invalid = 0
tag_value type_tag_int = 1
tag_value type_tag_byte = 2
tag_value type_tag_float = 3
tag_value type_tag_decimal = 4
tag_value type_tag_string = 5
tag_value type_tag_boolean = 6
tag_value type_tag_json = 7
tag_value type_tag_xml = 8
tag_value type_tag_table = 9
tag_value type_tag_nil = 10
tag_value type_tag_anydata = 11
tag_value type_tag_record = 12
tag_value type_tag_typedesc = 13
tag_value type_tag_stream = 14
tag_value type_tag_map = 15
tag_value type_tag_invokable = 16
tag_value type_tag_any = 17
tag_value type_tag_endpoint = 18
tag_value type_tag_array = 19
tag_value type_tag_union = 20
tag_value type_tag_intersection = 21
tag_value type_tag_package = 22
tag_value type_tag_none = 23
tag_value type_tag_void = 24
tag_value type_tag_xmlns = 25
tag_value type_tag_annotation = 26
tag_value type_tag_semantic_error = 27
tag_value type_tag_error = 28
tag_value type_tag_iterator = 29
tag_value type_tag_tuple = 30
tag_value type_tag_future = 31
tag_value type_tag_finite = 32
tag_value type_tag_object = 33
tag_value type_tag_service = 34
tag_value type_tag_byte_array = 35
tag_value type_tag_function_pointer = 36
tag_value type_tag_handle = 37
tag_value type_tag_readonly = 38
tag_value type_tag_signed32_int = 39
tag_value type_tag_signed16_int = 40
tag_value type_tag_signed8_int = 41
tag_value type_tag_unsigned32_int = 42
tag_value type_tag_unsigned16_int = 43
tag_value type_tag_unsigned8_int = 44
tag_value type_tag_char_string = 45
tag_value type_tag_xml_element = 46
tag_value type_tag_xml_pi = 47
tag_value type_tag_xml_comment = 48
tag_value type_tag_xml_text = 49
tag_value type_tag_never = 50
tag_value type_tag_null_set = 51
tag_value type_tag_parameterized_type = 52
tag_value (unnamed n) = n
