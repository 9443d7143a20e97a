-- ===== src/Bir/Types.antt =====
-- compiler/bir/Types.cpp: types and what the code asks of them.
use nballerina_cpp.Base.{ℕ, Bool, true, false, List, ℤ, pos}
use nballerina_cpp.Bir.TypeTag.{
  TypeTag, type_tag_invalid, type_tag_int, type_tag_byte, type_tag_float, type_tag_string,
  type_tag_boolean, type_tag_nil, type_tag_anydata, type_tag_map, type_tag_any, type_tag_array,
  type_tag_union,
}
use Prim.Native.String.{String}
use nballerina_cpp.Run.{bad_variant_access, unreachable, Run, ok, fault}

-- A name from the pool, or one that `getTypeCp` makes from `std::rand()`; nothing reads it.
pub data TypeName : Type 0 where
  named : List ℕ → TypeName
  anonymous : TypeName

pub record ArrayType : Type 0 where
  pub member_type : TypeTag
  pub size : ℤ
  pub state : ℤ

-- `std::variant<ArrayType, MapType>`; a constructor without it leaves a zeroed `ArrayType`.
pub data TypeInfo : Type 0 where
  array_type : ArrayType → TypeInfo
  map_type : TypeTag → TypeInfo

-- The class `Type`.
pub record BalType : Type 0 where
  pub tag : TypeTag
  pub name : TypeName
  pub info : TypeInfo

abbrev no_info : TypeInfo
no_info = array_type (record { member_type = type_tag_invalid; size = pos 0; state = pos 0 })

-- The constructor `Type(TypeTag, std::string)`.
unfoldable pub plain_type : TypeTag → TypeName → BalType
plain_type t n = record { tag = t; name = n; info = no_info }

get_array : TypeInfo → Run TypeTag
get_array (array_type a) = ok a.member_type
get_array (map_type m) = fault bad_variant_access

get_map : TypeInfo → Run TypeTag
get_map (array_type a) = fault bad_variant_access
get_map (map_type m) = ok m

member_type_tag : TypeTag → TypeInfo → Run TypeTag
unfolding get_array get_map
member_type_tag type_tag_array i = get_array i
member_type_tag type_tag_map i = get_map i
member_type_tag _ i = fault unreachable

unfoldable pub get_member_type_tag : BalType → Run TypeTag
unfolding member_type_tag
get_member_type_tag t = member_type_tag t.tag t.info

-- The names are kept as texts.
unfoldable pub get_name_of_type : TypeTag → Run String
get_name_of_type type_tag_int = ok "int"
get_name_of_type type_tag_float = ok "float"
get_name_of_type type_tag_byte = ok "byte"
get_name_of_type type_tag_string = ok "string"
get_name_of_type type_tag_boolean = ok "bool"
get_name_of_type type_tag_any = ok "any"
get_name_of_type type_tag_union = ok "union"
get_name_of_type type_tag_anydata = ok "anydata"
get_name_of_type _ = fault unreachable

mangle_map : Run TypeTag → Run String
mangle_map (ok type_tag_int) = ok "__MI"
mangle_map (ok _) = ok "__M"
mangle_map (fault e) = fault e

mangle : TypeTag → Run TypeTag → Run String
unfolding mangle_map
mangle type_tag_int m = ok "__I"
mangle type_tag_float m = ok "__F"
mangle type_tag_string m = ok "__S"
mangle type_tag_boolean m = ok "__B"
mangle type_tag_array m = ok "__A"
mangle type_tag_any m = ok "__X"
mangle type_tag_nil m = ok "__N"
mangle type_tag_map m = mangle_map m
mangle _ m = fault unreachable

-- The member tag is asked for only under `TYPE_TAG_MAP`.
unfoldable pub type_string_mangle_name : BalType → Run String
unfolding mangle get_member_type_tag
type_string_mangle_name t = mangle t.tag (get_member_type_tag t)

unfoldable pub is_bal_value_type : TypeTag → Bool
is_bal_value_type type_tag_any = true
is_bal_value_type type_tag_union = true
is_bal_value_type type_tag_anydata = true
is_bal_value_type _ = false

unfoldable pub is_box_value_support : TypeTag → Bool
is_box_value_support type_tag_int = true
is_box_value_support type_tag_float = true
is_box_value_support type_tag_boolean = true
is_box_value_support _ = false

-- The process ends at every tag but one.
unfoldable pub check_map_support : TypeTag → Run (Unit {0})
check_map_support type_tag_int = ok tt
check_map_support _ = fault unreachable
