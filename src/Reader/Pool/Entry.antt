-- ===== src/Reader/Pool/Entry.antt =====
-- compiler/include/reader/ConstantPool.h: the entries of the constant pool.
use nballerina_cpp.Base.{ℕ, Option, List, ℤ}
use nballerina_cpp.Bir.TypeTag.{TypeTag}

-- A member that only some reads set is `none` until then; it holds no determined value.
pub record ShapeCpInfo : Type 0 where
  pub shape_length : ℤ
  pub type_tag : TypeTag
  pub name_index : ℤ
  pub type_flag : ℤ
  pub type_special_flag : ℤ
  pub param_count : Option ℤ
  pub has_rest_type : Option ℕ
  pub return_type_index : Option ℤ
  pub rest_type_index : Option ℤ
  pub params : List ℤ
  pub constraint_type_cp_index : Option ℤ
  pub state : Option ℕ
  pub size : Option ℤ
  pub element_type_cp_index : Option ℤ

pub record PackageCpInfo : Type 0 where
  pub org_index : ℤ
  pub name_index : ℤ
  pub version_index : ℤ

-- The classes below `ConstantPoolEntry`, one constructor each; the tag is the constructor. A float
-- is the pattern of its 64 bits.
pub data ConstantPoolEntry : Type 0 where
  integer_cp_info : ℤ → ConstantPoolEntry
  float_cp_info : ℕ → ConstantPoolEntry
  boolean_cp_info : ℕ → ConstantPoolEntry
  string_cp_info : List ℕ → ConstantPoolEntry
  package_cp_info : PackageCpInfo → ConstantPoolEntry
  byte_cp_info : ℤ → ConstantPoolEntry
  shape_cp_info : ShapeCpInfo → ConstantPoolEntry
