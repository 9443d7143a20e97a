-- ===== src/Reader/Pool/Parts.antt =====
-- compiler/reader/ConstantPool.cpp: the classes that a shape reads and drops.
use nballerina_cpp.Base.{ℕ, List, ℤ}
use nballerina_cpp.Reader.Monad.{Reader, pure, ◌>>=◌, loop, vector}
use nballerina_cpp.Reader.Primitives.{read_u1, read_s4be, read_s8be}

pub record TypeIdSet : Type 0 where
  pub pkg_id_cp_index : ℤ
  pub type_id_name_cp_index : ℤ
  pub is_public_id : ℕ

pub record TypeId : Type 0 where
  pub primary_type_id : List TypeIdSet
  pub secondary_type_id : List TypeIdSet

-- `ObjectField` and `RecordField` have the same members and the same read method.
pub record ObjectField : Type 0 where
  pub name_cp_index : ℤ
  pub flags : ℤ
  pub type_cp_index : ℤ

pub record ObjectAttachedFunction : Type 0 where
  pub name_cp_index : ℤ
  pub flags : ℤ
  pub type_cp_index : ℤ

unfoldable pub read_type_id_set : Reader TypeIdSet
read_type_id_set = do
  pkg ← read_s4be
  name ← read_s4be
  is_public ← read_u1
  pure (record { pkg_id_cp_index = pkg; type_id_name_cp_index = name; is_public_id = is_public })

unfoldable pub read_type_id : Reader TypeId
read_type_id = do
  primary_count ← read_s4be
  primary ← vector primary_count read_type_id_set
  secondary_count ← read_s4be
  secondary ← vector secondary_count read_type_id_set
  pure (record { primary_type_id = primary; secondary_type_id = secondary })

-- `Markdown::read` reserves nothing.
unfoldable pub read_markdown : Reader (List ℤ)
read_markdown = do length' ← read_s4be; loop length' read_s4be

unfoldable pub read_object_field : Reader ObjectField
read_object_field = do
  name ← read_s4be
  flags' ← read_s8be
  _ ← read_markdown
  type' ← read_s4be
  pure (record { name_cp_index = name; flags = flags'; type_cp_index = type' })

unfoldable pub read_record_field : Reader ObjectField
read_record_field = do
  name ← read_s4be
  flags' ← read_s8be
  _ ← read_markdown
  type' ← read_s4be
  pure (record { name_cp_index = name; flags = flags'; type_cp_index = type' })

unfoldable pub read_object_attached_function : Reader ObjectAttachedFunction
read_object_attached_function = do
  name ← read_s4be
  flags' ← read_s8be
  type' ← read_s4be
  pure (record { name_cp_index = name; flags = flags'; type_cp_index = type' })

-- A count and that many pool indices; also `TableFieldNameList::read`.
unfoldable pub read_indices : Reader (List ℤ)
read_indices = do count ← read_s4be; vector count read_s4be
