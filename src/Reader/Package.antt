-- ===== src/Reader/Package.antt =====
-- compiler/reader/BIRReadPackage.cpp, and `deserialize` of BIRFileReader.cpp.
use nballerina_cpp.Base.{
  ℕ, ◌+◌, ◌-◌, ◌*◌, ◌^◌, true, false, Option, none, some, List, [], ℤ, pos, negsuc, int32,
}
use nballerina_cpp.Bir.Kinds.{to_var_kind}
use nballerina_cpp.Bir.Program.{Variable, BirPackage}
use nballerina_cpp.Run.{Run, ok, fault}
use nballerina_cpp.Reader.Monad.{
  Reader, pure, ◌>>=◌, ◌>>◌, lift, rounds, reserve, loop, vector, iterate,
}
use nballerina_cpp.Reader.Primitives.{read_u1, read_s4be, read_s8be, ignore}
use nballerina_cpp.Reader.Pool.Entry.{ConstantPoolEntry, package_cp_info}
use nballerina_cpp.Reader.Pool.Set.{ConstantPoolSet, read_pool}
use nballerina_cpp.Reader.Pool.Lookup.{get_entry}
use nballerina_cpp.Reader.Stream.{Stream, good, bad}
use nballerina_cpp.Reader.Insns.{string_at}
use nballerina_cpp.Reader.Function.{type_at, read_function}

-- `importCount * 12` as an `int32_t`.
unfoldable pub import_size : ℤ → ℤ
import_size (pos n) = int32 (n * 12)
import_size (negsuc n) = int32 (12 * 2 ^ 32 - (n + 1) * 12)

unfoldable pub read_constant : Reader (Unit {0})
read_constant = do
  _ ← read_s4be
  _ ← read_s8be
  _ ← read_u1
  ignore (pos 20)
  markdown_length ← read_s4be
  ignore markdown_length
  _ ← read_s4be
  value_length ← read_s8be
  ignore value_length

unfoldable pub read_type_definition : Reader (Unit {0})
read_type_definition = do
  ignore (pos 20)
  _ ← read_s4be
  _ ← read_s8be
  _ ← read_u1
  _ ← read_u1
  markdown_length ← read_s4be
  ignore markdown_length
  annotations_length ← read_s8be
  ignore annotations_length
  _ ← read_s4be
  pure tt

abbrev pub empty_package : BirPackage
empty_package = record {
  org = [];
  name = [];
  version = [];
  source_file_name = [];
  global_vars = [];
  functions = [];
}

module _ (cp : ConstantPoolSet) where
  unfoldable pub read_global_var : Reader Variable
  read_global_var = do
    kind' ← read_u1
    name_index ← read_s4be
    _ ← read_s8be
    _ ← read_u1
    doc_length ← read_s4be
    ignore doc_length
    type_index ← read_s4be
    type' ← type_at cp type_index
    name' ← string_at cp name_index
    pure (record { type_of = type'; name = name'; kind = to_var_kind kind' })

  -- The functions attached to a type are read and dropped, and so are the referenced types.
  unfoldable pub read_type_body : BirPackage → Reader BirPackage
  read_type_body p = do
    attached_count ← read_s4be
    p' ← iterate (rounds attached_count) (read_function cp true) p
    referenced_count ← read_s4be
    _ ← loop referenced_count read_s4be
    pure p'

  -- `readModule` on the entry of its index; an entry of another kind leaves the names empty.
  unfoldable pub name_package : ConstantPoolEntry → Reader BirPackage
  name_package (package_cp_info e) = do
    org' ← string_at cp e.org_index
    name' ← string_at cp e.name_index
    version' ← string_at cp e.version_index
    pure (record empty_package { org = org'; name = name'; version = version' })
  name_package _ = pure empty_package

  unfoldable pub read_module : Reader BirPackage
  read_module = do
    id_index ← read_s4be
    entry ← lift (get_entry cp id_index)
    named' ← name_package entry
    import_count ← read_s4be
    ignore (import_size import_count)
    const_count ← read_s4be
    _ ← loop const_count read_constant
    definition_count ← read_s4be
    _ ← loop definition_count read_type_definition
    global_count ← read_s4be
    globals ← vector global_count read_global_var
    bodies_count ← read_s4be
    p ← iterate (rounds bodies_count) read_type_body (record named' { global_vars = globals })
    function_count ← read_s4be
    reserve function_count
    iterate (rounds function_count) (read_function cp false) p

-- The file's bytes, or nothing where it could not be opened.
unfoldable pub open_file : Option (List ℕ) → Stream
open_file none = bad
open_file (some bytes) = good bytes

unfoldable pub read_file : Reader BirPackage
read_file = do cp ← read_pool; read_module cp

unfoldable pub package_of : Run (BirPackage × Stream) → Run BirPackage
package_of (ok (p, s)) = ok p
package_of (fault e) = fault e

unfoldable pub deserialize : Option (List ℕ) → Run BirPackage
unfolding read_file package_of open_file
deserialize file = package_of (read_file (open_file file))
