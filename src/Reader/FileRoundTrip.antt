-- ===== src/Reader/FileRoundTrip.antt =====
-- `BIRFileReader::deserialize` against the format of a whole file.
use nballerina_cpp.Base.{ℕ, ◌≡◌, ap, some, List, ◌++◌, map}
use nballerina_cpp.Run.{ok}
use nballerina_cpp.Reader.Wire.{Parses, Parses-bind, Counted}
use nballerina_cpp.Reader.Pool.RoundTrip.{
  EntryWire, value_entry, encode_pool, read_pool-encode_pool,
}
use nballerina_cpp.Reader.Pool.Set.{ConstantPoolSet}
use nballerina_cpp.Reader.Package.{open_file, read_file, package_of, deserialize}
use nballerina_cpp.Reader.ModuleWire.{ModuleWire, encode_module, value_module}
use nballerina_cpp.Reader.ModuleRoundTrip.{Parses-module}

-- The pool that a reader has in memory.
abbrev pub pool_of : Counted EntryWire → ConstantPoolSet
pool_of entries = map value_entry entries.items

Parses-file :
    (entries : Counted EntryWire) (w : ModuleWire (pool_of entries))
    → Parses read_file
        (encode_pool entries ++ encode_module (pool_of entries) w)
        (value_module (pool_of entries) w)
unfolding read_file
Parses-file entries w =
    Parses-bind _ (record { run = λ rest. read_pool-encode_pool entries rest })
      (Parses-module (pool_of entries) w)

-- Reading a whole file: where it begins with the encodings of a constant pool and of a module whose
-- references that pool resolves, with counts less than 2 ^ 31, `deserialize` ends normally and returns the package of the module.
-- What follows in the file does not matter.
pub deserialize-encode_module :
    (entries : Counted EntryWire) (w : ModuleWire (pool_of entries)) (rest : List ℕ)
    → deserialize (some ((encode_pool entries ++ encode_module (pool_of entries) w) ++ rest))
      ≡ ok (value_module (pool_of entries) w)
unfolding deserialize open_file package_of
deserialize-encode_module entries w rest = ap package_of ((Parses-file entries w).run rest)
