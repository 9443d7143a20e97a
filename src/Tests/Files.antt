-- ===== src/Tests/Files.antt =====
-- The reader on concrete bytes.
use nballerina_cpp.Base.{
  ℕ, ◌<◌, ◌≡◌, refl, ◌↔◌, none, some, List, [], ◌∷◌, ◌++◌, map, arith, codes, starts_with,
  get_elem?, pos, int32, int64, bits64, narrow32,
}
use nballerina_cpp.Bir.TypeTag.{type_tag_nil, type_tag_invokable}
use nballerina_cpp.Bir.Types.{plain_type}
use nballerina_cpp.Bir.Program.{new_location, BirFunction, BirPackage}
use nballerina_cpp.Run.{Run, ok, fault}
use nballerina_cpp.Reader.Stream.{
  Stream, good, fill, read_raw, be_value_from, be_value, load, swap_endian, read_be,
}
use nballerina_cpp.Reader.Monad.{
  pure, fail, ◌>>=◌, lift, rounds, repeat, reserve, loop, vector, optional, iterate,
}
use nballerina_cpp.Reader.Primitives.{read_u1, read_s4be, read_s8be, skip, ignore}
use nballerina_cpp.Reader.Wire.{Counted}
use nballerina_cpp.Reader.Pool.Entry.{ShapeCpInfo, string_cp_info, byte_cp_info, shape_cp_info}
use nballerina_cpp.Reader.Pool.Set.{ConstantPoolSet, read_pool}
use nballerina_cpp.Reader.Pool.Lookup.{
  entry_at, get_entry, as_string, as_byte, as_shape, determined, get_string_cp, get_byte_cp,
  get_shape, type_name, type_of_shape, get_type_cp, get_param_types, param_rounds, get_rest_type,
  get_invocable_type,
}
use nballerina_cpp.Reader.Pool.ShapeWire.{map_body, union_body}
use nballerina_cpp.Reader.Pool.RoundTrip.{
  EntryWire, string_entry, shape_entry, value_entry, encode_pool, read_pool-encode_pool,
}
use nballerina_cpp.Reader.Insns.{string_at}
use nballerina_cpp.Reader.Function.{
  ignore_function, keep_function, read_params, read_signature_part, read_body_part,
  read_function_head, read_function,
}
use nballerina_cpp.Bir.Kinds.{to_var_kind, is_global}
use nballerina_cpp.Reader.Block.{read_basic_block}
use nballerina_cpp.Reader.OperandWire.{StringRef, GlobalWire, OperandWire}
use nballerina_cpp.Reader.InsnWire.{binary_add, InsnWire, binary_wire, return_wire}
use nballerina_cpp.Reader.BlockRoundTrip.{
  PlacedWire, BlockWire, encode_block, value_block, read_basic_block-encode_block,
}
use nballerina_cpp.Reader.Kept.{IsKept, read_type_body-functions, read_module-IsKept}
use nballerina_cpp.Reader.Pool.Queries.{get_string_cp_iff, get_byte_cp_iff}
use nballerina_cpp.Reader.Package.{import_size, read_type_body, name_package, read_module}

-- A string, a map shape and a union shape, as a writer gives them.
abbrev pool_wire : Counted EntryWire
pool_wire = record {
  items =
      string_entry (record { items = codes "int"; fits = omega arith })
      ∷ shape_entry (record {
        shape_length = 17;
        name = 0;
        type_flag = 0x1_0000_0005;
        type_special_flag = 0;
        body = map_body 2;
      })
      ∷ shape_entry (record {
        shape_length = 40;
        name = 0;
        type_flag = 0;
        type_special_flag = 0;
        body = union_body (record {
          is_cyclic = 0;
          union_name = none;
          members = record { items = 1 ∷ 2 ∷ []; fits = omega arith };
          original_members = record { items = []; fits = omega arith };
          enum_part = none;
        });
      })
      ∷ [];
  fits = omega arith;
}

read_pool-encode_pool_example :
    read_pool (good (encode_pool pool_wire ++ (7 ∷ [])))
    ≡ ok (map value_entry pool_wire.items, good (7 ∷ []))
read_pool-encode_pool_example = read_pool-encode_pool pool_wire (7 ∷ [])

abbrev nil_shape : ShapeCpInfo
nil_shape = record {
  shape_length = pos 13;
  type_tag = type_tag_nil;
  name_index = pos 0;
  type_flag = pos 0;
  type_special_flag = pos 0;
  param_count = none;
  has_rest_type = none;
  return_type_index = none;
  rest_type_index = none;
  params = [];
  constraint_type_cp_index = none;
  state = none;
  size = none;
  element_type_cp_index = none;
}

abbrev function_shape : ShapeCpInfo
function_shape = record nil_shape {
  type_tag = type_tag_invokable;
  param_count = some (pos 0);
  has_rest_type = some 0;
  return_type_index = some (pos 3);
}

abbrev pool : ConstantPoolSet
pool =
    string_cp_info (codes "a.bal")
    ∷ string_cp_info (codes "..<init>")
    ∷ shape_cp_info function_shape
    ∷ shape_cp_info nil_shape
    ∷ string_cp_info (codes "main")
    ∷ byte_cp_info (pos 200)
    ∷ []

-- The bytes of a module with the functions `..<init>` and `main`, both without parameters or blocks.
abbrev module_bytes : List ℕ
module_bytes =
    0 ∷ 0 ∷ 0 ∷ 5 ∷ 0 ∷ 0 ∷ 0 ∷ 0 ∷ 0 ∷ 0 ∷ 0 ∷ 0 ∷ 0 ∷ 0 ∷ 0 ∷ 0 ∷ 0 ∷ 0 ∷ 0 ∷ 0 ∷ 0 ∷ 0 ∷ 0 ∷ 0
    ∷ 0 ∷ 0 ∷ 0 ∷ 2 ∷ 0 ∷ 0 ∷ 0 ∷ 0 ∷ 0 ∷ 0 ∷ 0 ∷ 0 ∷ 0 ∷ 0 ∷ 0 ∷ 0 ∷ 0 ∷ 0 ∷ 0 ∷ 0 ∷ 0 ∷ 0 ∷ 0 ∷ 0
    ∷ 0 ∷ 0 ∷ 0 ∷ 1 ∷ 0 ∷ 0 ∷ 0 ∷ 0 ∷ 0 ∷ 0 ∷ 0 ∷ 0 ∷ 0 ∷ 0 ∷ 0 ∷ 0 ∷ 0 ∷ 0 ∷ 0 ∷ 0 ∷ 2 ∷ 0 ∷ 0 ∷ 0
    ∷ 0 ∷ 0 ∷ 0 ∷ 0 ∷ 0 ∷ 0 ∷ 0 ∷ 0 ∷ 0 ∷ 0 ∷ 0 ∷ 0 ∷ 0 ∷ 0 ∷ 0 ∷ 0 ∷ 0 ∷ 0 ∷ 0 ∷ 0 ∷ 0 ∷ 0 ∷ 0 ∷ 0
    ∷ 0 ∷ 0 ∷ 0 ∷ 0 ∷ 0 ∷ 0 ∷ 0 ∷ 0 ∷ 0 ∷ 0 ∷ 0 ∷ 0 ∷ 0 ∷ 0 ∷ 0 ∷ 0 ∷ 0 ∷ 0 ∷ 0 ∷ 0 ∷ 0 ∷ 0 ∷ 0 ∷ 0
    ∷ 0 ∷ 0 ∷ 0 ∷ 0 ∷ 0 ∷ 0 ∷ 0 ∷ 0 ∷ 0 ∷ 0 ∷ 0 ∷ 0 ∷ 0 ∷ 0 ∷ 0 ∷ 0 ∷ 0 ∷ 0 ∷ 0 ∷ 0 ∷ 0 ∷ 0 ∷ 0 ∷ 0
    ∷ 0 ∷ 0 ∷ 0 ∷ 0 ∷ 0 ∷ 0 ∷ 0 ∷ 0 ∷ 0 ∷ 0 ∷ 0 ∷ 0 ∷ 0 ∷ 0 ∷ 0 ∷ 0 ∷ 0 ∷ 0 ∷ 0 ∷ 0 ∷ 0 ∷ 0 ∷ 0 ∷ 4
    ∷ 0 ∷ 0 ∷ 0 ∷ 0 ∷ 0 ∷ 0 ∷ 0 ∷ 0 ∷ 0 ∷ 0 ∷ 0 ∷ 0 ∷ 0 ∷ 0 ∷ 0 ∷ 0 ∷ 2 ∷ 0 ∷ 0 ∷ 0 ∷ 0 ∷ 0 ∷ 0 ∷ 0
    ∷ 0 ∷ 0 ∷ 0 ∷ 0 ∷ 0 ∷ 0 ∷ 0 ∷ 0 ∷ 0 ∷ 0 ∷ 0 ∷ 0 ∷ 0 ∷ 0 ∷ 0 ∷ 0 ∷ 0 ∷ 0 ∷ 0 ∷ 0 ∷ 0 ∷ 0 ∷ 0 ∷ 0
    ∷ 0 ∷ 0 ∷ 0 ∷ 0 ∷ 0 ∷ 0 ∷ 0 ∷ 0 ∷ 0 ∷ 0 ∷ 0 ∷ 0 ∷ 0 ∷ 0 ∷ 0 ∷ 0 ∷ 0 ∷ 0 ∷ 0 ∷ 0 ∷ 0 ∷ 0 ∷ 0 ∷ 0
    ∷ 0 ∷ 0 ∷ 0 ∷ 0 ∷ 0 ∷ 0 ∷ 0 ∷ 0 ∷ 0 ∷ 0 ∷ 0 ∷ 0 ∷ 0 ∷ 0 ∷ 0 ∷ 0 ∷ 0 ∷ 0 ∷ 0 ∷ 0 ∷ []

program : Unit {0}
unfolding read_u1 read_s4be read_s8be read_be read_raw fill load swap_endian be_value be_value_from
    int32 int64 bits64 narrow32 pure fail ◌>>=◌ lift rounds repeat reserve loop vector iterate
    optional ignore skip get_entry entry_at as_string as_shape as_byte determined get_string_cp
    get_byte_cp get_shape get_type_cp type_of_shape type_name plain_type get_param_types
    param_rounds get_rest_type get_invocable_type read_module name_package import_size
    read_type_body read_function read_function_head read_signature_part read_body_part read_params
    keep_function ignore_function string_at new_location starts_with
program = tt

abbrev main_only : List (List ℕ)
main_only = codes "main" ∷ []

names_of : Run (BirPackage × Stream) → List (List ℕ)
names_of (ok (p, s)) = map (λ (f : BirFunction). f.name) p.functions
names_of (fault e) = []

-- Of the two functions only `main` is kept.
module_names : names_of (read_module pool (good module_bytes)) ≡ main_only
unfolding program names_of
module_names = refl

abbrev main_function : BirFunction
main_function = record {
  location = new_location (codes "a.bal") (pos 0) (pos 0) (pos 0) (pos 0);
  name = codes "main";
  worker_name = codes "a.bal";
  flags = 0;
  return_var = none;
  local_vars = [];
  basic_blocks = [];
  required_params = [];
}

abbrev module_package : BirPackage
module_package = record {
  org = [];
  name = [];
  version = [];
  source_file_name = codes "a.bal";
  global_vars = [];
  functions = main_function ∷ [];
}

module_read : read_module pool (good module_bytes) ≡ ok (module_package, good [])
unfolding program
module_read = refl

read_module-IsKept_example : IsKept module_package
read_module-IsKept_example =
    read_module-IsKept pool (good module_bytes) module_package (good []) module_read

-- One attached function, which is the `main` of the module above, and no referenced type.
abbrev type_body_bytes : List ℕ
type_body_bytes =
    0 ∷ 0 ∷ 0 ∷ 1 ∷ 0 ∷ 0 ∷ 0 ∷ 0 ∷ 0 ∷ 0 ∷ 0 ∷ 0 ∷ 0 ∷ 0 ∷ 0 ∷ 0 ∷ 0 ∷ 0 ∷ 0 ∷ 0 ∷ 0 ∷ 0 ∷ 0 ∷ 0
    ∷ 0 ∷ 0 ∷ 0 ∷ 4 ∷ 0 ∷ 0 ∷ 0 ∷ 0 ∷ 0 ∷ 0 ∷ 0 ∷ 0 ∷ 0 ∷ 0 ∷ 0 ∷ 0 ∷ 0 ∷ 0 ∷ 0 ∷ 0 ∷ 2 ∷ 0 ∷ 0 ∷ 0
    ∷ 0 ∷ 0 ∷ 0 ∷ 0 ∷ 0 ∷ 0 ∷ 0 ∷ 0 ∷ 0 ∷ 0 ∷ 0 ∷ 0 ∷ 0 ∷ 0 ∷ 0 ∷ 0 ∷ 0 ∷ 0 ∷ 0 ∷ 0 ∷ 0 ∷ 0 ∷ 0 ∷ 0
    ∷ 0 ∷ 0 ∷ 0 ∷ 0 ∷ 0 ∷ 0 ∷ 0 ∷ 0 ∷ 0 ∷ 0 ∷ 0 ∷ 0 ∷ 0 ∷ 0 ∷ 0 ∷ 0 ∷ 0 ∷ 0 ∷ 0 ∷ 0 ∷ 0 ∷ 0 ∷ 0 ∷ 0
    ∷ 0 ∷ 0 ∷ 0 ∷ 0 ∷ 0 ∷ 0 ∷ 0 ∷ 0 ∷ 0 ∷ 0 ∷ 0 ∷ 0 ∷ 0 ∷ 0 ∷ 0 ∷ 0 ∷ 0 ∷ 0 ∷ 0 ∷ 0 ∷ 0 ∷ 0 ∷ 0 ∷ 0
    ∷ 0 ∷ 0 ∷ 0 ∷ 0 ∷ []

body_read : read_type_body pool module_package (good type_body_bytes) ≡ ok (module_package, good [])
unfolding program
body_read = refl

read_type_body-functions_example : module_package.functions ≡ module_package.functions
read_type_body-functions_example =
    read_type_body-functions pool module_package (good type_body_bytes) module_package (good [])
      body_read

get_string_cp_iff_example :
    (get_string_cp pool (pos 4) ≡ ok (codes "main"))
    ↔ ((n : ℕ) × (pos 4 ≡ pos n) × (get_elem? pool n ≡ some (string_cp_info (codes "main"))))
get_string_cp_iff_example = get_string_cp_iff pool (pos 4) (codes "main")

get_byte_cp_iff_example :
    (get_byte_cp pool (pos 5) ≡ ok 200)
    ↔ ((n : ℕ) × (pos 5 ≡ pos n) × (get_elem? pool n ≡ some (byte_cp_info (pos 200))) × (200 < 256))
get_byte_cp_iff_example = get_byte_cp_iff pool (pos 5) 200

file_resolves : get_string_cp pool (int32 0) ≡ ok (codes "a.bal")
unfolding program
file_resolves = refl

name_resolves : get_string_cp pool (int32 4) ≡ ok (codes "main")
unfolding program
name_resolves = refl

abbrev file_ref : StringRef pool
file_ref = record { index = 0; text = codes "a.bal"; resolves = file_resolves }

abbrev name_ref : StringRef pool
name_ref = record { index = 4; text = codes "main"; resolves = name_resolves }

abbrev local_operand : OperandWire pool
unfolding GlobalWire is_global to_var_kind
local_operand = record { ignored_var = 0; kind = 1; scope = 0; name = name_ref; global = tt }

abbrev at_start : InsnWire pool → PlacedWire pool
at_start i = record { file = file_ref; s_line = 0; s_col = 0; e_line = 0; e_col = 0; insn = i }

-- `main = main + main; return`
abbrev block_wire : BlockWire pool
block_wire = record {
  name = name_ref;
  insns = record {
    items =
        at_start (binary_wire binary_add local_operand local_operand local_operand)
        ∷ at_start return_wire
        ∷ [];
    fits = omega arith;
  };
}

read_basic_block-encode_block_example :
    read_basic_block pool (good (encode_block pool block_wire ++ []))
    ≡ ok (value_block pool block_wire, good [])
read_basic_block-encode_block_example = read_basic_block-encode_block pool block_wire []
