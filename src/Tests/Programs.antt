-- ===== src/Tests/Programs.antt =====
-- A whole file with a constant pool, a module and its functions.
use nballerina_cpp.Bir.TypeTag.{type_tag_nil, to_type_tag}
use nballerina_cpp.Base.{
  ◌≡◌, refl, true, false, none, some, [], ◌∷◌, ◌++◌, map, arith, codes, concat_map, int32,
}
use nballerina_cpp.Bir.Kinds.{to_var_kind, is_global, is_arg}
use nballerina_cpp.Bir.Types.{named, BalType, plain_type}
use nballerina_cpp.Bir.Program.{BirFunction}
use nballerina_cpp.Run.{ok}
use nballerina_cpp.Reader.Stream.{good}
use nballerina_cpp.Reader.Wire.{Counted}
use nballerina_cpp.Reader.Pool.Entry.{package_cp_info}
use nballerina_cpp.Reader.Pool.Set.{ConstantPoolSet}
use nballerina_cpp.Reader.Pool.Lookup.{
  entry_at, get_entry, as_string, as_shape, determined, get_string_cp, get_shape, type_name,
  type_of_shape, get_type_cp, InvocableType, get_param_types, param_rounds, get_rest_type,
  get_invocable_type,
}
use nballerina_cpp.Reader.Pool.Shape.{new_shape}
use nballerina_cpp.Reader.Pool.SimpleWire.{set_invokable_type}
use nballerina_cpp.Reader.Pool.ShapeWire.{
  has_no_body, no_body, invokable_body, tag_number, set_body, value_shape,
}
use nballerina_cpp.Reader.Pool.RoundTrip.{
  value_package_cp, EntryWire, string_entry, package_entry, shape_entry, value_entry, encode_pool,
}
use nballerina_cpp.Reader.OperandWire.{StringRef, GlobalWire}
use nballerina_cpp.Reader.InsnWire.{return_wire}
use nballerina_cpp.Reader.BlockRoundTrip.{BlockWire}
use nballerina_cpp.Reader.Function.{ignore_function, read_function}
use nballerina_cpp.Reader.FunctionWire.{
  MetaOfVar, MetaOfArg, FunctionWire, names, encode_function, value_function,
}
use nballerina_cpp.Reader.FunctionRoundTrip.{read_function-encode_function}
use nballerina_cpp.Reader.Package.{empty_package, read_module, deserialize}
use nballerina_cpp.Reader.ModuleWire.{ModuleWire, encode_module, kept_one, kept, value_module}
use nballerina_cpp.Reader.ModuleRoundTrip.{read_module-encode_module}
use nballerina_cpp.Reader.FileRoundTrip.{pool_of, deserialize-encode_module}

lookups : Unit {0}
unfolding new_shape value_entry value_shape set_body tag_number set_invokable_type value_package_cp
    int32 to_type_tag GlobalWire MetaOfVar MetaOfArg is_global is_arg to_var_kind get_entry entry_at
    as_string as_shape determined get_string_cp get_shape get_type_cp type_of_shape type_name
    plain_type get_param_types param_rounds get_rest_type get_invocable_type has_no_body names
lookups = tt

abbrev pub empty : {W : Type 0} → Counted W
empty = record { items = []; fits = omega arith }

pub no_body_nil : has_no_body (to_type_tag 10) ≡ true
unfolding lookups
no_body_nil = refl

abbrev pub entries : Counted EntryWire
entries = record {
  items =
      string_entry (record { items = codes "a.bal"; fits = omega arith })
      ∷ string_entry (record { items = codes "..<init>"; fits = omega arith })
      ∷ string_entry (record { items = codes "main"; fits = omega arith })
      ∷ shape_entry (record {
        shape_length = 13;
        name = 2;
        type_flag = 0;
        type_special_flag = 0;
        body = no_body 10 no_body_nil;
      })
      ∷ shape_entry (record {
        shape_length = 20;
        name = 2;
        type_flag = 0;
        type_special_flag = 0;
        body = invokable_body (record { params = empty; rest = none; return_index = 3 });
      })
      ∷ package_entry (record { org = 2; name = 2; version = 0 })
      ∷ [];
  fits = omega arith;
}

abbrev pub cp : ConstantPoolSet
cp = pool_of entries

pub file_found : get_string_cp cp (int32 0) ≡ ok (codes "a.bal")
unfolding lookups
file_found = refl

pub init_found : get_string_cp cp (int32 1) ≡ ok (codes "..<init>")
unfolding lookups
init_found = refl

pub main_found : get_string_cp cp (int32 2) ≡ ok (codes "main")
unfolding lookups
main_found = refl

abbrev nil_type : BalType
nil_type = plain_type type_tag_nil (named (codes "main"))

pub type_found : get_type_cp cp (int32 3) false ≡ ok nil_type
unfolding lookups
type_found = refl

abbrev no_params : InvocableType
no_params = record { param_types = []; return_type = nil_type; rest_type = none }

pub invocable_found : get_invocable_type cp (int32 4) ≡ ok no_params
unfolding lookups
invocable_found = refl

pub package_found :
    get_entry cp (int32 5)
    ≡ ok (package_cp_info (value_package_cp (record { org = 2; name = 2; version = 0 })))
unfolding lookups
package_found = refl

abbrev pub init_ref : StringRef cp
init_ref = record { index = 1; text = codes "..<init>"; resolves = init_found }

abbrev pub main_ref : StringRef cp
main_ref = record { index = 2; text = codes "main"; resolves = main_found }

abbrev source_ref : StringRef cp
source_ref = record { index = 0; text = codes "a.bal"; resolves = file_found }

abbrev return_block : BlockWire cp
return_block = record {
  name = main_ref;
  insns = record {
    items =
        record {
          file = source_ref;
          s_line = 3;
          s_col = 0;
          e_line = 3;
          e_col = 1;
          insn = return_wire;
        }
        ∷ [];
    fits = omega arith;
  };
}

abbrev pub function_named : StringRef cp → FunctionWire cp
unfolding MetaOfVar to_var_kind
function_named name' = record {
  file = source_ref;
  s_line = 1;
  s_col = 2;
  e_line = 3;
  e_col = 4;
  name = name';
  worker = main_ref;
  flags = 1;
  origin = 0;
  type_index = 4;
  type_of = no_params;
  resolves = invocable_found;
  annotations = empty;
  params = empty;
  spare = [];
  names_fit = omega arith;
  rest_param = none;
  receiver = none;
  taint_table = empty;
  doc = empty;
  globals = empty;
  scope_length = 4;
  scopes = empty;
  body_length = 0;
  args_count = 0;
  return_var = none;
  locals = record {
    items =
        record {
          kind = 3;
          type_ref = record { index = 3; type_of = nil_type; resolves = type_found };
          name = main_ref;
          meta = tt;
        }
        ∷ [];
    fits = omega arith;
  };
  blocks = record { items = return_block ∷ []; fits = omega arith };
  error_entries = 0;
  channels = 0;
}

abbrev pub module_wire : ModuleWire cp
unfolding value_package_cp
module_wire = record {
  id = record {
    index = 5;
    entry = value_package_cp (record { org = 2; name = 2; version = 0 });
    resolves = package_found;
    org = codes "main";
    org_resolves = main_found;
    name = codes "main";
    name_resolves = main_found;
    version = codes "a.bal";
    version_resolves = file_found;
  };
  imports = record { org = 2; name = 2; version = 0 } ∷ [];
  imports_fit = omega arith;
  constants = empty;
  definitions = empty;
  globals = empty;
  bodies = empty;
  functions = record {
    items = function_named init_ref ∷ function_named main_ref ∷ [];
    fits = omega arith;
  };
}

read_function-encode_function_example :
    read_function cp false empty_package
      (good (encode_function cp (function_named main_ref) ++ (7 ∷ [])))
    ≡ ok (
      record empty_package {
        source_file_name = codes "a.bal";
        functions = value_function cp (function_named main_ref) ∷ [];
      },
      good (7 ∷ []),
    )
unfolding ignore_function function_named
read_function-encode_function_example =
    read_function-encode_function cp false empty_package (function_named main_ref) (7 ∷ [])

read_module-encode_module_example :
    read_module cp (good (encode_module cp module_wire ++ (7 ∷ [])))
    ≡ ok (value_module cp module_wire, good (7 ∷ []))
read_module-encode_module_example = read_module-encode_module cp module_wire (7 ∷ [])

deserialize-encode_module_example :
    deserialize (some ((encode_pool entries ++ encode_module cp module_wire) ++ []))
    ≡ ok (value_module cp module_wire)
deserialize-encode_module_example = deserialize-encode_module entries module_wire []

-- Of the two functions `main` alone is kept.
kept_names :
    map (λ (f : BirFunction). f.name) (value_module cp module_wire).functions ≡ codes "main" ∷ []
unfolding value_module kept kept_one value_function ignore_function function_named module_wire
    concat_map
kept_names = refl
