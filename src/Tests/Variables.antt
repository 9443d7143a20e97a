-- ===== src/Tests/Variables.antt =====
-- Lookups of variables by their names.
use nballerina_cpp.Base.{ℕ, ◌≡◌, refl, ◌↔◌, none, List, [], ◌∷◌, bytes_eq, codes, pos}
use nballerina_cpp.Run.{ok}
use nballerina_cpp.Bir.TypeTag.{type_tag_int}
use nballerina_cpp.Bir.Types.{named, plain_type}
use nballerina_cpp.Bir.Kinds.{VarKind, local_var_kind, temp_var_kind, global_var_kind}
use nballerina_cpp.Bir.Program.{
  new_location, Variable, BirFunction, BirPackage, find_variable, get_local_variable,
  get_global_variable,
}
use nballerina_cpp.Bir.Queries.{IsFirst, get_variable_iff}

abbrev variable : List ℕ → VarKind → Variable
variable name' kind' = record {
  type_of = plain_type type_tag_int (named (codes "int"));
  name = name';
  kind = kind';
}

abbrev function : BirFunction
function = record {
  location = new_location (codes "a.bal") (pos 1) (pos 3) (pos 2) (pos 4);
  name = codes "main";
  worker_name = codes "main";
  flags = 1;
  return_var = none;
  local_vars =
      variable (codes "x") local_var_kind
      ∷ variable (codes "y") local_var_kind
      ∷ variable (codes "y") temp_var_kind
      ∷ [];
  basic_blocks = [];
  required_params = [];
}

abbrev package_of_y : BirPackage
package_of_y = record {
  org = [];
  name = [];
  version = [];
  source_file_name = [];
  global_vars = variable (codes "y") global_var_kind ∷ [];
  functions = function ∷ [];
}

get_variable_iff_example :
    ((get_local_variable function (codes "y") ≡ ok (variable (codes "y") local_var_kind))
      ↔ IsFirst (codes "y") (variable (codes "y") local_var_kind) function.local_vars)
    × ((get_global_variable package_of_y (codes "y") ≡ ok (variable (codes "y") local_var_kind))
        ↔ IsFirst (codes "y") (variable (codes "y") local_var_kind) package_of_y.global_vars)
get_variable_iff_example =
    get_variable_iff package_of_y function (codes "y") (variable (codes "y") local_var_kind)

-- The first of two variables with the same name is returned.
first_of_two : get_local_variable function (codes "y") ≡ ok (variable (codes "y") local_var_kind)
unfolding get_local_variable find_variable bytes_eq
first_of_two = refl
