-- ===== src/Tests/Driver.antt =====
-- The whole compiler on a file, with the library that runs the code.
use nballerina_cpp.Base.{
  ℕ, ◌≡◌, refl, false, Option, none, some, List, [], ◌∷◌, ◌++◌, if◌then◌else◌, bytes_eq, codes,
}
use nballerina_cpp.Reader.Pool.RoundTrip.{encode_pool}
use nballerina_cpp.Reader.ModuleWire.{encode_module, value_module}
use nballerina_cpp.Codegen.Generator.{Target, generate_llvm_ir}
use nballerina_cpp.Driver.{is_separator, remove_extension, main}
use nballerina_cpp.Driver.Paths.{remove_extension_lem}
use nballerina_cpp.Driver.Compile.{main-encode_module}
use nballerina_cpp.Tests.Machine.{machine}
use nballerina_cpp.Tests.Programs.{entries, cp, module_wire}

-- A target that prints nothing and opens every file.
abbrev target : Target machine
target = record {
  Triple = Unit {0};
  default_triple = tt;
  get_triple = λ t. codes "x86_64-unknown-linux-gnu";
  is_mac_osx = λ t. false;
  get_mac_osx_version = λ t. none;
  set_mac_osx = λ t. t;
  decimal = λ n. [];
  new_module = λ n. record { memory = λ w k. none; result = none; next = 0; functions = [] };
  set_data_layout = λ n m. m;
  set_target_triple = λ n m. m;
  open_error = λ n. none;
  print = λ m. [];
}

abbrev bytes : List ℕ
bytes = (encode_pool entries ++ encode_module cp module_wire) ++ []

abbrev file : List ℕ → Option (List ℕ)
file name' = if bytes_eq name' (codes "a.bir") then some bytes else none

remove_extension_example :
    (remove_extension (codes "x/a" ++ (46 ∷ codes "bir")) ≡ codes "x/a")
    × (remove_extension (codes "bir") ≡ codes "bir")
unfolding is_separator
remove_extension_example =
    remove_extension_lem (codes "x/a") (codes "bir") 46 refl (refl, (refl, (refl, tt)))

file_of : file (codes "a.bir") ≡ some bytes
unfolding bytes_eq
file_of = refl

main-encode_module_example :
    (main machine target file (codes "nballerina" ∷ codes "a.bir" ∷ [])
      ≡ generate_llvm_ir machine target
          (value_module cp module_wire)
          (remove_extension (codes "a.bir") ++ codes ".ll"))
    × (main machine target file
          (codes "nballerina" ∷ codes "a.bir" ∷ codes "-o" ∷ codes "b.ll" ∷ [])
        ≡ generate_llvm_ir machine target (value_module cp module_wire) (codes "b.ll"))
unfolding bytes_eq
main-encode_module_example =
    main-encode_module machine target file (codes "nballerina") (codes "a.bir") (codes "b.ll")
      entries module_wire [] (refl, refl) (refl, refl) refl file_of
