-- ===== src/Codegen/Generator.antt =====
-- compiler/codegen/CodeGenerator.cpp: a package as a file of LLVM code.
use nballerina_cpp.Base.{
  ℕ, Bool, true, false, Option, none, some, List, [], ◌∷◌, ◌++◌, codes, ℤ, pos, negsuc,
}
use nballerina_cpp.Bir.Program.{BirPackage, get_module_name}
use nballerina_cpp.Run.{Run, ok, fault}
use nballerina_cpp.Codegen.Llvm.{Llvm}
use nballerina_cpp.Codegen.Package.{visit_package}

-- The target of the library's build and the library's output: `llvm::Triple`, `llvm::Module` and
-- `llvm::raw_fd_ostream`.
pub record Target (L : Llvm) : Type 1 where
  pub Triple : Type 0
  pub default_triple : Triple
  pub get_triple : Triple → List ℕ
  pub is_mac_osx : Triple → Bool
  pub get_mac_osx_version : Triple → Option (ℕ × ℕ × ℕ)
  pub set_mac_osx : Triple → Triple
  -- `operator<<` of numbers
  pub decimal : ℕ → List ℕ
  pub new_module : List ℕ → L.State
  pub set_data_layout : List ℕ → L.State → L.State
  pub set_target_triple : List ℕ → L.State → L.State
  -- the message of the error code, if the file cannot be opened
  pub open_error : List ℕ → Option (List ℕ)
  pub print : L.State → List ℕ

-- The exit status, the messages on the standard error, and the file that has been written.
pub record Outcome : Type 0 where
  pub status : ℤ
  pub message : List ℕ
  pub written : Option (List ℕ × List ℕ)

-- A `std::stringstream` made of a text writes over it from its start.
unfoldable pub overwrite : List ℕ → List ℕ → List ℕ
overwrite [] text = text
overwrite (c ∷ cs) [] = c ∷ cs
overwrite (c ∷ cs) (d ∷ text) = c ∷ overwrite cs text

module _ (L : Llvm) (T : Target L) where
  unfoldable pub mac_osx_triple : Option (ℕ × ℕ × ℕ) → List ℕ → List ℕ
  unfolding overwrite
  mac_osx_triple none text = text
  mac_osx_triple (some (major, minor, micro)) text =
      overwrite
        (T.decimal major ++ (codes "." ++ (T.decimal minor ++ (codes "." ++ T.decimal micro))))
        (T.get_triple (T.set_mac_osx T.default_triple))

  unfoldable pub triple_string : Bool → List ℕ
  unfolding mac_osx_triple
  triple_string true =
      mac_osx_triple (T.get_mac_osx_version T.default_triple) (T.get_triple T.default_triple)
  triple_string false = T.get_triple T.default_triple

  unfoldable pub write_module : Option (List ℕ) → List ℕ → L.State → Outcome
  write_module (some error) out_file_name s = record {
    status = negsuc 0;
    message = error;
    written = none;
  }
  write_module none out_file_name s = record {
    status = pos 0;
    message = [];
    written = some (out_file_name, T.print s);
  }

  unfoldable pub generate_llvm_ir : BirPackage → List ℕ → Run Outcome
  unfolding triple_string write_module
  generate_llvm_ir p out_file_name =
      let start = T.set_target_triple (triple_string (T.is_mac_osx T.default_triple)) (
        T.set_data_layout (codes "e-m:e-i64:64-f80:128-n8:16:32:64-S128")
          (T.new_module (get_module_name p))) in
      elim (visit_package L p start) [
        | ok r ↦ ok (write_module (T.open_error out_file_name) out_file_name r.1)
        | fault e ↦ fault e
      ]
