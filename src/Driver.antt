-- ===== src/Driver.antt =====
-- compiler/driver.cpp: the command line of the compiler.
use nballerina_cpp.Base.{
  ℕ, zero, suc, Bool, true, false, ◌||◌, Option, none, some, List, [], ◌∷◌, ◌++◌, ◌==◌,
  if◌then◌else◌, bytes_eq, codes, get_elem?, pos,
}
use nballerina_cpp.Run.{null_pointer, Run, ok, fault}
use nballerina_cpp.Reader.Package.{deserialize}
use nballerina_cpp.Codegen.Llvm.{Llvm}
use nballerina_cpp.Codegen.Generator.{Target, Outcome, generate_llvm_ir}
pub mod Paths
pub mod Compile

-- One of `\`, `/` and `.`.
unfoldable pub is_separator : ℕ → Bool
is_separator c = c == 92 || (c == 47 || c == 46)

-- `find_last_of("\\/.")`
unfoldable pub find_last_of : List ℕ → Option ℕ
find_last_of [] = none
find_last_of (c ∷ cs) = elim (find_last_of cs) [
  | none ↦ if is_separator c then some 0 else none
  | some i ↦ some (suc i)
]

-- `substr(0, n)`
unfoldable pub substr : ℕ → List ℕ → List ℕ
substr n [] = []
substr zero (c ∷ cs) = []
substr (suc n) (c ∷ cs) = c ∷ substr n cs

unfoldable pub cut_at : Option ℕ → List ℕ → List ℕ
unfolding substr
cut_at none path = path
cut_at (some i) path = elim (get_elem? path i) [
  | none ↦ path
  | some c ↦ if c == 46 then substr i path else path
]

unfoldable pub remove_extension : List ℕ → List ℕ
unfolding find_last_of cut_at
remove_extension path = cut_at (find_last_of path) path

abbrev pub usage : List ℕ
usage = codes "Need input file name" ++ (10 ∷ [])

pub record Options : Type 0 where
  pub in_file_name : List ℕ
  pub out_file_name : List ℕ

-- The `while` over the arguments, the program's name among them. The argument after the last one is a
-- null pointer.
unfoldable pub parse_args : List (List ℕ) → Options → Run Options
parse_args [] o = ok o
parse_args (arg ∷ []) o =
    if bytes_eq arg (codes "-c")
    then ok o
    else if bytes_eq arg (codes "-o")
    then fault null_pointer
    else ok (record o { in_file_name = arg })
parse_args (arg ∷ value ∷ args) o =
    let skip = parse_args (value ∷ args) o in
    let output = parse_args args (record o { out_file_name = value }) in
    let input = parse_args (value ∷ args) (record o { in_file_name = arg }) in
    if bytes_eq arg (codes "-c") then skip else if bytes_eq arg (codes "-o") then output else input

unfoldable pub output_name : Options → List ℕ
output_name o =
    if bytes_eq o.out_file_name []
    then remove_extension o.in_file_name ++ codes ".ll"
    else o.out_file_name

module _ (L : Llvm) (T : Target L) (file : List ℕ → Option (List ℕ)) where
  -- The files are what the names stand for.
  unfoldable pub compile : Options → Run Outcome
  unfolding output_name
  compile o = elim (deserialize (file o.in_file_name)) [
    | ok p ↦ generate_llvm_ir L T p (output_name o)
    | fault e ↦ fault e
  ]

  unfoldable pub compile_parsed : Run Options → Run Outcome
  unfolding compile
  compile_parsed (ok o) = compile o
  compile_parsed (fault e) = fault e

  -- Without arguments the process ends with the status 0.
  unfoldable pub main : List (List ℕ) → Run Outcome
  unfolding compile_parsed parse_args
  main [] = ok (record { status = pos 0; message = usage; written = none })
  main (program ∷ []) = ok (record { status = pos 0; message = usage; written = none })
  main (program ∷ arg ∷ args) =
      compile_parsed
        (parse_args (program ∷ arg ∷ args) (record { in_file_name = []; out_file_name = [] }))
