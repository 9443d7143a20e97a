-- ===== src/Driver/Compile.antt =====
-- compiler/driver.cpp: the whole compiler on a file that holds an encoded module.
use nballerina_cpp.Base.{ℕ, ◌≡◌, refl, false, Option, some, List, [], ◌∷◌, ◌++◌, bytes_eq, codes}
use nballerina_cpp.Run.{ok}
use nballerina_cpp.Reader.Wire.{Counted}
use nballerina_cpp.Reader.Pool.RoundTrip.{EntryWire, encode_pool}
use nballerina_cpp.Reader.ModuleWire.{ModuleWire, encode_module, value_module}
use nballerina_cpp.Reader.FileRoundTrip.{pool_of, deserialize-encode_module}
use nballerina_cpp.Codegen.Llvm.{Llvm}
use nballerina_cpp.Codegen.Generator.{Target, generate_llvm_ir}
use nballerina_cpp.Driver.{
  remove_extension, Options, parse_args, output_name, compile, compile_parsed, main,
}

-- A word that is no option.
abbrev pub IsPlainArg : List ℕ → Type 0
IsPlainArg arg = (bytes_eq arg (codes "-c") ≡ false) × (bytes_eq arg (codes "-o") ≡ false)

parse_args-plain :
    (program path : List ℕ) (o : Options)
    → IsPlainArg program
    → IsPlainArg path
    → parse_args (program ∷ path ∷ []) o ≡ ok (record o { in_file_name = path })
unfolding parse_args
parse_args-plain program path o (c, d) (c', d') = rw (c, d, c', d') refl

parse_args-output :
    (program path out : List ℕ) (o : Options)
    → IsPlainArg program
    → IsPlainArg path
    → parse_args (program ∷ path ∷ codes "-o" ∷ out ∷ []) o
      ≡ ok (record { in_file_name = path; out_file_name = out })
unfolding parse_args bytes_eq
parse_args-output program path out o (c, d) (c', d') = rw (c, d, c', d') refl

module _ (L : Llvm) (T : Target L) (file : List ℕ → Option (List ℕ)) where
  -- The compiler, called with the path of a file that begins with the encodings of a pool and a
  -- module whose references the pool resolves, generates the code of the module's package, into the
  -- file that `-o` names, or else into the one with the path's extension replaced by `.ll`.
  pub main-encode_module :
      (program path out : List ℕ) (entries : Counted EntryWire) (w : ModuleWire (pool_of entries))
      (rest : List ℕ)
      → IsPlainArg program
      → IsPlainArg path
      → bytes_eq out [] ≡ false
      → file path ≡ some ((encode_pool entries ++ encode_module (pool_of entries) w) ++ rest)
      → (main L T file (program ∷ path ∷ [])
          ≡ generate_llvm_ir L T
              (value_module (pool_of entries) w)
              (remove_extension path ++ codes ".ll"))
        × (main L T file (program ∷ path ∷ codes "-o" ∷ out ∷ [])
            ≡ generate_llvm_ir L T (value_module (pool_of entries) w) out)
  unfolding main compile_parsed compile output_name bytes_eq
  main-encode_module program path out entries w rest plain plain' named holds =
      let read = deserialize-encode_module entries w rest in
      (
        rw
            (
              parse_args-plain program path (record { in_file_name = []; out_file_name = [] }) plain
                  plain',
              compile_parsed,
              compile,
              holds,
              read,
              output_name,
            )
            refl,
        rw
            (
              parse_args-output program path out (record { in_file_name = []; out_file_name = [] })
                  plain plain',
              compile_parsed,
              compile,
              holds,
              read,
              output_name,
              named,
            )
            refl,
      )
