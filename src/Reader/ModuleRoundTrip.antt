-- ===== src/Reader/ModuleRoundTrip.antt =====
-- compiler/reader/BIRReadPackage.cpp against the format of a module.
use nballerina_cpp.Base.{
  ℕ, ◌*◌, ◌^◌, ◌<◌, ◌≡◌, refl, sym, inl, inr, true, false, List, [], ◌∷◌, ◌++◌, append_assoc,
  append-nil, arith, Bool-cases, length, length-append, concat_map, pos, int32, int32_small,
}
use nballerina_cpp.Bir.Program.{BirFunction, BirPackage}
use nballerina_cpp.Run.{ok}
use nballerina_cpp.Reader.Stream.{good}
use nballerina_cpp.Reader.Monad.{rounds, iterate}
use nballerina_cpp.Reader.Primitives.{ignore}
use nballerina_cpp.Reader.Wire.{
  length-to_be, Parses, Parses-bind, Parses-pure, Parses-last, Parses-bind_rest, Parses-lift,
  Parses-read_u1, Parses-read_s4be, Parses-read_s8be, Parses-ignore, rounds-int32, Parses-reserve,
  Counted, count, Parses-loop, Parses-vector,
}
use nballerina_cpp.Reader.Pool.Entry.{package_cp_info}
use nballerina_cpp.Reader.Pool.Set.{ConstantPoolSet}
use nballerina_cpp.Reader.Pool.RoundTrip.{PackageWire, encode_package_cp}
use nballerina_cpp.Reader.OperandWire.{Parses-string_at}
use nballerina_cpp.Reader.Insns.{string_at}
use nballerina_cpp.Reader.Function.{ignore_function, keep_function, type_at, read_function}
use nballerina_cpp.Reader.Package.{
  import_size, read_constant, read_type_definition, read_global_var, read_type_body, name_package,
  read_module,
}
use nballerina_cpp.Reader.FunctionWire.{FunctionWire, encode_function, value_function}
use nballerina_cpp.Reader.FunctionRoundTrip.{Parses-ignore_4, Parses-ignore_8, Parses-function}
use nballerina_cpp.Reader.ModuleWire.{
  PositionWire, encode_position, ConstantWire, encode_constant, DefinitionWire, encode_definition,
  VarWire, encode_global_var, value_global_var, TypeBodyWire, encode_type_body, ModuleName,
  ModuleWire, encode_module, kept_one, kept, last_file, last_body_file, value_module,
}

length-encode_position : (w : PositionWire) → length (encode_position w) ≡ 20
unfolding encode_position
length-encode_position w = simp (length-append, length-to_be) refl

Parses-position : (w : PositionWire) → Parses (ignore (pos 20)) (encode_position w) tt
Parses-position w = rw (sym (length-encode_position w)) (Parses-ignore (encode_position w))

length-encode_package_cp : (w : PackageWire) → length (encode_package_cp w) ≡ 12
unfolding encode_package_cp
length-encode_package_cp w = simp (length-append, length-to_be) refl

length-encode_imports :
    (ws : List PackageWire) → length (concat_map encode_package_cp ws) ≡ length ws * 12
unfolding concat_map
length-encode_imports [] = refl
length-encode_imports (w ∷ ws) = omega (
  arith,
  length-append {0} (encode_package_cp w) (concat_map encode_package_cp ws),
  length-encode_package_cp w,
  length-encode_imports ws,
)

Parses-imports :
    (ws : List PackageWire)
    → length ws * 12 < 2 ^ 31
    → Parses (ignore (import_size (int32 (length ws)))) (concat_map encode_package_cp ws) tt
unfolding import_size
Parses-imports ws h =
    rw
      (
        int32_small (length ws) (omega arith),
        int32_small (length ws * 12) h,
        sym (length-encode_imports ws),
      )
      (Parses-ignore (concat_map encode_package_cp ws))

Parses-constant : (w : ConstantWire) → Parses read_constant (encode_constant w) tt
unfolding read_constant encode_constant
Parses-constant w = Parses-bind _ (Parses-read_s4be _) (
    Parses-bind _ (Parses-read_s8be _) (
      Parses-bind _ (Parses-read_u1 _) (
        Parses-bind _ (Parses-position w.position) (
          Parses-bind _ (Parses-read_s4be _) (
            Parses-bind _ (Parses-ignore_4 w.markdown) (
              Parses-bind _ (Parses-read_s4be _)
                (Parses-bind _ (Parses-read_s8be _) (Parses-ignore_8 w.value))))))))

Parses-definition : (w : DefinitionWire) → Parses read_type_definition (encode_definition w) tt
unfolding read_type_definition encode_definition
Parses-definition w = Parses-bind _ (Parses-position w.position) (
    Parses-bind _ (Parses-read_s4be _) (
      Parses-bind _ (Parses-read_s8be _) (
        Parses-bind _ (Parses-read_u1 _) (
          Parses-bind _ (Parses-read_u1 _) (
            Parses-bind _ (Parses-read_s4be _) (
              Parses-bind _ (Parses-ignore_4 w.markdown) (
                Parses-bind _ (Parses-read_s8be _) (
                  Parses-bind _ (Parses-ignore_8 w.annotations)
                    (Parses-last _ (Parses-read_s4be _))))))))))

-- A package with another source file and further functions.
extend_package : BirPackage → List ℕ → List BirFunction → BirPackage
extend_package p file fs = record p { source_file_name = file; functions = p.functions ++ fs }

extend_package-nil : (p : BirPackage) → extend_package p p.source_file_name [] ≡ p
unfolding extend_package
extend_package-nil p = rw append-nil refl

module _ (cp : ConstantPoolSet) where
  Parses-global_var :
      (w : VarWire cp)
      → Parses (read_global_var cp) (encode_global_var cp w) (value_global_var cp w)
  unfolding read_global_var encode_global_var value_global_var type_at
  Parses-global_var w = Parses-bind _ (Parses-read_u1 _) (
      Parses-bind _ (Parses-read_s4be _) (
        Parses-bind _ (Parses-read_s8be _) (
          Parses-bind _ (Parses-read_u1 _) (
            Parses-bind _ (Parses-read_s4be _) (
              Parses-bind _ (Parses-ignore_4 w.doc) (
                Parses-bind_rest _ (Parses-read_s4be _) (
                  Parses-bind _ (Parses-lift w.type_ref.resolves)
                    (Parses-last _ (Parses-string_at cp w.name)))))))))

  Parses-attached :
      (ws : List (FunctionWire cp)) (p : BirPackage)
      → Parses
          (iterate (length ws) (read_function cp true) p)
          (concat_map (encode_function cp) ws)
          (record p { source_file_name = last_file cp p.source_file_name ws })
  unfolding iterate concat_map last_file keep_function
  Parses-attached [] p = Parses-pure
  Parses-attached (w ∷ ws) p =
      Parses-bind _ (Parses-function cp true p w)
        (Parses-attached ws (record p { source_file_name = w.file.text }))

  keep_function-extend :
      (w : FunctionWire cp) (p : BirPackage)
      → keep_function false w.file.text (value_function cp w) p
        ≡ extend_package p w.file.text
            (kept_one cp (ignore_function w.name.text) (value_function cp w))
  unfolding keep_function extend_package kept_one value_function
  keep_function-extend w p = elim (Bool-cases (ignore_function w.name.text)) [
    | inl e ↦ rw e (rw append-nil refl)
    | inr e ↦ rw e refl
  ]

  Parses-kept :
      (w : FunctionWire cp) (p : BirPackage)
      → Parses (read_function cp false p) (encode_function cp w) (
          extend_package p w.file.text
            (kept_one cp (ignore_function w.name.text) (value_function cp w)))
  Parses-kept w p = rw (sym (keep_function-extend w p)) (Parses-function cp false p w)

  Parses-functions :
      (ws : List (FunctionWire cp)) (p : BirPackage)
      → Parses
          (iterate (length ws) (read_function cp false) p)
          (concat_map (encode_function cp) ws)
          (extend_package p (last_file cp p.source_file_name ws) (kept cp ws))
  unfolding iterate concat_map last_file kept extend_package
  Parses-functions [] p = rw (extend_package-nil p) Parses-pure
  Parses-functions (w ∷ ws) p =
      rw
        (sym (
          append_assoc p.functions (kept_one cp (ignore_function w.name.text) (value_function cp w))
            (kept cp ws)))
        (Parses-bind _ (Parses-kept w p) (Parses-functions ws _))

  Parses-type_body :
      (w : TypeBodyWire cp) (p : BirPackage)
      → Parses
          (read_type_body cp p)
          (encode_type_body cp w)
          (record p { source_file_name = last_file cp p.source_file_name w.attached.items })
  unfolding read_type_body encode_type_body
  Parses-type_body w p = Parses-bind _ (Parses-read_s4be _) (
      Parses-bind _
        (rw (rounds-int32 (count w.attached) w.attached.fits) (Parses-attached w.attached.items p))
        (Parses-bind _ (Parses-read_s4be _)
          (Parses-last _ (Parses-loop _ _ int32 w.referenced Parses-read_s4be))))

  Parses-type_bodies :
      (ws : List (TypeBodyWire cp)) (p : BirPackage)
      → Parses
          (iterate (length ws) (read_type_body cp) p)
          (concat_map (encode_type_body cp) ws)
          (record p { source_file_name = last_body_file cp p.source_file_name ws })
  unfolding iterate concat_map last_body_file
  Parses-type_bodies [] p = Parses-pure
  Parses-type_bodies (w ∷ ws) p = Parses-bind _ (Parses-type_body w p) (
      Parses-type_bodies ws
        (record p { source_file_name = last_file cp p.source_file_name w.attached.items }))

  -- The two loops with their counts as they are read.
  Parses-counted_bodies :
      (ws : Counted (TypeBodyWire cp)) (p : BirPackage)
      → Parses
          (iterate (rounds (int32 (count ws))) (read_type_body cp) p)
          (concat_map (encode_type_body cp) ws.items)
          (record p { source_file_name = last_body_file cp p.source_file_name ws.items })
  Parses-counted_bodies ws p = rw (rounds-int32 (count ws) ws.fits) (Parses-type_bodies ws.items p)

  Parses-counted_functions :
      (ws : Counted (FunctionWire cp)) (p : BirPackage)
      → Parses
          (iterate (rounds (int32 (count ws))) (read_function cp false) p)
          (concat_map (encode_function cp) ws.items)
          (extend_package p (last_file cp p.source_file_name ws.items) (kept cp ws.items))
  Parses-counted_functions ws p = rw (rounds-int32 (count ws) ws.fits) (Parses-functions ws.items p)

  -- A package of which only the names are known.
  named_package : ModuleName cp → BirPackage
  named_package id = record {
    org = id.org;
    name = id.name;
    version = id.version;
    source_file_name = [];
    global_vars = [];
    functions = [];
  }

  Parses-name_package :
      (id : ModuleName cp)
      → Parses (name_package cp (package_cp_info id.entry)) [] (named_package id)
  unfolding name_package named_package string_at
  Parses-name_package id = Parses-bind _ (Parses-lift id.org_resolves) (
      Parses-bind _ (Parses-lift id.name_resolves)
        (Parses-last _ (Parses-lift id.version_resolves)))

  pub Parses-module :
      (w : ModuleWire cp) → Parses (read_module cp) (encode_module cp w) (value_module cp w)
  unfolding read_module encode_module value_module named_package extend_package
  Parses-module w = Parses-bind _ (Parses-read_s4be _) (
      Parses-bind _ (Parses-lift w.id.resolves) (
        Parses-bind _ (Parses-name_package w.id) (
          Parses-bind _ (Parses-read_s4be _) (
            Parses-bind _ (Parses-imports w.imports w.imports_fit) (
              Parses-bind _ (Parses-read_s4be _) (
                Parses-bind _ (Parses-loop _ _ (λ c. tt) w.constants Parses-constant) (
                  Parses-bind _ (Parses-read_s4be _) (
                    Parses-bind _ (Parses-loop _ _ (λ d. tt) w.definitions Parses-definition) (
                      Parses-bind _ (Parses-read_s4be _) (
                        Parses-bind _ (Parses-vector _ _ _ w.globals Parses-global_var) (
                          Parses-bind _ (Parses-read_s4be _) (
                            Parses-bind _ (Parses-counted_bodies w.bodies _) (
                              Parses-bind _ (Parses-read_s4be _) (
                                Parses-bind _ (Parses-reserve (count w.functions) w.functions.fits)
                                  (Parses-counted_functions w.functions _)))))))))))))))

  -- Reading back a module: on the encoding of any module whose references the constant pool resolves
  -- and whose counts and size of imports are less than 2 ^ 31, whatever bytes follow it, `readModule` ends normally and consumes exactly the encoding. The
  -- package has the module's names, its global variables in their order and, in their order, those of
  -- its functions whose names do not begin with an ignored name; its source file is the file of the
  -- last function that was read.
  pub read_module-encode_module :
      (w : ModuleWire cp) (rest : List ℕ)
      → read_module cp (good (encode_module cp w ++ rest)) ≡ ok (value_module cp w, good rest)
  read_module-encode_module w rest = (Parses-module w).run rest
