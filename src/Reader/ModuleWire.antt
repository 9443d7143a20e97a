-- ===== src/Reader/ModuleWire.antt =====
-- The format of a module as data, in the order of the file.
use nballerina_cpp.Base.{
  ℕ, ◌*◌, ◌^◌, ◌<◌, ◌≡◌, Bool, true, false, List, [], ◌∷◌, ◌++◌, map, length, concat_map, int32,
}
use nballerina_cpp.Bir.Kinds.{to_var_kind}
use nballerina_cpp.Bir.Program.{Variable, BirFunction, BirPackage}
use nballerina_cpp.Run.{ok}
use nballerina_cpp.Reader.Wire.{to_be, Counted, count}
use nballerina_cpp.Reader.Pool.Entry.{PackageCpInfo, package_cp_info}
use nballerina_cpp.Reader.Pool.Set.{ConstantPoolSet}
use nballerina_cpp.Reader.Pool.Lookup.{get_entry, get_string_cp}
use nballerina_cpp.Reader.Pool.RoundTrip.{PackageWire, encode_package_cp}
use nballerina_cpp.Reader.OperandWire.{StringRef, TypeRef}
use nballerina_cpp.Reader.Function.{ignore_function}
use nballerina_cpp.Reader.FunctionWire.{FunctionWire, encode_function, value_function}

-- The twenty bytes of a position.
pub record PositionWire : Type 0 where
  pub file : ℕ
  pub s_line : ℕ
  pub s_col : ℕ
  pub e_line : ℕ
  pub e_col : ℕ

unfoldable pub encode_position : PositionWire → List ℕ
encode_position w =
    to_be 4 w.file
    ++ (to_be 4 w.s_line ++ (to_be 4 w.s_col ++ (to_be 4 w.e_line ++ to_be 4 w.e_col)))

pub record ConstantWire : Type 0 where
  pub name : ℕ
  pub flags : ℕ
  pub origin : ℕ
  pub position : PositionWire
  pub markdown : Counted ℕ
  pub type_index : ℕ
  pub value : Counted ℕ

unfoldable pub encode_constant : ConstantWire → List ℕ
encode_constant w =
    to_be 4 w.name
    ++ (to_be 8 w.flags
        ++ ((w.origin ∷ [])
            ++ (encode_position w.position
                ++ (to_be 4 (count w.markdown)
                    ++ (w.markdown.items
                        ++ (to_be 4 w.type_index ++ (to_be 8 (count w.value) ++ w.value.items)))))))

pub record DefinitionWire : Type 0 where
  pub position : PositionWire
  pub name : ℕ
  pub flags : ℕ
  pub label : ℕ
  pub origin : ℕ
  pub markdown : Counted ℕ
  pub annotations : Counted ℕ
  pub type_index : ℕ

unfoldable pub encode_definition : DefinitionWire → List ℕ
encode_definition w =
    encode_position w.position
    ++ (to_be 4 w.name
        ++ (to_be 8 w.flags
            ++ ((w.label ∷ [])
                ++ ((w.origin ∷ [])
                    ++ (to_be 4 (count w.markdown)
                        ++ (w.markdown.items
                            ++ (to_be 8 (count w.annotations)
                                ++ (w.annotations.items ++ to_be 4 w.type_index))))))))

module _ (cp : ConstantPoolSet) where
  pub record VarWire : Type 0 where
    pub kind : ℕ
    pub name : StringRef cp
    pub flags : ℕ
    pub origin : ℕ
    pub doc : Counted ℕ
    pub type_ref : TypeRef cp

  unfoldable pub encode_global_var : VarWire → List ℕ
  encode_global_var w =
      (w.kind ∷ [])
      ++ (to_be 4 w.name.index
          ++ (to_be 8 w.flags
              ++ ((w.origin ∷ [])
                  ++ (to_be 4 (count w.doc) ++ (w.doc.items ++ to_be 4 w.type_ref.index)))))

  unfoldable pub value_global_var : VarWire → Variable
  value_global_var w = record {
    type_of = w.type_ref.type_of;
    name = w.name.text;
    kind = to_var_kind w.kind;
  }

  -- The functions and the referenced types of a type definition.
  pub record TypeBodyWire : Type 0 where
    pub attached : Counted (FunctionWire cp)
    pub referenced : Counted ℕ

  unfoldable pub encode_type_body : TypeBodyWire → List ℕ
  encode_type_body w =
      to_be 4 (count w.attached)
      ++ (concat_map (encode_function cp) w.attached.items
          ++ (to_be 4 (count w.referenced) ++ concat_map (to_be 4) w.referenced.items))

  -- The name of the module: a package entry whose three names are strings of the pool.
  pub record ModuleName : Type 0 where
    pub index : ℕ
    pub entry : PackageCpInfo
    pub resolves : get_entry cp (int32 index) ≡ ok (package_cp_info entry)
    pub org : List ℕ
    pub org_resolves : get_string_cp cp entry.org_index ≡ ok org
    pub name : List ℕ
    pub name_resolves : get_string_cp cp entry.name_index ≡ ok name
    pub version : List ℕ
    pub version_resolves : get_string_cp cp entry.version_index ≡ ok version

  pub record ModuleWire : Type 0 where
    pub id : ModuleName
    pub imports : List PackageWire
    -- The size of the imports in bytes fits into 32 bits.
    pub imports_fit : length imports * 12 < 2 ^ 31
    pub constants : Counted ConstantWire
    pub definitions : Counted DefinitionWire
    pub globals : Counted VarWire
    pub bodies : Counted TypeBodyWire
    pub functions : Counted (FunctionWire cp)

  unfoldable pub encode_module : ModuleWire → List ℕ
  encode_module w =
      to_be 4 w.id.index
      ++ (to_be 4 (length w.imports)
          ++ (concat_map encode_package_cp w.imports
              ++ (to_be 4 (count w.constants)
                  ++ (concat_map encode_constant w.constants.items
                      ++ (to_be 4 (count w.definitions)
                          ++ (concat_map encode_definition w.definitions.items
                              ++ (to_be 4 (count w.globals)
                                  ++ (concat_map encode_global_var w.globals.items
                                      ++ (to_be 4 (count w.bodies)
                                          ++ (concat_map encode_type_body w.bodies.items
                                              ++ (to_be 4 (count w.functions)
                                                  ++ concat_map (encode_function cp)
                                                      w.functions.items)))))))))))

  -- The functions that are not to be ignored.
  unfoldable pub kept_one : Bool → BirFunction → List BirFunction
  kept_one true f = []
  kept_one false f = f ∷ []

  unfoldable pub kept : List (FunctionWire cp) → List BirFunction
  kept ws =
      concat_map
        (λ (w : FunctionWire cp). kept_one (ignore_function w.name.text) (value_function cp w)) ws

  -- The source file of the last function that was read.
  unfoldable pub last_file : List ℕ → List (FunctionWire cp) → List ℕ
  last_file file [] = file
  last_file file (w ∷ ws) = last_file w.file.text ws

  unfoldable pub last_body_file : List ℕ → List TypeBodyWire → List ℕ
  last_body_file file [] = file
  last_body_file file (b ∷ bs) = last_body_file (last_file file b.attached.items) bs

  unfoldable pub value_module : ModuleWire → BirPackage
  value_module w = record {
    org = w.id.org;
    name = w.id.name;
    version = w.id.version;
    source_file_name = last_file (last_body_file [] w.bodies.items) w.functions.items;
    global_vars = map value_global_var w.globals.items;
    functions = kept w.functions.items;
  }
