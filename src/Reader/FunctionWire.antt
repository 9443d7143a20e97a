-- ===== src/Reader/FunctionWire.antt =====
-- The format of a function as data, in the order of the file.
use nballerina_cpp.Base.{
  ℕ, ◌%◌, ◌^◌, ◌<◌, ◌≡◌, Bool, true, false, Option, List, [], ◌∷◌, ◌++◌, map, length, concat_map,
  int32,
}
use nballerina_cpp.Bir.Kinds.{VarKind, local_var_kind, arg_var_kind, to_var_kind, is_arg}
use nballerina_cpp.Bir.Insn.{Operand}
use nballerina_cpp.Bir.Program.{new_location, Variable, FunctionParam, BirFunction}
use nballerina_cpp.Run.{ok}
use nballerina_cpp.Reader.Wire.{to_be, Counted, count, flag, encode_optional, value_optional}
use nballerina_cpp.Reader.Pool.Set.{ConstantPoolSet}
use nballerina_cpp.Reader.Pool.Lookup.{InvocableType, get_invocable_type}
use nballerina_cpp.Reader.OperandWire.{StringRef, TypeRef}
use nballerina_cpp.Reader.BlockRoundTrip.{BlockWire, encode_block, value_block}

-- What the file has behind the name of a variable of a kind.
unfoldable pub MetaOfVar : VarKind → Type 0
MetaOfVar arg_var_kind = ℕ
MetaOfVar local_var_kind = ℕ × ℕ × ℕ × ℕ
MetaOfVar _ = Unit {0}

unfoldable pub encode_var_meta : (k : VarKind) → MetaOfVar k → List ℕ
unfolding MetaOfVar
encode_var_meta arg_var_kind m = to_be 4 m
encode_var_meta local_var_kind (a, b, c, d) = to_be 4 a ++ (to_be 4 b ++ (to_be 4 c ++ to_be 4 d))
encode_var_meta _ m = []

unfoldable pub MetaOfArg : Bool → Type 0
MetaOfArg true = ℕ
MetaOfArg false = Unit {0}

unfoldable pub encode_arg_meta : (b : Bool) → MetaOfArg b → List ℕ
unfolding MetaOfArg
encode_arg_meta true m = to_be 4 m
encode_arg_meta false m = []

pub record ScopeWire : Type 0 where
  pub current : ℕ
  pub offset : ℕ
  pub parent : Option ℕ

unfoldable pub encode_scope : ScopeWire → List ℕ
encode_scope w =
    to_be 4 w.current
    ++ (to_be 4 w.offset ++ ((flag w.parent ∷ []) ++ encode_optional (to_be 4) w.parent))

pub record ReceiverWire : Type 0 where
  pub kind : ℕ
  pub type_index : ℕ
  pub name_index : ℕ

unfoldable pub encode_receiver : ReceiverWire → List ℕ
encode_receiver w = (w.kind ∷ []) ++ (to_be 4 w.type_index ++ to_be 4 w.name_index)

module _ (cp : ConstantPoolSet) where
  pub record LocalWire : Type 0 where
    pub kind : ℕ
    pub type_ref : TypeRef cp
    pub name : StringRef cp
    pub meta : MetaOfVar (to_var_kind kind)

  unfoldable pub encode_local : LocalWire → List ℕ
  encode_local w =
      (w.kind ∷ [])
      ++ (to_be 4 w.type_ref.index
          ++ (to_be 4 w.name.index ++ encode_var_meta (to_var_kind w.kind) w.meta))

  unfoldable pub value_local : LocalWire → Variable
  value_local w = record {
    type_of = w.type_ref.type_of;
    name = w.name.text;
    kind = to_var_kind w.kind;
  }

  pub record ReturnWire : Type 0 where
    pub kind : ℕ
    pub type_ref : TypeRef cp
    pub name : StringRef cp

  unfoldable pub encode_return : ReturnWire → List ℕ
  encode_return w = (w.kind ∷ []) ++ (to_be 4 w.type_ref.index ++ to_be 4 w.name.index)

  unfoldable pub value_return : ReturnWire → Variable
  value_return w = record {
    type_of = w.type_ref.type_of;
    name = w.name.text;
    kind = to_var_kind w.kind;
  }

  -- The name of a required parameter.
  pub record NameWire : Type 0 where
    pub name : StringRef cp
    pub flags : ℕ

  unfoldable pub encode_name : NameWire → List ℕ
  encode_name w = to_be 4 w.name.index ++ to_be 8 w.flags

  unfoldable pub value_name : NameWire → Operand
  value_name w = record { name = w.name.text; kind = arg_var_kind }

  -- A parameter: its name stands in the signature, its type and the blocks of its default value in
  -- the body.
  pub record ParamWire : Type 0 where
    pub named : NameWire
    pub kind : ℕ
    pub type_ref : TypeRef cp
    pub name_index : ℕ
    pub meta : MetaOfArg (is_arg (to_var_kind kind))
    pub has_default : ℕ
    pub defaults : Counted (BlockWire cp)

  unfoldable pub encode_param : ParamWire → List ℕ
  encode_param w =
      (w.kind ∷ [])
      ++ (to_be 4 w.type_ref.index
          ++ (to_be 4 w.name_index
              ++ (encode_arg_meta (is_arg (to_var_kind w.kind)) w.meta ++ (w.has_default ∷ []))))

  unfoldable pub encode_defaults : ParamWire → List ℕ
  encode_defaults w = to_be 4 (count w.defaults) ++ concat_map (encode_block cp) w.defaults.items

  unfoldable pub value_param : ParamWire → FunctionParam
  value_param w = record { operand = value_name w.named; type_of = w.type_ref.type_of }

  pub record FunctionWire : Type 0 where
    pub file : StringRef cp
    pub s_line : ℕ
    pub s_col : ℕ
    pub e_line : ℕ
    pub e_col : ℕ
    pub name : StringRef cp
    pub worker : StringRef cp
    pub flags : ℕ
    pub origin : ℕ
    pub type_index : ℕ
    pub type_of : InvocableType
    pub resolves : get_invocable_type cp (int32 type_index) ≡ ok type_of
    pub annotations : Counted ℕ
    pub params : Counted ParamWire
    -- The names that no parameter of the body takes.
    pub spare : List NameWire
    pub names_fit : length (map (λ (w : ParamWire). w.named) params.items ++ spare) < 2 ^ 31
    pub rest_param : Option ℕ
    pub receiver : Option ReceiverWire
    pub taint_table : Counted ℕ
    pub doc : Counted ℕ
    pub globals : Counted ℕ
    pub scope_length : ℕ
    pub scopes : Counted ScopeWire
    pub body_length : ℕ
    pub args_count : ℕ
    pub return_var : Option ReturnWire
    pub locals : Counted LocalWire
    pub blocks : Counted (BlockWire cp)
    pub error_entries : ℕ
    pub channels : ℕ

  unfoldable pub names : FunctionWire → Counted NameWire
  names w = record {
    items = map (λ (p : ParamWire). p.named) w.params.items ++ w.spare;
    fits = w.names_fit;
  }

  unfoldable pub encode_head : FunctionWire → List ℕ
  encode_head w =
      to_be 4 w.file.index
      ++ (to_be 4 w.s_line
          ++ (to_be 4 w.s_col
              ++ (to_be 4 w.e_line
                  ++ (to_be 4 w.e_col
                      ++ (to_be 4 w.name.index
                          ++ (to_be 4 w.worker.index
                              ++ (to_be 8 w.flags
                                  ++ ((w.origin ∷ []) ++ to_be 4 w.type_index))))))))

  unfoldable pub encode_signature : FunctionWire → List ℕ
  encode_signature w =
      to_be 8 (count w.annotations)
      ++ (w.annotations.items
          ++ (to_be 4 (count (names w))
              ++ (concat_map encode_name (names w).items
                  ++ ((flag w.rest_param ∷ [])
                      ++ (encode_optional (to_be 4) w.rest_param
                          ++ ((flag w.receiver ∷ [])
                              ++ (encode_optional encode_receiver w.receiver
                                  ++ (to_be 8 (count w.taint_table)
                                      ++ (w.taint_table.items
                                          ++ (to_be 4 (count w.doc)
                                              ++ (w.doc.items
                                                  ++ (to_be 4 (count w.globals)
                                                      ++ (concat_map (to_be 4) w.globals.items
                                                          ++ (to_be 8 w.scope_length
                                                            ++ (to_be 4 (count w.scopes)
                                                            ++ concat_map encode_scope
                                                            w.scopes.items)))))))))))))))

  unfoldable pub encode_function_body : FunctionWire → List ℕ
  encode_function_body w =
      to_be 8 w.body_length
      ++ (to_be 4 w.args_count
          ++ ((flag w.return_var ∷ [])
              ++ (encode_optional encode_return w.return_var
                  ++ (to_be 4 (count w.params)
                      ++ (concat_map encode_param w.params.items
                          ++ (to_be 4 (count w.locals)
                              ++ (concat_map encode_local w.locals.items
                                  ++ (concat_map encode_defaults w.params.items
                                      ++ (to_be 4 (count w.blocks)
                                          ++ (concat_map (encode_block cp) w.blocks.items
                                              ++ (to_be 4 w.error_entries
                                                  ++ to_be 4 w.channels)))))))))))

  unfoldable pub encode_function : FunctionWire → List ℕ
  encode_function w = encode_head w ++ (encode_signature w ++ encode_function_body w)

  -- The function, with its location as the code makes it, and no part of the default values.
  unfoldable pub value_function : FunctionWire → BirFunction
  value_function w = record {
    location =
        new_location w.file.text (int32 w.s_line) (int32 w.e_line) (int32 w.s_col) (int32 w.e_col);
    name = w.name.text;
    worker_name = w.worker.text;
    flags = w.flags % 2 ^ 32;
    return_var = value_optional value_return w.return_var;
    local_vars = map value_local w.locals.items;
    basic_blocks = map (value_block cp) w.blocks.items;
    required_params = map value_param w.params.items;
  }
