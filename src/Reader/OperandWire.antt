-- ===== src/Reader/OperandWire.antt =====
-- The format of operands: references into the constant pool, which the pool resolves, and the bytes
-- of an operand, against `readOperand`.
use nballerina_cpp.Base.{ℕ, ◌≡◌, Bool, true, false, List, [], ◌∷◌, ◌++◌, ℤ, int32}
use nballerina_cpp.Bir.TypeTag.{TypeTag}
use nballerina_cpp.Bir.Types.{BalType}
use nballerina_cpp.Bir.Kinds.{to_var_kind, is_global}
use nballerina_cpp.Bir.Insn.{Operand}
use nballerina_cpp.Run.{ok}
use nballerina_cpp.Reader.Wire.{
  to_be, Parses, Parses-bind, Parses-bind_rest, Parses-lift, Parses-pure, Parses-last,
  Parses-read_u1, Parses-read_s4be,
}
use nballerina_cpp.Reader.Pool.Set.{ConstantPoolSet}
use nballerina_cpp.Reader.Pool.Lookup.{
  get_string_cp, get_int_cp, get_byte_cp, get_float_cp, get_type_cp, get_type_tag,
}
use nballerina_cpp.Reader.Insns.{string_at, read_global_part, read_operand}

module _ (cp : ConstantPoolSet) where
  -- Indices of the pool with what the pool has there.
  pub record StringRef : Type 0 where
    pub index : ℕ
    pub text : List ℕ
    pub resolves : get_string_cp cp (int32 index) ≡ ok text

  pub record IntRef : Type 0 where
    pub index : ℕ
    pub number : ℤ
    pub resolves : get_int_cp cp (int32 index) ≡ ok number

  pub record ByteRef : Type 0 where
    pub index : ℕ
    pub number : ℕ
    pub resolves : get_byte_cp cp (int32 index) ≡ ok number

  pub record FloatRef : Type 0 where
    pub index : ℕ
    pub pattern_bits : ℕ
    pub resolves : get_float_cp cp (int32 index) ≡ ok pattern_bits

  pub record TypeRef : Type 0 where
    pub index : ℕ
    pub type_of : BalType
    pub resolves : get_type_cp cp (int32 index) false ≡ ok type_of

  -- A type of which the tag alone is needed.
  pub record TagRef (tag : TypeTag) : Type 0 where
    pub index : ℕ
    pub resolves : get_type_tag cp (int32 index) ≡ ok tag

  -- What a global variable has behind its name: its package and its type.
  unfoldable pub GlobalWire : Bool → Type 0
  GlobalWire true = ℕ × TypeRef
  GlobalWire false = Unit {0}

  unfoldable pub encode_global : (b : Bool) → GlobalWire b → List ℕ
  unfolding GlobalWire
  encode_global true (pkg, t) = to_be 4 pkg ++ to_be 4 t.index
  encode_global false g = []

  pub record OperandWire : Type 0 where
    pub ignored_var : ℕ
    pub kind : ℕ
    pub scope : ℕ
    pub name : StringRef
    pub global : GlobalWire (is_global (to_var_kind kind))

  unfoldable pub encode_operand : OperandWire → List ℕ
  encode_operand w =
      (w.ignored_var ∷ [])
      ++ ((w.kind ∷ [])
          ++ ((w.scope ∷ [])
              ++ (to_be 4 w.name.index ++ encode_global (is_global (to_var_kind w.kind)) w.global)))

  unfoldable pub value_operand : OperandWire → Operand
  value_operand w = record { name = w.name.text; kind = to_var_kind w.kind }

  pub Parses-string_at : (r : StringRef) → Parses (string_at cp (int32 r.index)) [] r.text
  unfolding string_at
  Parses-string_at r = Parses-lift r.resolves

  Parses-global_part :
      (b : Bool) (g : GlobalWire b) → Parses (read_global_part cp b) (encode_global b g) tt
  unfolding read_global_part encode_global GlobalWire
  Parses-global_part true (pkg, t) =
      Parses-bind _ (Parses-read_s4be pkg)
        (Parses-bind_rest _ (Parses-read_s4be t.index) (Parses-last _ (Parses-lift t.resolves)))
  Parses-global_part false g = Parses-pure

  pub Parses-operand :
      (w : OperandWire) → Parses (read_operand cp) (encode_operand w) (value_operand w)
  unfolding read_operand encode_operand value_operand
  Parses-operand w = Parses-bind _ (Parses-read_u1 _) (
      Parses-bind _ (Parses-read_u1 _) (
        Parses-bind _ (Parses-read_u1 _) (
          Parses-bind _ (Parses-read_s4be _) (
            Parses-bind_rest _ (Parses-global_part _ w.global)
              (Parses-last _ (Parses-string_at w.name))))))
