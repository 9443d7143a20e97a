-- ===== src/Reader/InsnParses.antt =====
-- The read methods of BIRReadInsns.cpp on the format of the instructions.
use nballerina_cpp.Base.{suc, ◌≡◌, Option, none, some, ◌++◌, int32}
use nballerina_cpp.Run.{ok}
use nballerina_cpp.Reader.Monad.{pure, ◌>>=◌}
use nballerina_cpp.Reader.Pool.Lookup.{get_type_tag}
use nballerina_cpp.Bir.TypeTag.{
  TypeTag, type_tag_int, type_tag_byte, type_tag_float, type_tag_string, type_tag_boolean,
  type_tag_nil, type_tag_char_string,
}
use nballerina_cpp.Bir.Kinds.{to_instruction_kind}
use nballerina_cpp.Bir.Insn.{
  Operand, int_value, constant_load_insn, binary_op_insn, int_const_load, byte_const_load,
  float_const_load, bool_const_load, string_const_load, null_const_load,
}
use nballerina_cpp.Bir.Program.{BasicBlock, set_terminator_insn, add_non_term_insn}
use nballerina_cpp.Reader.Wire.{
  to_be, Parses, Parses-bind, Parses-pure, Parses-last, Parses-bind_rest, Parses-lift,
  Parses-read_u1, Parses-read_s4be, Parses-loop, Parses-vector, flag, encode_optional,
}
use nballerina_cpp.Reader.Pool.Set.{ConstantPoolSet}
use nballerina_cpp.Reader.OperandWire.{
  IntRef, OperandWire, encode_operand, value_operand, Parses-string_at, Parses-operand,
}
use nballerina_cpp.Reader.Insns.{
  read_operand, read_map_construct_body, read_map_constructor, read_type_desc_insn,
  read_structure_insn, read_int_const, read_const_value, read_const_load_insn, read_unary_insn,
  read_binary_insn, read_cond_br_insn, read_move_insn, read_lhs, read_func_call_insn,
  read_type_cast_insn, read_type_test_insn, read_array_insn, read_access, read_array_store_insn,
  read_map_store_insn, read_array_load_insn, read_map_load_insn, read_go_to_insn, read_return_insn,
}
use nballerina_cpp.Reader.Block.{read_insn_body}
use nballerina_cpp.Reader.InsnWire.{
  BinaryKind, binary_add, binary_sub, binary_mul, binary_div, binary_mod, binary_equal,
  binary_not_equal, binary_greater_than, binary_greater_equal, binary_less_than, binary_less_equal,
  binary_bitwise_xor, binary_number, binary_kind, IntegerType, plain_int, unsigned8, unsigned16,
  unsigned32, signed8, signed16, signed32, decimal, integer_tag, InsnValue, inner, ends, dropped,
  ConstructWire, spread_wire, key_value_wire, encode_construct, value_construct, ConstWire,
  integer_wire, byte_wire, boolean_wire, float_wire, string_wire, char_string_wire, nil_wire,
  const_type, encode_const, value_const, CallWire, encode_call, value_lhs, value_call, InsnWire,
  type_desc_wire, structure_wire, const_load_wire, neg_wire, not_wire, binary_wire, cond_br_wire,
  move_wire, call_wire, type_cast_wire, type_test_wire, array_wire, array_store_wire,
  array_load_wire, map_store_wire, map_load_wire, go_to_wire, return_wire, insn_number,
  encode_access, encode_insn_body, value_insn,
}

-- What an instruction does to the block that it is read into.
unfoldable pub place : InsnValue → BasicBlock → BasicBlock
place (inner n) bb = add_non_term_insn n bb
place (ends t) bb = set_terminator_insn t bb
place dropped bb = bb

module _ (cp : ConstantPoolSet) where
  Parses-construct :
      (w : ConstructWire cp)
      → Parses (read_map_constructor cp) (encode_construct cp w) (value_construct cp w)
  unfolding read_map_constructor encode_construct value_construct read_map_construct_body
  Parses-construct (spread_wire e) =
      Parses-bind _ (Parses-read_u1 0) (Parses-last _ (Parses-operand cp e))
  Parses-construct (key_value_wire k key value) =
      Parses-bind _ (Parses-read_u1 (suc k))
        (Parses-bind _ (Parses-operand cp key) (Parses-last _ (Parses-operand cp value)))

  Parses-integer :
      (lhs : Operand) (v : IntRef cp)
      → Parses
          (read_int_const cp lhs)
          (to_be 4 v.index)
          (constant_load_insn lhs type_tag_int (int_value v.number))
  unfolding read_int_const int_const_load
  Parses-integer lhs v =
      Parses-bind_rest _ (Parses-read_s4be v.index) (Parses-last _ (Parses-lift v.resolves))

  Parses-integer_type :
      (t : IntegerType) (lhs : Operand) (v : IntRef cp)
      → Parses
          (read_const_value cp (integer_tag t) lhs)
          (to_be 4 v.index)
          (constant_load_insn lhs type_tag_int (int_value v.number))
  unfolding read_const_value integer_tag
  Parses-integer_type plain_int lhs v = Parses-integer lhs v
  Parses-integer_type unsigned8 lhs v = Parses-integer lhs v
  Parses-integer_type unsigned16 lhs v = Parses-integer lhs v
  Parses-integer_type unsigned32 lhs v = Parses-integer lhs v
  Parses-integer_type signed8 lhs v = Parses-integer lhs v
  Parses-integer_type signed16 lhs v = Parses-integer lhs v
  Parses-integer_type signed32 lhs v = Parses-integer lhs v
  Parses-integer_type decimal lhs v = Parses-integer lhs v

  const_tag : ConstWire cp → TypeTag
  const_tag (integer_wire t r v) = integer_tag t
  const_tag (byte_wire r v) = type_tag_byte
  const_tag (boolean_wire r v) = type_tag_boolean
  const_tag (float_wire r v) = type_tag_float
  const_tag (string_wire r v) = type_tag_string
  const_tag (char_string_wire r v) = type_tag_char_string
  const_tag (nil_wire r) = type_tag_nil

  const_resolves : (c : ConstWire cp) → get_type_tag cp (int32 (const_type cp c)) ≡ ok (const_tag c)
  unfolding const_type const_tag
  const_resolves (integer_wire t r v) = r.resolves
  const_resolves (byte_wire r v) = r.resolves
  const_resolves (boolean_wire r v) = r.resolves
  const_resolves (float_wire r v) = r.resolves
  const_resolves (string_wire r v) = r.resolves
  const_resolves (char_string_wire r v) = r.resolves
  const_resolves (nil_wire r) = r.resolves

  Parses-const :
      (lhs : Operand) (c : ConstWire cp)
      → Parses (read_const_value cp (const_tag c) lhs) (encode_const cp c) (value_const cp lhs c)
  unfolding const_tag encode_const value_const read_const_value byte_const_load float_const_load
      bool_const_load string_const_load null_const_load
  Parses-const lhs (integer_wire t r v) = Parses-integer_type t lhs v
  Parses-const lhs (byte_wire r v) =
      Parses-bind_rest _ (Parses-read_s4be v.index) (Parses-last _ (Parses-lift v.resolves))
  Parses-const lhs (boolean_wire r v) = Parses-last _ (Parses-read_u1 v)
  Parses-const lhs (float_wire r v) =
      Parses-bind_rest _ (Parses-read_s4be v.index) (Parses-last _ (Parses-lift v.resolves))
  Parses-const lhs (string_wire r v) =
      Parses-bind_rest _ (Parses-read_s4be v.index) (Parses-last _ (Parses-string_at cp v))
  Parses-const lhs (char_string_wire r v) =
      Parses-bind_rest _ (Parses-read_s4be v.index) (Parses-last _ (Parses-string_at cp v))
  Parses-const lhs (nil_wire r) = Parses-pure

  Parses-lhs :
      (o : Option (OperandWire cp))
      → Parses (read_lhs cp (flag o)) (encode_optional (encode_operand cp) o) (value_lhs cp o)
  unfolding read_lhs value_lhs
  Parses-lhs none = Parses-pure
  Parses-lhs (some w) = Parses-operand cp w

  Parses-call :
      (w : CallWire cp) (bb : BasicBlock)
      → Parses
          (read_func_call_insn cp bb)
          (encode_call cp w)
          (set_terminator_insn (value_call cp w) bb)
  unfolding read_func_call_insn encode_call value_call
  Parses-call w bb = Parses-bind _ (Parses-read_u1 _) (
      Parses-bind _ (Parses-read_s4be _) (
        Parses-bind _ (Parses-read_s4be _) (
          Parses-bind _ (Parses-string_at cp w.callee) (
            Parses-bind _ (Parses-read_s4be _) (
              Parses-bind _ (Parses-vector _ _ _ w.arguments (Parses-operand cp)) (
                Parses-bind _ (Parses-read_u1 _) (
                  Parses-bind _ (Parses-lhs w.lhs) (
                    Parses-bind_rest _ (Parses-read_s4be _)
                      (Parses-last _ (Parses-string_at cp w.then_block))))))))))

  Parses-two :
      {A : Type 0} (f : Operand → Operand → A) (a b : OperandWire cp)
      → Parses
          (read_operand cp >>= λ x. read_operand cp >>= λ y. pure (f x y))
          (encode_operand cp a ++ encode_operand cp b)
          (f (value_operand cp a) (value_operand cp b))
  Parses-two f a b = Parses-bind _ (Parses-operand cp a) (Parses-last _ (Parses-operand cp b))

  Parses-three :
      {A : Type 0} (f : Operand → Operand → Operand → A) (a b c : OperandWire cp)
      → Parses
          (read_operand cp >>= λ x.
            read_operand cp >>= λ y. read_operand cp >>= λ z. pure (f x y z))
          (encode_access cp a b c)
          (f (value_operand cp a) (value_operand cp b) (value_operand cp c))
  unfolding encode_access
  Parses-three f a b c = Parses-bind _ (Parses-operand cp a) (Parses-two _ b c)

  Parses-binary :
      (k : BinaryKind) (a b c : OperandWire cp) (bb : BasicBlock)
      → Parses
          (read_insn_body cp (to_instruction_kind (binary_number k)) bb)
          (encode_access cp a b c)
          (add_non_term_insn
            (binary_op_insn
              (value_operand cp c)
              (value_operand cp a)
              (value_operand cp b)
              (binary_kind k))
            bb)
  unfolding read_insn_body to_instruction_kind binary_number binary_kind read_binary_insn
  Parses-binary binary_add a b c bb = Parses-three _ a b c
  Parses-binary binary_sub a b c bb = Parses-three _ a b c
  Parses-binary binary_mul a b c bb = Parses-three _ a b c
  Parses-binary binary_div a b c bb = Parses-three _ a b c
  Parses-binary binary_mod a b c bb = Parses-three _ a b c
  Parses-binary binary_equal a b c bb = Parses-three _ a b c
  Parses-binary binary_not_equal a b c bb = Parses-three _ a b c
  Parses-binary binary_greater_than a b c bb = Parses-three _ a b c
  Parses-binary binary_greater_equal a b c bb = Parses-three _ a b c
  Parses-binary binary_less_than a b c bb = Parses-three _ a b c
  Parses-binary binary_less_equal a b c bb = Parses-three _ a b c
  Parses-binary binary_bitwise_xor a b c bb = Parses-three _ a b c

  pub Parses-insn_body :
      (w : InsnWire cp) (bb : BasicBlock)
      → Parses
          (read_insn_body cp (to_instruction_kind (insn_number cp w)) bb)
          (encode_insn_body cp w)
          (place (value_insn cp w) bb)
  unfolding place read_insn_body to_instruction_kind insn_number encode_insn_body value_insn
      read_type_desc_insn read_structure_insn read_const_load_insn read_unary_insn read_cond_br_insn
      read_move_insn read_type_cast_insn read_type_test_insn read_array_insn read_array_store_insn
      read_array_load_insn read_map_store_insn read_map_load_insn read_access read_go_to_insn
      read_return_insn
  Parses-insn_body (type_desc_wire l t) bb =
      Parses-bind _ (Parses-operand cp l) (Parses-last _ (Parses-read_s4be t))
  Parses-insn_body (structure_wire r l cs) bb = Parses-bind _ (Parses-operand cp r) (
      Parses-bind _ (Parses-operand cp l) (
        Parses-bind _ (Parses-read_s4be _)
          (Parses-last _ (Parses-vector _ _ _ cs Parses-construct))))
  Parses-insn_body (const_load_wire l c) bb = Parses-bind _ (Parses-read_s4be _) (
      Parses-bind _ (Parses-operand cp l)
        (Parses-bind _ (Parses-lift (const_resolves c)) (Parses-last _ (Parses-const _ c))))
  Parses-insn_body (neg_wire r l) bb = Parses-two _ r l
  Parses-insn_body (not_wire r l) bb = Parses-two _ r l
  Parses-insn_body (binary_wire k r s l) bb = Parses-binary k r s l bb
  Parses-insn_body (cond_br_wire l a b) bb = Parses-bind _ (Parses-operand cp l) (
      Parses-bind _ (Parses-read_s4be _) (
        Parses-bind_rest _ (Parses-read_s4be _)
          (Parses-bind _ (Parses-string_at cp a) (Parses-last _ (Parses-string_at cp b)))))
  Parses-insn_body (move_wire r l) bb = Parses-two _ r l
  Parses-insn_body (call_wire c) bb = Parses-call c bb
  Parses-insn_body (type_cast_wire l r t c) bb = Parses-bind _ (Parses-operand cp l) (
      Parses-bind _ (Parses-operand cp r) (
        Parses-bind _ (Parses-read_s4be _)
          (Parses-bind _ (Parses-lift t.resolves) (Parses-last _ (Parses-read_u1 c)))))
  Parses-insn_body (type_test_wire t l r) bb =
      Parses-bind _ (Parses-read_s4be _) (Parses-bind _ (Parses-lift t.resolves) (Parses-two _ l r))
  Parses-insn_body (array_wire t l s vs) bb = Parses-bind _ (Parses-read_s4be _) (
      Parses-bind _ (Parses-lift t.resolves) (
        Parses-bind _ (Parses-operand cp l) (
          Parses-bind _ (Parses-operand cp s) (
            Parses-bind _ (Parses-read_s4be _)
              (Parses-last _ (Parses-loop _ _ _ vs (Parses-operand cp)))))))
  Parses-insn_body (array_store_wire l k r) bb = Parses-three _ l k r
  Parses-insn_body (array_load_wire a b l k r) bb =
      Parses-bind _ (Parses-read_u1 a) (Parses-bind _ (Parses-read_u1 b) (Parses-three _ l k r))
  Parses-insn_body (map_store_wire l k r) bb = Parses-three _ l k r
  Parses-insn_body (map_load_wire a b l k r) bb =
      Parses-bind _ (Parses-read_u1 a) (Parses-bind _ (Parses-read_u1 b) (Parses-three _ l k r))
  Parses-insn_body (go_to_wire b) bb =
      Parses-bind_rest _ (Parses-read_s4be _) (Parses-last _ (Parses-string_at cp b))
  Parses-insn_body return_wire bb = Parses-pure
