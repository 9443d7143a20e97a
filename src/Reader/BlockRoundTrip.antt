-- ===== src/Reader/BlockRoundTrip.antt =====
-- compiler/reader/BIRReadBasicBlock.cpp against the format of a basic block.
use nballerina_cpp.Base.{
  ℕ, ◌≡◌, refl, sym, Option, none, some, List, [], ◌∷◌, ◌++◌, map, append_assoc, append-nil, length,
  concat_map,
}
use nballerina_cpp.Bir.Insn.{NonTerminatorInsn, TerminatorInsn}
use nballerina_cpp.Bir.Program.{BasicBlock, new_basic_block, set_terminator_insn, add_non_term_insn}
use nballerina_cpp.Run.{ok}
use nballerina_cpp.Reader.Stream.{good}
use nballerina_cpp.Reader.Monad.{iterate}
use nballerina_cpp.Reader.Wire.{
  to_be, Parses, Parses-bind, Parses-pure, Parses-read_u1, Parses-read_s4be, rounds-int32,
  Parses-reserve, Counted, count,
}
use nballerina_cpp.Reader.Pool.Set.{ConstantPoolSet}
use nballerina_cpp.Reader.OperandWire.{StringRef, Parses-string_at}
use nballerina_cpp.Reader.Block.{read_insn, read_basic_block}
use nballerina_cpp.Reader.InsnWire.{
  InsnValue, inner, ends, dropped, InsnWire, insn_number, encode_insn_body, value_insn,
}
use nballerina_cpp.Reader.InsnParses.{place, Parses-insn_body}

-- The instructions that stay inside a block, in their order.
unfoldable pub inner_insns : List InsnValue → List NonTerminatorInsn
inner_insns [] = []
inner_insns (inner n ∷ vs) = n ∷ inner_insns vs
inner_insns (ends t ∷ vs) = inner_insns vs
inner_insns (dropped ∷ vs) = inner_insns vs

-- The last of the terminators, or the given one where there is none.
unfoldable pub last_terminator : Option TerminatorInsn → List InsnValue → Option TerminatorInsn
last_terminator before [] = before
last_terminator before (inner n ∷ vs) = last_terminator before vs
last_terminator before (ends t ∷ vs) = last_terminator (some t) vs
last_terminator before (dropped ∷ vs) = last_terminator before vs

-- The block with further instructions behind what it has.
unfoldable pub extend : BasicBlock → List InsnValue → BasicBlock
extend bb vs = record bb {
  terminator = last_terminator bb.terminator vs;
  instructions = bb.instructions ++ inner_insns vs;
}

extend-nil : (bb : BasicBlock) → extend bb [] ≡ bb
unfolding extend inner_insns last_terminator
extend-nil bb = rw append-nil refl

extend-place :
    (bb : BasicBlock) (v : InsnValue) (vs : List InsnValue)
    → extend (place v bb) vs ≡ extend bb (v ∷ vs)
unfolding extend inner_insns last_terminator place add_non_term_insn set_terminator_insn
extend-place bb (inner n) vs = rw append_assoc refl
extend-place bb (ends t) vs = refl
extend-place bb dropped vs = refl

module _ (cp : ConstantPoolSet) where
  -- An instruction with its position.
  pub record PlacedWire : Type 0 where
    pub file : StringRef cp
    pub s_line : ℕ
    pub s_col : ℕ
    pub e_line : ℕ
    pub e_col : ℕ
    pub insn : InsnWire cp

  unfoldable pub encode_insn : PlacedWire → List ℕ
  encode_insn w =
      to_be 4 w.file.index
      ++ (to_be 4 w.s_line
          ++ (to_be 4 w.s_col
              ++ (to_be 4 w.e_line
                  ++ (to_be 4 w.e_col
                      ++ ((insn_number cp w.insn ∷ []) ++ encode_insn_body cp w.insn)))))

  unfoldable pub value_placed : PlacedWire → InsnValue
  value_placed w = value_insn cp w.insn

  Parses-insn :
      (w : PlacedWire) (bb : BasicBlock)
      → Parses (read_insn cp bb) (encode_insn w) (place (value_placed w) bb)
  unfolding read_insn encode_insn value_placed
  Parses-insn w bb = Parses-bind _ (Parses-read_s4be _) (
      Parses-bind _ (Parses-read_s4be _) (
        Parses-bind _ (Parses-read_s4be _) (
          Parses-bind _ (Parses-read_s4be _) (
            Parses-bind _ (Parses-read_s4be _) (
              Parses-bind _ (Parses-string_at cp w.file)
                (Parses-bind _ (Parses-read_u1 _) (Parses-insn_body cp w.insn bb)))))))

  Parses-insns :
      (ws : List PlacedWire) (bb : BasicBlock)
      → Parses
          (iterate (length ws) (read_insn cp) bb)
          (concat_map encode_insn ws)
          (extend bb (map value_placed ws))
  unfolding iterate concat_map
  Parses-insns [] bb = rw (extend-nil bb) Parses-pure
  Parses-insns (w ∷ ws) bb =
      rw (sym (extend-place bb (value_placed w) (map value_placed ws)))
        (Parses-bind _ (Parses-insn w bb) (Parses-insns ws (place (value_placed w) bb)))

  pub record BlockWire : Type 0 where
    pub name : StringRef cp
    pub insns : Counted PlacedWire

  unfoldable pub encode_block : BlockWire → List ℕ
  encode_block w =
      to_be 4 w.name.index ++ (to_be 4 (count w.insns) ++ concat_map encode_insn w.insns.items)

  -- The block has the instructions in their order and the last terminator.
  unfoldable pub value_block : BlockWire → BasicBlock
  value_block w = record {
    id = w.name.text;
    terminator = last_terminator none (map value_placed w.insns.items);
    instructions = inner_insns (map value_placed w.insns.items);
  }

  pub Parses-block : (w : BlockWire) → Parses (read_basic_block cp) (encode_block w) (value_block w)
  unfolding read_basic_block encode_block value_block extend new_basic_block
  Parses-block w = Parses-bind _ (Parses-read_s4be _) (
      Parses-bind _ (Parses-string_at cp w.name) (
        Parses-bind _ (Parses-read_s4be _) (
          Parses-bind _ (Parses-reserve (count w.insns) w.insns.fits) (
            rw (rounds-int32 (count w.insns) w.insns.fits)
              (Parses-insns w.insns.items (new_basic_block w.name.text))))))

  -- Reading back a basic block: on the encoding of any block of instructions of the kinds that the
  -- reader supports, whose references the constant pool resolves and whose counts are less than
  -- 2 ^ 31, whatever bytes follow it, `readBasicBlock` ends normally, consumes
  -- exactly the encoding, and returns the block with its instructions in their order and the last
  -- terminator.
  pub read_basic_block-encode_block :
      (w : BlockWire) (rest : List ℕ)
      → read_basic_block cp (good (encode_block w ++ rest)) ≡ ok (value_block w, good rest)
  read_basic_block-encode_block w rest = (Parses-block w).run rest
