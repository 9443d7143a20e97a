-- ===== src/Codegen/Simulation/Translation.antt =====
-- compiler/codegen/FunctionCodeGen.cpp and BasicBlockCodeGen.cpp: the code of the blocks of a function.
use nballerina_cpp.Base.{
  ℕ, ◌≡◌, refl, sym, ap, subst, ◌∙◌, ◌≢◌, false, Option, some, List, [], ◌∷◌, All, weaken-All,
}
use nballerina_cpp.Bir.Insn.{Operand, TerminatorInsn, condition_br_insn, goto_insn, return_insn}
use nballerina_cpp.Bir.Program.{Variable, BasicBlock, BirFunction, BirPackage, is_main_function}
use nballerina_cpp.Bir.TypeTag.{TypeTag, type_tag_boolean}
use nballerina_cpp.Codegen.Flow.{
  Outcome, Flow, Keeps, IsSteady, reading, IsSteady-trans, FlowLawful,
}
use nballerina_cpp.Codegen.Function.{visit_block, translate_block}
use nballerina_cpp.Codegen.Gen.{◌>>=◌, ◌>>◌, each}
use nballerina_cpp.Codegen.Interpreter.{Env}
use nballerina_cpp.Codegen.Jumps.{Exit, run_block}
use nballerina_cpp.Codegen.Llvm.{Llvm}
use nballerina_cpp.Codegen.Scope.{FunctionCodeGen, get_basic_block, get_local_val}
use nballerina_cpp.Codegen.Simulation.Blocks.{TypedBy, weaken-TypedBy, each-steps}
use nballerina_cpp.Codegen.Simulation.Variables.{HasType, IsScope, Agrees}
use nballerina_cpp.Run.{Run, ok}
use nballerina_cpp.Codegen.Simulation.Branches.{IsKnown, Holds, Matches, HasBlocks, visit_end-Ended}
use nballerina_cpp.Codegen.Simulation.Defined.{IsDefined, steps-defined, run_block-some}

-- A block of instructions and a terminator that the interpreter knows, on operands for which `P` holds.
abbrev pub IsSound : List BasicBlock → (Operand → TypeTag → Type 0) → BasicBlock → Type 0
IsSound bbs P bb =
    All (TypedBy P) bb.instructions × All IsDefined bb.instructions × IsKnown bbs P bb.terminator

weaken-IsKnown :
    (bbs : List BasicBlock) (P Q : Operand → TypeTag → Type 0)
    → ((op : Operand) (t : TypeTag) → P op t → Q op t)
    → (t : Option TerminatorInsn) → IsKnown bbs P t
    → IsKnown bbs Q t
unfolding IsKnown
weaken-IsKnown bbs P Q f (some (condition_br_insn lhs then_id else_id)) (h, label, label') =
    (f lhs type_tag_boolean h, label, label')
weaken-IsKnown bbs P Q f (some (goto_insn id')) h = h
weaken-IsKnown bbs P Q f (some return_insn) h = tt
weaken-IsKnown bbs P Q f _ h = absurd h

pub weaken-IsSound :
    (bbs : List BasicBlock) (P Q : Operand → TypeTag → Type 0)
    → ((op : Operand) (t : TypeTag) → P op t → Q op t)
    → (bb : BasicBlock) → IsSound bbs P bb
    → IsSound bbs Q bb
weaken-IsSound bbs P Q f bb (typed, defined, known) = (
  weaken-All (TypedBy P) (TypedBy Q) (weaken-TypedBy P Q f) bb.instructions typed,
  defined,
  weaken-IsKnown bbs P Q f bb.terminator known,
)

module _ (L : Llvm) (F : Flow L) (laws : FlowLawful L F) (p : BirPackage) (f : BirFunction)
    (fg : FunctionCodeGen L) (bbs : List BasicBlock) where
  -- The code of the block `b` leaves it as the interpreter leaves `bb`, where that comes to its end.
  abbrev pub Implements : List ℕ → L.State → L.Block → BasicBlock → Type 0
  Implements ret s b bb =
      (μ : L.Value → Option ℕ) (env : Env)
      → Holds L F laws p f fg bbs μ env
      → (e : Exit) (env' : Env) → run_block ret bb env ≡ some (e, env')
      → (o : Outcome L) × (F.leaves s b μ ≡ some o) × Matches L F laws p f fg bbs e env' o

  pub some_block : (b c : L.Block) → some b ≡ some c → b ≡ c
  some_block b c h = cc

  same_state :
      (s s' : L.State) → ◌≡◌ {A = Run (Unit {0} × L.State)} (ok (tt, s)) (ok (tt, s')) → s ≡ s'
  same_state s s' h = cc

  -- The block of none of some labels.
  abbrev pub IsOther : List BasicBlock → L.Block → Type 0
  IsOther bs b = All (λ (bb : BasicBlock). get_basic_block L fg bb.id ≢ some b) bs

  -- Blocks that have no code yet, each with a block of its own.
  unfoldable pub Ready : L.State → List BasicBlock → Type 0
  Ready s [] = Unit {0}
  Ready s (bb ∷ bs) =
      (b : L.Block) × (get_basic_block L fg bb.id ≡ some b)
      × F.IsEmpty s b
      × IsOther bs b
      × Ready s bs

  pub Ready-Keeps :
      (bs : List BasicBlock) (s s' : L.State) (b : L.Block)
      → ((c : L.Block) → b ≢ c → Keeps L F s s' c)
      → IsOther bs b
      → Ready s bs
      → Ready s' bs
  unfolding Ready
  Ready-Keeps [] s s' b keeps others ready = tt
  Ready-Keeps (bb ∷ bs) s s' b keeps (other, others) (c, at, empty, apart, ready) = (
    c,
    at,
    (keeps c λ same. other (at ∙ ap some (sym same))).1 empty,
    apart,
    Ready-Keeps bs s s' b keeps others ready,
  )

  different :
      (b c : L.Block) (id' : List ℕ)
      → get_basic_block L fg id' ≡ some b
      → get_basic_block L fg id' ≢ some c
      → b ≢ c
  different b c id' at other same = other (at ∙ ap some same)

  pub other_point :
      (s : L.State) (b c : L.Block) → F.insert_block s ≡ some b → b ≢ c → F.insert_block s ≢ some c
  other_point s b c at apart same = apart (some_block b c (sym at ∙ same))

  module _ (blocks : HasBlocks L F laws p f fg bbs)
      (scope : IsScope L (reading L F λ q. some 0) (laws.instructions λ q. some 0) p f fg)
      (v : Variable) (q : L.Value) (w : ℕ) (main : is_main_function f ≡ false)
      (var : f.return_var ≡ some v) (at_q : get_local_val L fg v.name ≡ some q)
      (slot : F.IsSlot w q) where
    abbrev Sound : BasicBlock → Type 0
    Sound =
        IsSound bbs (HasType L (reading L F λ q'. some 0) (laws.instructions λ q'. some 0) p f fg)

    visit_block-Implements :
        (bb : BasicBlock) (b : L.Block) (s : L.State)
        → F.insert_block s ≡ some b
        → ((μ : L.Value → Option ℕ) (x : ℕ) (q' : L.Value)
            → F.IsSlot x q'
            → F.contents μ s q' ≡ μ q')
        → Sound bb
        → (s' : L.State) × (visit_block L p f fg bb s ≡ ok (tt, s'))
          × IsSteady L F s s'
          × Implements v.name s' b bb
    unfolding visit_block
    visit_block-Implements bb b s at fresh (typed, defined, known) =
        let μ0 : L.Value → Option ℕ = λ q'. some 0 in
        let R = reading L F μ0 in
        let zeros : Env = λ n. some 0 in
        let (env0, stepped0) = steps-defined bb.instructions zeros defined (λ n. (0, refl)) in
        let (s1, visited, agrees0, steady) =
          each-steps L R (laws.instructions μ0) p f fg scope bb.instructions s zeros env0 typed
            stepped0
            (λ n q' at' x known.
              let (w', slot') = scope.0 n q' at' in fresh μ0 w' q' slot' ∙ known) in
        let (s', ended, steady', left) =
          visit_end-Ended L F laws p f fg bbs blocks bb.terminator v q w s1 b (steady.0 ∙ at) main
            var at_q slot known in
        (
          s',
          rw (visited, ◌>>=◌, ◌>>◌) ended,
          IsSteady-trans L F s s1 s' steady steady',
          λ μ env holds e env' ran.
              let (stepped, leaving) = run_block-some v.name bb env env' e ran in
              let (s2, visited', agrees, steady2) =
                each-steps L (reading L F μ) (laws.instructions μ) p f fg scope bb.instructions s
                  env env' typed stepped
                  (λ n q' at' x known'.
                    let (w', slot') = scope.0 n q' at' in
                    fresh μ w' q' slot' ∙ holds n q' at' x known') in
              let same = same_state s2 s1 (sym visited' ∙ visited) in
              left μ env'
                (subst (λ t. Agrees L (reading L F μ) (laws.instructions μ) p f fg t env') same
                  agrees)
                e leaving,
        )

    -- The block of a label that has been translated.
    abbrev pub IsDone : L.State → BasicBlock → Type 0
    IsDone s bb = (b : L.Block) × (get_basic_block L fg bb.id ≡ some b) × Implements v.name s b bb

    -- The first block of several.
    translate_block-Implements :
        (bb : BasicBlock) (b : L.Block) (s : L.State)
        → get_basic_block L fg bb.id ≡ some b
        → F.IsEmpty s b
        → Sound bb
        → (s' : L.State) × (translate_block L p f fg bb s ≡ ok (tt, s'))
          × ((c : L.Block) → b ≢ c → Keeps L F s s' c)
          × Implements v.name s' b bb
    unfolding translate_block
    translate_block-Implements bb b s at empty sound =
        let s1 = L.set_insert_point b s in
        let (entered, stays, live) = laws.enter_block s b in
        let (s', visited, (same, keeps), implements) =
          visit_block-Implements bb b s1 entered
            (λ μ x q' slot'. laws.enter_empty μ s b x q' empty slot') sound in
        (
          s',
          rw (at, ◌>>=◌, ◌>>◌, visited) refl,
          λ c apart.
              let (left, fresh) = stays c in
              let (left', fresh') = keeps c (other_point s1 b c entered apart) in
              (λ μ. left' μ ∙ left μ, λ h. fresh' (fresh h)),
          implements,
        )

    -- All the blocks: the code of each is there at the end, and other blocks are as they were.
    pub each-translate :
        (bs : List BasicBlock) (s : L.State)
        → Ready s bs
        → All Sound bs
        → (s' : L.State) × (each bs (translate_block L p f fg) s ≡ ok (tt, s'))
          × All (IsDone s') bs
          × ((c : L.Block)
              → IsOther bs c
              → (μ : L.Value → Option ℕ) → F.leaves s' c μ ≡ F.leaves s c μ)
    unfolding each Ready
    each-translate [] s ready sound = (s, refl, tt, λ c others μ. refl)
    each-translate (bb ∷ bs) s (b, at, empty, others, ready) (sound, sounds) =
        let (s1, translated, keeps, implements) =
          translate_block-Implements bb b s at empty sound in
        let (s', rest, done, stays) =
          each-translate bs s1 (Ready-Keeps bs s s1 b keeps others ready) sounds in
        (
          s',
          rw (translated, ◌>>◌, ◌>>=◌) rest,
          (
            (
              b,
              at,
              λ μ env holds e env' ran.
                  let (o, left, matches) = implements μ env holds e env' ran in
                  (o, stays b others μ ∙ left, matches),
            ),
            done,
          ),
          λ c (other, others') μ. stays c others' μ ∙ (keeps c (different b c bb.id at other)).0 μ,
        )
