-- ===== src/Codegen/Simulation/Branches.antt =====
-- compiler/codegen/TerminatorInsnCodeGen.cpp: the code of branches and returns.
use nballerina_cpp.Base.{
  ℕ, ◌≡◌, refl, ap, subst, ◌∙◌, Bool, true, false, Option, none, some, List, ◌++◌, ◌==◌,
  if◌then◌else◌, codes,
}
use nballerina_cpp.Bir.TypeTag.{TypeTag, type_tag_boolean}
use nballerina_cpp.Bir.Insn.{Operand, TerminatorInsn, condition_br_insn, goto_insn, return_insn}
use nballerina_cpp.Bir.Program.{Variable, BasicBlock, BirFunction, BirPackage, is_main_function}
use nballerina_cpp.Run.{ok}
use nballerina_cpp.Codegen.Llvm.{Llvm}
use nballerina_cpp.Codegen.Gen.{◌>>=◌, ◌>>◌}
use nballerina_cpp.Codegen.Scope.{FunctionCodeGen, get_basic_block, get_local_val}
use nballerina_cpp.Codegen.Terminators.{visit_condition_br, visit_go_to, visit_terminator}
use nballerina_cpp.Codegen.Function.{visit_end}
use nballerina_cpp.Codegen.Interpreter.{width_of, Env}
use nballerina_cpp.Codegen.Jumps.{Exit, jump, result, branch, give, leave, find_block}
use nballerina_cpp.Codegen.Flow.{
  Outcome, goes, returns, not_null, Flow, IsSteady, reading, IsSteady-trans, FlowLawful,
}
use nballerina_cpp.Codegen.Labels.{target_block-ok}
use nballerina_cpp.Codegen.Simulation.Variables.{HasType, Agrees, temp_val}
use nballerina_cpp.Codegen.Simulation.Blocks.{visit_return-ok}

-- The label is one of a function's blocks.
abbrev pub IsLabel : List BasicBlock → List ℕ → Type 0
IsLabel bbs id' = (bb : BasicBlock) × (find_block id' bbs ≡ some bb)

-- The terminators that the interpreter knows, with labels of the function, and a condition for which
-- `P` holds.
unfoldable pub IsKnown :
    List BasicBlock → (Operand → TypeTag → Type 0) → Option TerminatorInsn → Type 0
IsKnown bbs P (some (condition_br_insn lhs then_id else_id)) =
    P lhs type_tag_boolean × IsLabel bbs then_id × IsLabel bbs else_id
IsKnown bbs P (some (goto_insn id')) = IsLabel bbs id'
IsKnown bbs P (some return_insn) = Unit {0}
IsKnown bbs P _ = ⊥

exit_injective : (e e' : Exit) → some e ≡ some e' → e ≡ e'
exit_injective e e' h = cc

branch-some :
    (m : Option ℕ) (then_id else_id : List ℕ) (e : Exit)
    → branch m then_id else_id ≡ some e
    → (x : ℕ) × (m ≡ some x) × (jump (if x == 0 then else_id else then_id) ≡ e)
unfolding branch
branch-some none then_id else_id e h = cc
branch-some (some x) then_id else_id e h = (x, refl, exit_injective _ e h)

give-some : (m : Option ℕ) (e : Exit) → give m ≡ some e → (x : ℕ) × (m ≡ some x) × (result x ≡ e)
unfolding give
give-some none e h = cc
give-some (some x) e h = (x, refl, exit_injective _ e h)

bit_test : (c : Bool) → ((if c then 0 else 1) == 0) ≡ c
bit_test true = refl
bit_test false = refl

module _ (L : Llvm) (F : Flow L) (laws : FlowLawful L F) (p : BirPackage) (f : BirFunction)
    (fg : FunctionCodeGen L) (bbs : List BasicBlock) where
  -- The memory at the start of a block holds the values of the variables.
  abbrev pub Holds : (L.Value → Option ℕ) → Env → Type 0
  Holds μ env =
      (n : List ℕ) (q : L.Value)
      → get_local_val L fg n ≡ some q
      → (x : ℕ) → env n ≡ some x
      → μ q ≡ some x

  -- The code of every label, and the code leaves a block for where the interpreter does.
  abbrev pub Matches : Exit → Env → Outcome L → Type 0
  Matches (jump id') env (goes b μ) =
      (get_basic_block L fg id' ≡ some b) × IsLabel bbs id' × Holds μ env
  Matches (result x) env (returns y) = x ≡ y
  Matches _ env _ = ⊥

  abbrev pub Leaves :
      L.State → L.Block → (L.Value → Option ℕ) → List ℕ → Option TerminatorInsn → Env → Type 0
  Leaves s b μ ret t env =
      (e : Exit)
      → leave ret t env ≡ some e
      → (o : Outcome L) × (F.leaves s b μ ≡ some o) × Matches e env o

  -- Every label has a block.
  abbrev pub HasBlocks : Type 0
  HasBlocks = (id' : List ℕ) → IsLabel bbs id' → (b : L.Block) × (get_basic_block L fg id' ≡ some b)

  abbrev Typed : Operand → TypeTag → Type 0
  Typed = HasType L (reading L F λ q. some 0) (laws.instructions λ q. some 0) p f fg

  -- The code of a terminator at the end of the block `b`.
  abbrev pub Ended : Option TerminatorInsn → List ℕ → L.State → L.Block → Type 0
  Ended t ret s b =
      (s' : L.State) × (visit_end L p f fg t s ≡ ok (tt, s'))
      × IsSteady L F s s'
      × ((μ : L.Value → Option ℕ) (env : Env)
          → Agrees L (reading L F μ) (laws.instructions μ) p f fg s env
          → Leaves s' b μ ret t env)

  to_exit :
      (s : L.State) (b : L.Block) (μ : L.Value → Option ℕ) (env : Env) (e e' : Exit)
      → e ≡ e'
      → (o : Outcome L) → F.leaves s b μ ≡ some o
      → Matches e env o
      → (o : Outcome L) × (F.leaves s b μ ≡ some o) × Matches e' env o
  to_exit s b μ env e e' same o left matches =
      subst (λ z. (o : Outcome L) × (F.leaves s b μ ≡ some o) × Matches z env o) same
        (o, left, matches)

  go_to-Ended :
      HasBlocks
      → (id' ret : List ℕ) (s : L.State) (b : L.Block) → F.insert_block s ≡ some b
      → IsLabel bbs id'
      → Ended (some (goto_insn id')) ret s b
  unfolding visit_end visit_terminator visit_go_to leave get_basic_block
  go_to-Ended blocks id' ret s b at label =
      let (next, found) = blocks id' label in
      (
        L.create_br next s,
        rw (target_block-ok L p f fg id' s (next, found), ◌>>=◌) refl,
        laws.br_steady s next,
        λ μ env agrees e h.
            to_exit (L.create_br next s) b μ env (jump id') e (exit_injective (jump id') e h)
              (goes next (F.contents μ s)) (laws.br_leaves μ s b next at) (found, label, agrees),
      )

  branch-Matches :
      (s : L.State) (b then_block else_block : L.Block) (μ m : L.Value → Option ℕ)
      (then_id else_id : List ℕ) (env : Env) (c : Bool)
      → get_basic_block L fg then_id ≡ some then_block
      → get_basic_block L fg else_id ≡ some else_block
      → IsLabel bbs then_id
      → IsLabel bbs else_id
      → F.leaves s b μ ≡ some (goes (if c then else_block else then_block) m)
      → Holds m env
      → (o : Outcome L) × (F.leaves s b μ ≡ some o)
        × Matches (jump (if c then else_id else then_id)) env o
  branch-Matches s b then_block else_block μ m then_id else_id env true h h' l l' left same =
      (goes else_block m, left, (h', l', same))
  branch-Matches s b then_block else_block μ m then_id else_id env false h h' l l' left same =
      (goes then_block m, left, (h, l, same))

  -- The steps that build the code of a condition.
  condition_br-Ended :
      HasBlocks
      → (lhs : Operand) (then_id else_id ret : List ℕ) (s : L.State) (b : L.Block)
      → F.insert_block s ≡ some b
      → Typed lhs type_tag_boolean
      → IsLabel bbs then_id
      → IsLabel bbs else_id
      → Ended (some (condition_br_insn lhs then_id else_id)) ret s b
  unfolding visit_end visit_terminator visit_condition_br leave get_basic_block width_of not_null
  condition_br-Ended blocks lhs then_id else_id ret s b at typed label label' =
      let (e, v, found, tag, w, ew, q, at_q, slot) = typed in
      let (then_block, then_found) = blocks then_id label in
      let (else_block, else_found) = blocks else_id label' in
      let r = L.create_load q (lhs.name ++ codes "_temp") s in
      let c = L.create_is_not_null r.0 lhs.name r.1 in
      let (loads, kept, is_word, value) =
        (laws.instructions λ q. some 0).load_word s w q (lhs.name ++ codes "_temp") slot in
      let (tests, kept', is_word', value') =
        laws.is_not_null_word (λ q. some 0) r.1 w r.0 lhs.name is_word in
      let steady = IsSteady-trans L F s r.1 c.1 loads.0 tests.0 in
      (
        L.create_cond_br c.0 then_block else_block c.1,
        rw
            (
              temp_val L (reading L F λ q. some 0) (laws.instructions λ q. some 0) p f fg lhs s q e
                  at_q,
              ◌>>=◌,
              ◌>>◌,
              target_block-ok L p f fg then_id c.1 (then_block, then_found),
              ◌>>=◌,
              target_block-ok L p f fg else_id c.1 (else_block, else_found),
              ◌>>=◌,
            )
            refl,
        IsSteady-trans L F s c.1 _ steady (laws.cond_br_steady c.1 c.0 then_block else_block),
        λ μ env agrees ex h.
            let (loads, kept, is_word, value) =
              (laws.instructions μ).load_word s w q (lhs.name ++ codes "_temp") slot in
            let (tests, kept', is_word', value') =
              laws.is_not_null_word μ r.1 w r.0 lhs.name is_word in
            let (x, known, same_exit) = branch-some (env lhs.name) then_id else_id ex h in
            let tested = value' ∙ ap not_null (value ∙ agrees lhs.name q at_q x known) in
            let left =
              laws.cond_br_leaves μ c.1 c.0 b then_block else_block (if x == 0 then 0 else 1)
                (steady.0 ∙ at) is_word' tested in
            let same : Holds (F.contents μ c.1) env =
              λ n q' at' y e'. kept' q' ∙ kept q' ∙ agrees n q' at' y e' in
            let (o, leaves, matches) =
              branch-Matches _ b then_block else_block μ (F.contents μ c.1) then_id else_id env
                (x == 0) then_found else_found label label'
                (left
                  ∙ ap
                      (λ (t : Bool).
                        some (goes (if t then else_block else then_block) (F.contents μ c.1)))
                      (bit_test (x == 0)))
                same in
            to_exit _ b μ env _ ex same_exit o leaves matches,
      )

  return-Ended :
      (v : Variable) (q : L.Value) (w : ℕ) (s : L.State) (b : L.Block)
      → F.insert_block s ≡ some b
      → is_main_function f ≡ false
      → f.return_var ≡ some v
      → get_local_val L fg v.name ≡ some q
      → F.IsSlot w q
      → Ended (some return_insn) v.name s b
  unfolding visit_end leave
  return-Ended v q w s b at main var at_q slot =
      let r = L.create_load q (codes "return_val_temp") s in
      let (loads, kept, is_word, value) =
        (laws.instructions λ q. some 0).load_word s w q (codes "return_val_temp") slot in
      (
        L.create_ret r.0 r.1,
        visit_return-ok L (reading L F λ q. some 0) (laws.instructions λ q. some 0) p f fg s v q
            main var at_q,
        IsSteady-trans L F s r.1 _ loads.0 (laws.ret_steady r.1 r.0),
        λ μ env agrees ex h.
            let (loads, kept, is_word, value) =
              (laws.instructions μ).load_word s w q (codes "return_val_temp") slot in
            let (x, known, same_exit) = give-some (env v.name) ex h in
            to_exit _ b μ env (result x) ex same_exit (returns x)
              (laws.ret_leaves μ r.1 w x r.0 b (loads.0.0 ∙ at) is_word
                (value ∙ agrees v.name q at_q x known))
              refl,
      )

  -- Every terminator that the interpreter knows.
  pub visit_end-Ended :
      HasBlocks
      → (t : Option TerminatorInsn) (v : Variable) (q : L.Value) (w : ℕ) (s : L.State) (b : L.Block)
      → F.insert_block s ≡ some b
      → is_main_function f ≡ false
      → f.return_var ≡ some v
      → get_local_val L fg v.name ≡ some q
      → F.IsSlot w q
      → IsKnown bbs Typed t
      → Ended t v.name s b
  unfolding IsKnown
  visit_end-Ended blocks (some (condition_br_insn lhs then_id else_id)) v q w s b at main var at_q
        slot (typed, label, label') =
      condition_br-Ended blocks lhs then_id else_id v.name s b at typed label label'
  visit_end-Ended blocks (some (goto_insn id')) v q w s b at main var at_q slot known =
      go_to-Ended blocks id' v.name s b at known
  visit_end-Ended blocks (some return_insn) v q w s b at main var at_q slot known =
      return-Ended v q w s b at main var at_q slot
  visit_end-Ended blocks _ v q w s b at main var at_q slot known = absurd known
