-- ===== src/Codegen/Simulation/Graphs.antt =====
-- compiler/codegen/FunctionCodeGen.cpp: functions of several blocks.
use nballerina_cpp.Run.{ok}
use nballerina_cpp.Base.{
  ℕ, zero, suc, ◌≡◌, refl, sym, ap, subst, ◌∙◌, ◌≢◌, inl, inr, Bool, true, false, Option, none,
  some, List, [], ◌∷◌, if◌then◌else◌, bytes_eq, bytes_eq_sound, bytes_eq_refl, Bool-cases, All,
}
use nballerina_cpp.Bir.Program.{BasicBlock, BirFunction, BirPackage}
use nballerina_cpp.Codegen.Flow.{Outcome, goes, returns, Flow, Keeps, FlowLawful, follow, run_code}
use nballerina_cpp.Codegen.Interpreter.{Env}
use nballerina_cpp.Codegen.Jumps.{
  Exit, jump, result, run_block, find_block, run_found, go_on, run_blocks,
}
use nballerina_cpp.Codegen.Llvm.{Llvm}
use nballerina_cpp.Codegen.Scope.{lookup, FunctionCodeGen, get_basic_block}
use nballerina_cpp.Codegen.Simulation.Branches.{IsLabel, Holds, Matches, HasBlocks}
use nballerina_cpp.Codegen.Simulation.Variables.{not_none}
use nballerina_cpp.Codegen.Simulation.Translation.{Implements, some_block, Ready}
use nballerina_cpp.Codegen.Function.{create_blocks}

-- No two blocks have the same label.
unfoldable pub IsUnique : List BasicBlock → Type 0
IsUnique [] = Unit {0}
IsUnique (bb ∷ bs) = All (λ (bb' : BasicBlock). bytes_eq bb'.id bb.id ≡ false) bs × IsUnique bs

same_block : (b c : BasicBlock) → some b ≡ some c → b ≡ c
same_block b c h = cc

find-cons :
    (id' : List ℕ) (bb : BasicBlock) (bs : List BasicBlock) (c : Bool)
    → bytes_eq bb.id id' ≡ c
    → find_block id' (bb ∷ bs) ≡ (if c then some bb else find_block id' bs)
unfolding find_block
find-cons id' bb bs c e = rw e refl

-- What holds of every block holds of the one with a label.
find-All :
    (P : BasicBlock → Type 0) (id' : List ℕ) (bb : BasicBlock) (bs : List BasicBlock)
    → find_block id' bs ≡ some bb
    → All P bs
    → P bb × (bb.id ≡ id')
unfolding find_block
find-All P id' bb [] h all = absurd (not_none h)
find-All P id' bb (b ∷ bs) h (holds, all) = elim (Bool-cases (bytes_eq b.id id')) [
  | inl e ↦
      let same = same_block b bb (sym (find-cons id' b bs true e) ∙ h) in
      (subst P same holds, ap (λ (c : BasicBlock). c.id) (sym same) ∙ bytes_eq_sound b.id id' e)
  | inr e ↦ find-All P id' bb bs (sym (find-cons id' b bs false e) ∙ h) all
]

go_on-some :
    (next : List ℕ → Env → Option ℕ) (m : Option (Exit × Env)) (x : ℕ)
    → go_on next m ≡ some x
    → (e : Exit) × (env : Env) × (m ≡ some (e, env)) × (go_on next (some (e, env)) ≡ some x)
unfolding go_on
go_on-some next none x h = absurd (not_none h)
go_on-some next (some (e, env)) x h = (e, env, refl, h)

module _ (L : Llvm) (F : Flow L) (laws : FlowLawful L F) (p : BirPackage) (f : BirFunction) where
  module _ (fg : FunctionCodeGen L) (bbs : List BasicBlock) where
    Ready-All :
        (s : L.State) (bs : List BasicBlock)
        → Ready L F laws p f fg bbs s bs
        → All (λ (bb : BasicBlock). (b : L.Block) × (get_basic_block L fg bb.id ≡ some b)) bs
    unfolding Ready
    Ready-All s [] ready = tt
    Ready-All s (bb ∷ bs) (b, at, empty, others, ready) = ((b, at), Ready-All s bs ready)

    pub Ready-HasBlocks :
        (s : L.State) → Ready L F laws p f fg bbs s bbs → HasBlocks L F laws p f fg bbs
    Ready-HasBlocks s ready id' (bb, found) =
        let ((b, at), same) = find-All _ id' bb bbs found (Ready-All s bbs ready) in
        (b, ap (get_basic_block L fg) (sym same) ∙ at)

    -- The code goes on where the interpreter does.
    follow-go_on :
        (s : L.State) (ret : List ℕ) (n x : ℕ)
        → ((id' : List ℕ) (b : L.Block) (μ : L.Value → Option ℕ) (env : Env)
            → IsLabel bbs id'
            → get_basic_block L fg id' ≡ some b
            → Holds L F laws p f fg bbs μ env
            → run_blocks bbs ret n id' env ≡ some x
            → run_code L F s n b μ ≡ some x)
        → (e : Exit) (env : Env) (o : Outcome L) → Matches L F laws p f fg bbs e env o
        → go_on (run_blocks bbs ret n) (some (e, env)) ≡ some x
        → follow L F (run_code L F s n) (some o) ≡ some x
    unfolding follow go_on
    follow-go_on s ret n x rest (jump id') env (goes b μ) (at, label, holds) h =
        rest id' b μ env label at holds h
    follow-go_on s ret n x rest (result y) env (returns z) same h = ap some (sym same) ∙ h
    follow-go_on s ret n x rest _ env _ matches h = absurd matches

    -- Where the interpreter returns, the code of a block returns the same with the same fuel.
    pub run_code-run_blocks :
        (s : L.State) (ret : List ℕ)
        → All
            (λ (bb : BasicBlock).
              (b : L.Block) × (get_basic_block L fg bb.id ≡ some b)
              × Implements L F laws p f fg bbs ret s b bb)
            bbs
        → (n x : ℕ) (id' : List ℕ) (b : L.Block) (μ : L.Value → Option ℕ) (env : Env)
        → IsLabel bbs id'
        → get_basic_block L fg id' ≡ some b
        → Holds L F laws p f fg bbs μ env
        → run_blocks bbs ret n id' env ≡ some x
        → run_code L F s n b μ ≡ some x
    unfolding run_code run_blocks run_found
    run_code-run_blocks s ret done zero x id' b μ env label at holds h = absurd (not_none h)
    run_code-run_blocks s ret done (suc n) x id' b μ env (bb, found) at holds h =
        let ((c, at', implements), same) = find-All _ id' bb bbs found done in
        let c≡b =
          some_block L F laws p f fg bbs c b (sym at' ∙ ap (get_basic_block L fg) same ∙ at) in
        let (e, env', ran, going) =
          go_on-some (run_blocks bbs ret n) (run_block ret bb env) x
            (subst (λ m. go_on (run_blocks bbs ret n) (run_found ret m env) ≡ some x) found h) in
        let (o, left, matches) = implements μ env holds e env' ran in
        rw (sym c≡b, left)
          (follow-go_on s ret n x (run_code-run_blocks s ret done n x) e env' o matches going)

  module _ (func : L.Func) (bbs : List BasicBlock) where
    abbrev pub scope_of : List (List ℕ × L.Value) → List (List ℕ × L.Block) → FunctionCodeGen L
    scope_of refs blocks = record {
      basic_blocks_map = blocks;
      local_var_refs = refs;
      llvm_function = func;
    }

    -- New blocks without code, one for each label, and all else as it was.
    abbrev pub Created :
        List BasicBlock
        → List (List ℕ × L.Block)
        → List (List ℕ × L.Block)
        → L.State
        → L.State
        → Type 0
    Created bs acc blocks s s' =
        (F.insert_block s' ≡ F.insert_block s)
        × ((b : L.Block) → F.IsBlock s b → F.IsBlock s' b)
        × ((b : L.Block) → F.IsBlock s b → Keeps L F s s' b)
        × ((μ : L.Value → Option ℕ) (q : L.Value) → F.contents μ s' q ≡ F.contents μ s q)
        × ((n : List ℕ)
            → All (λ (bb : BasicBlock). bytes_eq bb.id n ≡ false) bs
            → lookup n blocks ≡ lookup n acc)
        × ((b : L.Block)
            → F.IsBlock s b
            → All (λ (bb : BasicBlock). lookup bb.id blocks ≢ some b) bs)
        × ((refs : List (List ℕ × L.Value)) → Ready L F laws p f (scope_of refs blocks) bbs s' bs)

    lookup-skip :
        (n k : List ℕ) (b : L.Block) (acc : List (List ℕ × L.Block))
        → bytes_eq k n ≡ false
        → lookup n ((k, b) ∷ acc) ≡ lookup n acc
    unfolding lookup
    lookup-skip n k b acc e = rw e refl

    lookup-first :
        (k : List ℕ) (b : L.Block) (acc : List (List ℕ × L.Block))
        → lookup k ((k, b) ∷ acc) ≡ some b
    unfolding lookup
    lookup-first k b acc = rw (bytes_eq_refl k) refl

    pub create_blocks-Created :
        (bs : List BasicBlock) (acc : List (List ℕ × L.Block)) (s : L.State)
        → IsUnique bs
        → (blocks : List (List ℕ × L.Block)) × (s' : L.State) × (create_blocks L p f func bs acc s
            ≡ ok (blocks, s'))
          × Created bs acc blocks s s'
    unfolding create_blocks IsUnique Ready get_basic_block
    create_blocks-Created [] acc s is_unique = (
      acc,
      s,
      refl,
      (
        refl,
        λ b h. h,
        λ b h. (λ μ. refl, λ empty. empty),
        λ μ q. refl,
        λ n h. refl,
        λ b h. tt,
        λ refs. tt,
      ),
    )
    create_blocks-Created (bb ∷ bs) acc s (others, is_unique) =
        let r = L.block_create bb.id func s in
        let (point, is_block, is_new, empty, later, keeps, contents) =
          laws.create_block s bb.id func in
        let (blocks, s', created, (point', blocks', keeps', contents', rest, apart, ready)) =
          create_blocks-Created bs ((bb.id, r.0) ∷ acc) r.1 is_unique in
        let found : lookup bb.id blocks ≡ some r.0 =
          rest bb.id others ∙ lookup-first bb.id r.0 acc in
        (
          blocks,
          s',
          created,
          (
            point' ∙ point,
            λ b h. blocks' b (later.0 b h),
            λ b h.
                let (left, fresh) = keeps b h in
                let (left', fresh') = keeps' b (later.0 b h) in
                (λ μ. left' μ ∙ left μ, λ e. fresh' (fresh e)),
            λ μ q. contents' μ q ∙ contents μ q,
            λ n (other, others'). rest n others' ∙ lookup-skip n bb.id r.0 acc other,
            λ b h. (
              λ same. is_new (
                  subst (F.IsBlock s)
                    (some_block L F laws p f (scope_of [] []) bbs b r.0 (sym same ∙ found)) h),
              apart b (later.0 b h),
            ),
            λ refs. (r.0, found, (keeps' r.0 is_block).1 empty, apart r.0 is_block, ready refs),
          ),
        )
