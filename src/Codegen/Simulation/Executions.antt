-- ===== src/Codegen/Simulation/Executions.antt =====
-- compiler/codegen/FunctionCodeGen.cpp: the execution of a function, from its entry to a return.
use nballerina_cpp.Base.{
  ℕ, suc, ◌≡◌, refl, sym, subst, ◌∙◌, false, not, Option, none, some, List, [], ◌∷◌, bytes_eq_refl,
  codes, All, weaken-All,
}
use nballerina_cpp.Run.{ok}
use nballerina_cpp.Bir.Program.{
  Variable, BasicBlock, BirFunction, BirPackage, get_local_variable, is_main_function,
}
use nballerina_cpp.Codegen.Llvm.{Llvm}
use nballerina_cpp.Codegen.Gen.{◌>>=◌, ◌>>◌, check, each}
use nballerina_cpp.Codegen.Scope.{FunctionCodeGen, get_basic_block, get_local_val}
use nballerina_cpp.Codegen.Function.{
  create_blocks, enter_first, translate_block, visit_body, visit_function,
}
use nballerina_cpp.Codegen.Meaning.{Reading, Lawful}
use nballerina_cpp.Codegen.Interpreter.{width_of}
use nballerina_cpp.Codegen.Jumps.{find_block, run_blocks, argument_of, argument, with_arguments}
use nballerina_cpp.Codegen.Flow.{Flow, reading, FlowLawful, follow, run_code}
use nballerina_cpp.Codegen.Simulation.Variables.{not_none, HasType}
use nballerina_cpp.Codegen.Simulation.Functions.{Places, IsLocal, local-HasType, places-IsScope}
use nballerina_cpp.Codegen.Simulation.Branches.{Holds}
use nballerina_cpp.Codegen.Simulation.Translation.{
  IsSound, weaken-IsSound, Ready, Ready-Keeps, other_point, each-translate,
}
use nballerina_cpp.Codegen.Simulation.Entry.{Passes, Argues, visit_locals-Entered}
use nballerina_cpp.Codegen.Simulation.Graphs.{
  IsUnique, Ready-HasBlocks, run_code-run_blocks, scope_of, create_blocks-Created,
}

find-first :
    (first : BasicBlock) (rest : List BasicBlock) → find_block first.id (first ∷ rest) ≡ some first
unfolding find_block
find-first first rest = rw (bytes_eq_refl first.id) refl

module _ (L : Llvm) (F : Flow L) (laws : FlowLawful L F) (p : BirPackage) (f : BirFunction)
    (func : L.Func) where
  abbrev pub start_reading : Reading L
  start_reading = reading L F λ q. some 0

  abbrev pub start_laws : Lawful L start_reading
  start_laws = laws.instructions λ q. some 0

  argument-some :
      (args : ℕ → ℕ) (o : Option ℕ) (x : ℕ)
      → argument args o ≡ some x
      → (k : ℕ) × (o ≡ some k) × (some (args k) ≡ some x)
  unfolding argument
  argument-some args none x h = absurd (not_none h)
  argument-some args (some k) x h = (k, refl, h)

  -- The slots hold the arguments at the end of the entry.
  entry-Holds :
      (refs : List (List ℕ × L.Value)) (blocks : List (List ℕ × L.Block)) (bbs : List BasicBlock)
      (s : L.State) (vs : List Variable) (μ : L.Value → Option ℕ)
      → Argues L F laws p f func vs 0 s refs
      → let fg = scope_of L F laws p f func bbs refs blocks in
        Holds L F laws p f fg bbs (F.contents μ s) (with_arguments (F.passed func) vs)
  unfolding with_arguments get_local_val
  entry-Holds refs blocks bbs s vs μ argues n q at x h =
      let (k, is_argument, same) = argument-some (F.passed func) (argument_of n 0 vs) x h in
      let (q', at', value) = argues n k is_argument in
      let q'≡q : q' ≡ q = cc in subst (λ z. F.contents μ s z ≡ some x) q'≡q (value μ ∙ same)

  -- From every memory, the execution of the code returns what the interpreter returns.
  abbrev Runs : L.State → L.Block → Variable → List BasicBlock → BasicBlock → Type 0
  Runs s' entry v bbs first =
      (μ : L.Value → Option ℕ) (n x : ℕ)
      → run_blocks bbs v.name n first.id (with_arguments (F.passed func) f.local_vars) ≡ some x
      → run_code L F s' (suc n) entry μ ≡ some x

  -- The parts of a function's body, one after the other.
  visit_body-parts :
      (bbs : List BasicBlock) (refs : List (List ℕ × L.Value)) (blocks : List (List ℕ × L.Block))
      (s s1 s2 s' : L.State)
      → create_blocks L p f func bbs [] s ≡ ok (blocks, s1)
      → enter_first L p f (scope_of L F laws p f func bbs refs blocks) bbs s1 ≡ ok (tt, s2)
      → each bbs (translate_block L p f (scope_of L F laws p f func bbs refs blocks)) s2
        ≡ ok (tt, s')
      → visit_body L p f func refs bbs s ≡ check (not (L.verify_function func s')) s'
  unfolding visit_body
  visit_body-parts bbs refs blocks s s1 s2 s' created entered translated =
      rw (created, ◌>>=◌, ◌>>◌, entered, ◌>>=◌, ◌>>◌, translated) refl

  enter_first-ok :
      (fg : FunctionCodeGen L) (first : BasicBlock) (rest : List BasicBlock) (b : L.Block)
      (s : L.State)
      → get_basic_block L fg first.id ≡ some b
      → enter_first L p f fg (first ∷ rest) s ≡ ok (tt, L.create_br b s)
  unfolding enter_first
  enter_first-ok fg first rest b s at = rw (at, ◌>>=◌) refl

  visit_body-Runs :
      (entry : L.Block) (s0 s : L.State) (refs : List (List ℕ × L.Value)) (first : BasicBlock)
      (rest : List BasicBlock) (v u : Variable) (w : ℕ)
      → F.insert_block s ≡ some entry
      → F.IsBlock s entry
      → Places L start_reading start_laws p f f.local_vars s0 s refs
      → Argues L F laws p f func f.local_vars 0 s refs
      → is_main_function f ≡ false
      → f.return_var ≡ some v
      → get_local_variable f v.name ≡ ok u
      → width_of u.type_of.tag ≡ some w
      → IsUnique (first ∷ rest)
      → All (IsSound (first ∷ rest) (IsLocal L start_reading start_laws p f)) (first ∷ rest)
      → (s' : L.State) × (visit_body L p f func refs (first ∷ rest) s
          ≡ check (not (L.verify_function func s')) s')
        × Runs s' entry v (first ∷ rest) first
  unfolding run_code follow Ready get_basic_block get_local_val get_local_variable
  visit_body-Runs entry s0 s refs first rest v u w point is_block places argues main var found width
        is_unique sound =
      let bbs = first ∷ rest in
      let (blocks, s1, created, (point1, later, keeps, contents, others, apart, ready)) =
        create_blocks-Created L F laws p f func bbs bbs [] s is_unique in
      let fg = scope_of L F laws p f func bbs refs blocks in
      let blocks_found = Ready-HasBlocks L F laws p f fg bbs s1 (ready refs) in
      let (b, at) = blocks_found first.id (first, find-first first rest) in
      let point2 = point1 ∙ point in
      let s2 = L.create_br b s1 in
      let (steady, others_steady) = laws.br_steady s1 b in
      let ready2 =
        Ready-Keeps L F laws p f fg bbs bbs s1 s2 entry
          (λ c other. others_steady c (other_point L F laws p f fg bbs s1 entry c point2 other))
          (apart entry is_block) (ready refs) in
      let (apart', slots, fresh, live, finds) = places in
      let (q, at_q, slot) = finds v.name u w found width in
      let (s', translated, done, stays) =
        each-translate L F laws p f fg bbs blocks_found
          (places-IsScope L start_reading start_laws p f fg s0 s places) v q w main var at_q slot
          bbs s2 ready2
          (weaken-All (IsSound bbs (IsLocal L start_reading start_laws p f))
            (IsSound bbs (HasType L start_reading start_laws p f fg))
            (weaken-IsSound bbs (IsLocal L start_reading start_laws p f)
              (HasType L start_reading start_laws p f fg)
              (local-HasType L start_reading start_laws p f fg finds))
            bbs sound) in
      (
        s',
        visit_body-parts bbs refs blocks s s1 s2 s' created (enter_first-ok fg first rest b s1 at)
            translated,
        λ μ n x h.
            rw
              (
                run_code,
                stays entry (apart entry is_block) μ,
                laws.br_leaves μ s1 entry b point2,
                follow,
              )
              (run_code-run_blocks L F laws p f fg bbs s' v.name done n x first.id b
                (F.contents μ s1) _ (first, find-first first rest) at
                (λ m q' at' y known.
                  contents μ q'
                  ∙ entry-Holds refs blocks bbs s f.local_vars μ argues m q' at' y known)
                h),
      )

  -- The assumptions on the blocks, for the list of the function's blocks.
  abbrev AreSound : List BasicBlock → Type 0
  AreSound bbs = IsUnique bbs × All (IsSound bbs (IsLocal L start_reading start_laws p f)) bbs

  -- The function is not main, is declared in the module, and has at least one block and a return
  -- variable that is a local one. Its blocks have different labels and end with goto, conditional
  -- branches to blocks of the function on a Boolean local variable, or returns. Their instructions
  -- are loads of constants, moves, negation, `not`, and the addition, subtraction, multiplication,
  -- exclusive or and six comparisons of two ints, on local variables. All its local variables are
  -- ints, bytes and booleans, and the parameters have arguments of their widths. Where the
  -- interpreter, started at the first block with values for the parameters only, returns `x` within
  -- `n` blocks, the code that the generator builds returns `x` within `n + 1` blocks from the
  -- entry, from any memory. The generator ends without a failure unless `verifyFunction` finds the
  -- function broken.
  pub visit_function_runs :
      (s : L.State) (first : BasicBlock) (rest : List BasicBlock) (v u : Variable) (w : ℕ)
      → L.get_function f.name s ≡ some func
      → is_main_function f ≡ false
      → f.basic_blocks ≡ first ∷ rest
      → f.return_var ≡ some v
      → get_local_variable f v.name ≡ ok u
      → width_of u.type_of.tag ≡ some w
      → Passes L F laws p f func 0 f.local_vars
      → IsUnique f.basic_blocks
      → All (IsSound f.basic_blocks (IsLocal L start_reading start_laws p f)) f.basic_blocks
      → let entry = (L.block_create (codes "entry") func s).0 in
        (s' : L.State) × (visit_function L p f s ≡ check (not (L.verify_function func s')) s')
        × ((μ : L.Value → Option ℕ) (n x : ℕ)
            → run_blocks f.basic_blocks v.name n first.id
                (with_arguments (F.passed func) f.local_vars)
              ≡ some x
            → run_code L F s' (suc n) entry μ ≡ some x)
  unfolding visit_function
  visit_function_runs s first rest v u w at main blocks var found width passes is_unique sound =
      let entry = L.block_create (codes "entry") func s in
      let (point, is_block, is_new, empty, later, keeps, contents) =
        laws.create_block s (codes "entry") func in
      let start = L.set_insert_point entry.0 entry.1 in
      let (entered, stays, later') = laws.enter_block entry.1 entry.0 in
      let (refs, s1, visited, (places, steady, later'', kept, argues)) =
        visit_locals-Entered L F laws p f func f.local_vars 0 start passes in
      let (is_unique', sound') = subst AreSound blocks (is_unique, sound) in
      let (s', built, runs) =
        visit_body-Runs entry.0 start s1 refs first rest v u w (steady.0 ∙ entered)
          (later''.0 entry.0 (later'.0 entry.0 is_block)) places argues main var found width
          is_unique' sound' in
      (
        s',
        rw (at, ◌>>=◌, visited)
            (subst
              (λ bbs.
                visit_body L p f func refs bbs s1 ≡ check (not (L.verify_function func s')) s')
              (sym blocks) built),
        subst (λ bbs. Runs s' entry.0 v bbs first) (sym blocks) runs,
      )
