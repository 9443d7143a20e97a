-- ===== src/Codegen/Labels.antt =====
-- compiler/codegen/FunctionCodeGen.cpp and TerminatorInsnCodeGen.cpp: the blocks that branches go to.
use nballerina_cpp.Base.{
  ℕ, ◌≡◌, refl, subst, inl, inr, some, List, [], ◌∷◌, ◌++◌, bytes_eq, bytes_eq_refl, Bool-cases,
  codes, All, weaken-All,
}
use nballerina_cpp.Bir.Insn.{Operand}
use nballerina_cpp.Bir.Program.{BasicBlock, BirFunction, BirPackage}
use nballerina_cpp.Run.{Run, ok}
use nballerina_cpp.Codegen.Llvm.{Llvm}
use nballerina_cpp.Codegen.Gen.{◌>>=◌, ◌>>◌}
use nballerina_cpp.Codegen.Scope.{
  lookup, FunctionCodeGen, get_basic_block, get_local_or_global_val, create_temp_val,
}
use nballerina_cpp.Codegen.Function.{create_blocks}
use nballerina_cpp.Codegen.Terminators.{target_block, visit_condition_br, visit_go_to}

module _ (L : Llvm) (p : BirPackage) (f : BirFunction) where
  abbrev Has : List (List ℕ × L.Block) → List ℕ → Type 0
  Has blocks id' = (b : L.Block) × (lookup id' blocks ≡ some b)

  add-Has :
      (k n : List ℕ) (b : L.Block) (blocks : List (List ℕ × L.Block))
      → Has blocks n
      → Has ((k, b) ∷ blocks) n
  unfolding lookup
  add-Has k n b blocks (c, h) = elim (Bool-cases (bytes_eq k n)) [
    | inl e ↦ (b, rw e refl)
    | inr e ↦ (c, rw e h)
  ]

  new-Has : (n : List ℕ) (b : L.Block) (blocks : List (List ℕ × L.Block)) → Has ((n, b) ∷ blocks) n
  unfolding lookup
  new-Has n b blocks = (b, rw (bytes_eq_refl n) refl)

  same_blocks :
      (blocks blocks' : List (List ℕ × L.Block)) (s s' : L.State)
      → ◌≡◌ {A = Run (List (List ℕ × L.Block) × L.State)} (ok (blocks, s)) (ok (blocks', s'))
      → blocks ≡ blocks'
  same_blocks blocks blocks' s s' h = cc

  create_blocks-Has :
      (func : L.Func) (bbs : List BasicBlock) (blocks blocks' : List (List ℕ × L.Block))
      (s s' : L.State)
      → create_blocks L p f func bbs blocks s ≡ ok (blocks', s')
      → ((n : List ℕ) → Has blocks n → Has blocks' n)
        × All (λ (bb : BasicBlock). Has blocks' bb.id) bbs
  unfolding create_blocks
  create_blocks-Has func [] blocks blocks' s s' h = (
    λ n found.
        subst (λ (bs : List (List ℕ × L.Block)). Has bs n) (same_blocks blocks blocks' s s' h)
          found,
    tt,
  )
  create_blocks-Has func (bb ∷ bbs) blocks blocks' s s' h =
      let r = L.block_create bb.id func s in
      let (keeps, has) = create_blocks-Has func bbs ((bb.id, r.0) ∷ blocks) blocks' r.1 s' h in
      (
        λ n found. keeps n (add-Has bb.id n r.0 blocks found),
        (keeps bb.id (new-Has bb.id r.0 blocks), has),
      )

  module _ (fg : FunctionCodeGen L) where
    pub target_block-ok :
        (id' : List ℕ) (s : L.State) (h : Has fg.basic_blocks_map id')
        → target_block L f fg id' s ≡ ok (h.0, s)
    unfolding target_block get_basic_block
    target_block-ok id' s (b, h) = rw (h, ◌>>◌) refl

    go_to-ok :
        (id' : List ℕ)
        → Has fg.basic_blocks_map id'
        → (t : L.State) → (t' : L.State) × (visit_go_to L f fg id' t ≡ ok (tt, t'))
    unfolding visit_go_to
    go_to-ok id' h t = (L.create_br h.0 t, rw (target_block-ok id' t h, ◌>>=◌) refl)

    condition_br-ok :
        (op : Operand) (q : L.Value) (t : L.State)
        → get_local_or_global_val L fg op t ≡ ok (some q, t)
        → (n m : List ℕ) → Has fg.basic_blocks_map n
        → Has fg.basic_blocks_map m
        → (t' : L.State) × (visit_condition_br L f fg op n m t ≡ ok (tt, t'))
    unfolding visit_condition_br create_temp_val
    condition_br-ok op q t e n m h h' =
        let r = L.create_load q (op.name ++ codes "_temp") t in
        let c = L.create_is_not_null r.0 op.name r.1 in
        (
          L.create_cond_br c.0 h.0 h'.0 c.1,
          rw (e, ◌>>=◌, target_block-ok n c.1 h, target_block-ok m c.1 h') refl,
        )

    -- A branch, conditional or not, to blocks that FunctionCodeGen::visit has created ends without a
    -- failed assert, where the variable of the condition is known.
    pub branch_to_blocks :
        (func : L.Func) (bbs : List BasicBlock) (s s' : L.State)
        → create_blocks L p f func bbs [] s ≡ ok (fg.basic_blocks_map, s')
        → (op : Operand) (q : L.Value) (t : L.State)
        → get_local_or_global_val L fg op t ≡ ok (some q, t)
        → All (λ (bb : BasicBlock). (t' : L.State) × (visit_go_to L f fg bb.id t ≡ ok (tt, t'))) bbs
          × All
              (λ (bb : BasicBlock).
                All
                  (λ (bb' : BasicBlock).
                    (t' : L.State) × (visit_condition_br L f fg op bb.id bb'.id t ≡ ok (tt, t')))
                  bbs)
              bbs
    branch_to_blocks func bbs s s' created op q t known =
        let (keeps, has) = create_blocks-Has func bbs [] fg.basic_blocks_map s s' created in
        (
          weaken-All (λ (bb : BasicBlock). Has fg.basic_blocks_map bb.id) _
              (λ bb h. go_to-ok bb.id h t) bbs has,
          weaken-All (λ (bb : BasicBlock). Has fg.basic_blocks_map bb.id) _
              (λ bb h.
                weaken-All (λ (bb' : BasicBlock). Has fg.basic_blocks_map bb'.id) _
                  (λ bb' h'. condition_br-ok op q t known bb.id bb'.id h h') bbs has)
              bbs has,
        )
