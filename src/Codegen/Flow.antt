-- ===== src/Codegen/Flow.antt =====
-- What compiler/codegen relies on about the blocks that the LLVM library builds, as LLVM's language
-- reference describes them: the code of a block runs from a memory to a branch or a return.
use nballerina_cpp.Base.{
  ℕ, zero, suc, ◌≡◌, refl, ◌∙◌, ◌≢◌, Option, none, some, List, ◌==◌, if◌then◌else◌,
}
use nballerina_cpp.Codegen.Llvm.{Llvm}
use nballerina_cpp.Codegen.Meaning.{Reading, Computes, Lawful}

-- How the execution leaves a block: to another one with what the memory holds, or with a word.
pub data Outcome (L : Llvm) : Type 0 where
  goes : L.Block → (L.Value → Option ℕ) → Outcome L
  returns : ℕ → Outcome L

-- The test that a value is not zero.
unfoldable pub not_null : Option ℕ → Option ℕ
not_null none = none
not_null (some x) = some (if x == 0 then 0 else 1)

-- The code under construction. `contents`, `word` and `returned` are of an execution of the block at
-- the insertion point, from the memory that the block is entered with; `leaves` is what a block with
-- a terminator does with such a memory. A function's parameter has a width, and the execution passes
-- a word for it. The rest is as in `Reading`.
pub record Flow (L : Llvm) : Type 1 where
  pub contents : (L.Value → Option ℕ) → L.State → L.Value → Option ℕ
  pub word : (L.Value → Option ℕ) → L.State → L.Value → Option ℕ
  pub IsWord : L.State → ℕ → L.Value → Type 0
  pub IsSlot : ℕ → L.Value → Type 0
  pub returned : (L.Value → Option ℕ) → L.State → Option ℕ
  pub bits_of : L.Ty → ℕ
  pub IsLive : L.State → L.Value → Type 0
  pub insert_block : L.State → Option L.Block
  pub IsBlock : L.State → L.Block → Type 0
  pub IsEmpty : L.State → L.Block → Type 0
  pub leaves : L.State → L.Block → (L.Value → Option ℕ) → Option (Outcome L)
  pub IsArgument : L.Func → ℕ → ℕ → Type 0
  pub passed : L.Func → ℕ → ℕ

module _ (L : Llvm) (F : Flow L) where
  -- The code of a block stays as it is.
  abbrev pub Keeps : L.State → L.State → L.Block → Type 0
  Keeps s s' b =
      ((μ : L.Value → Option ℕ) → F.leaves s' b μ ≡ F.leaves s b μ)
      × (F.IsEmpty s b → F.IsEmpty s' b)

  -- The insertion point stays in its block, and the code of the other blocks as it is.
  abbrev pub IsSteady : L.State → L.State → Type 0
  IsSteady s s' =
      (F.insert_block s' ≡ F.insert_block s)
      × ((b : L.Block) → F.insert_block s ≢ some b → Keeps s s' b)

  -- What was there still is: blocks, stack slots and functions.
  abbrev pub IsLater : L.State → L.State → Type 0
  IsLater s s' =
      ((b : L.Block) → F.IsBlock s b → F.IsBlock s' b)
      × ((q : L.Value) → F.IsLive s q → F.IsLive s' q)
      × ((n : List ℕ) → L.get_function n s' ≡ L.get_function n s)

  -- The execution of the insertion block from the memory `μ`.
  abbrev pub reading : (L.Value → Option ℕ) → Reading L
  reading μ = record {
    contents = F.contents μ;
    word = F.word μ;
    IsWord = F.IsWord;
    IsSlot = F.IsSlot;
    returned = F.returned μ;
    bits_of = F.bits_of;
    IsLive = F.IsLive;
    Preserves = IsSteady;
  }

  pub IsSteady-refl : (s : L.State) → IsSteady s s
  IsSteady-refl s = (refl, λ b away. (λ μ. refl, λ h. h))

  pub IsSteady-trans : (s s' s'' : L.State) → IsSteady s s' → IsSteady s' s'' → IsSteady s s''
  IsSteady-trans s s' s'' (e, keeps) (e', keeps') = (
    e' ∙ e,
    λ b away.
        let (same, empty) = keeps b away in
        let (same', empty') = keeps' b (λ h. away (rw e at h)) in
        (λ μ. same' μ ∙ same μ, λ h. empty' (empty h)),
  )

  pub IsLater-refl : (s : L.State) → IsLater s s
  IsLater-refl s = (λ b h. h, λ q h. h, λ n. refl)

  pub IsLater-trans : (s s' s'' : L.State) → IsLater s s' → IsLater s' s'' → IsLater s s''
  IsLater-trans s s' s'' (blocks, slots, functions) (blocks', slots', functions') =
      (λ b h. blocks' b (blocks b h), λ q h. slots' q (slots q h), λ n. functions' n ∙ functions n)

  -- The laws of the builder's methods: those on one block's instructions, and those on blocks.
  pub record FlowLawful : Type 1 where
    pub instructions : (μ : L.Value → Option ℕ) → Lawful L (reading μ)
    pub is_not_null_word :
        (μ : L.Value → Option ℕ) (s : L.State) (w : ℕ) (v : L.Value) (n : List ℕ)
        → F.IsWord s w v
        → Computes L (reading μ) s 1 (not_null (F.word μ s v)) (L.create_is_not_null v n s)
    pub create_block :
        (s : L.State) (n : List ℕ) (func : L.Func)
        → let r = L.block_create n func s in
          (F.insert_block r.1 ≡ F.insert_block s)
          × F.IsBlock r.1 r.0
          × (F.IsBlock s r.0 → ⊥)
          × F.IsEmpty r.1 r.0
          × IsLater s r.1
          × ((b : L.Block) → F.IsBlock s b → Keeps s r.1 b)
          × ((μ : L.Value → Option ℕ) (q : L.Value) → F.contents μ r.1 q ≡ F.contents μ s q)
    pub enter_block :
        (s : L.State) (b : L.Block)
        → (F.insert_block (L.set_insert_point b s) ≡ some b)
          × ((c : L.Block) → Keeps s (L.set_insert_point b s) c)
          × IsLater s (L.set_insert_point b s)
    pub enter_empty :
        (μ : L.Value → Option ℕ) (s : L.State) (b : L.Block) (w : ℕ) (q : L.Value)
        → F.IsEmpty s b
        → F.IsSlot w q
        → F.contents μ (L.set_insert_point b s) q ≡ μ q
    pub alloca_later : (s : L.State) (t : L.Ty) (n : List ℕ) → IsLater s (L.create_alloca t n s).1
    pub alloca_contents :
        (μ : L.Value → Option ℕ) (s : L.State) (t : L.Ty) (n : List ℕ) (q : L.Value)
        → F.IsLive s q
        → F.contents μ (L.create_alloca t n s).1 q ≡ F.contents μ s q
    pub store_later : (s : L.State) (v q : L.Value) → IsLater s (L.create_store v q s).1
    pub argument_word :
        (μ : L.Value → Option ℕ) (s : L.State) (func : L.Func) (i w : ℕ)
        → F.IsArgument func i w
        → F.IsWord s w (L.argument func i)
          × (F.word μ s (L.argument func i) ≡ some (F.passed func i))
    pub set_name_steady : (s : L.State) (v : L.Value) (n : List ℕ) → IsSteady s (L.set_name v n s)
    pub set_name_later : (s : L.State) (v : L.Value) (n : List ℕ) → IsLater s (L.set_name v n s)
    pub set_name_contents :
        (μ : L.Value → Option ℕ) (s : L.State) (v : L.Value) (n : List ℕ) (q : L.Value)
        → F.contents μ (L.set_name v n s) q ≡ F.contents μ s q
    pub br_steady : (s : L.State) (next : L.Block) → IsSteady s (L.create_br next s)
    pub br_leaves :
        (μ : L.Value → Option ℕ) (s : L.State) (b next : L.Block)
        → F.insert_block s ≡ some b
        → F.leaves (L.create_br next s) b μ ≡ some (goes next (F.contents μ s))
    pub cond_br_steady :
        (s : L.State) (v : L.Value) (then_block else_block : L.Block)
        → IsSteady s (L.create_cond_br v then_block else_block s)
    pub cond_br_leaves :
        (μ : L.Value → Option ℕ) (s : L.State) (v : L.Value) (b then_block else_block : L.Block)
        (x : ℕ)
        → F.insert_block s ≡ some b
        → F.IsWord s 1 v
        → F.word μ s v ≡ some x
        → F.leaves (L.create_cond_br v then_block else_block s) b μ
          ≡ some (goes (if x == 0 then else_block else then_block) (F.contents μ s))
    pub ret_steady : (s : L.State) (v : L.Value) → IsSteady s (L.create_ret v s)
    pub ret_leaves :
        (μ : L.Value → Option ℕ) (s : L.State) (w x : ℕ) (v : L.Value) (b : L.Block)
        → F.insert_block s ≡ some b
        → F.IsWord s w v
        → F.word μ s v ≡ some x
        → F.leaves (L.create_ret v s) b μ ≡ some (returns x)

  unfoldable pub follow :
      (L.Block → (L.Value → Option ℕ) → Option ℕ) → Option (Outcome L) → Option ℕ
  follow next none = none
  follow next (some (goes b μ)) = next b μ
  follow next (some (returns x)) = some x

  -- An execution of at most as many blocks as the fuel.
  unfoldable pub run_code : L.State → ℕ → L.Block → (L.Value → Option ℕ) → Option ℕ
  unfolding follow
  run_code s zero b μ = none
  run_code s (suc n) b μ = follow (run_code s n) (F.leaves s b μ)
