-- ===== src/Tests/RecorderLaws.antt =====
-- The laws that hold of the library that records the code of each block.
use nballerina_cpp.Base.{
  ℕ, ◌+◌, ◌<◌, ◌≡◌, refl, sym, ap, subst, ◌≢◌, ◌∙◌, inl, inr, Bool, ◌&&◌, if◌then◌else◌, Option,
  some, List, arith, ◌==◌, Bool-cases,
}
use nballerina_cpp.Codegen.Llvm.{Opcode, Predicate}
use nballerina_cpp.Codegen.Meaning.{opcode_word, icmp, Computes, Lawful}
use nballerina_cpp.Codegen.Interpreter.{bit, apply_one, apply_two}
use nballerina_cpp.Codegen.Flow.{
  goes, returns, Keeps, IsSteady, IsLater, reading, IsSteady-refl, IsSteady-trans, IsLater-refl,
  FlowLawful,
}
use nballerina_cpp.Tests.Machine.{of_bool}
use nballerina_cpp.Tests.Recorder.{
  Cells, Value, word, address, Code, Recorder, empty, eval, width, holds, IsSlot, IsLive,
  IsEmptyCode, with_block, code, change, write, storing, record_store, record_load, record_end,
  branching, choose, give_back, choosing, returning, compute, new_block, recorder, cells, outcome,
  leaving, flow,
}

module _ (m : Recorder) (g : Code → Code) where
  change-current : (change g m).blocks m.current ≡ g (code m)
  unfolding change with_block
  change-current = ground arith

  change-other : (b : ℕ) → some m.current ≢ some b → (change g m).blocks b ≡ m.blocks b
  unfolding change with_block
  change-other b away = elim (Bool-cases (b == m.current)) [
    | inl e ↦ absurd (away (ap some (ground (arith, e))))
    | inr e ↦ rw e refl
  ]

  change-IsSteady : IsSteady recorder flow m (change g m)
  unfolding change with_block
  change-IsSteady = (
    refl,
    λ b away.
        let same = change-other b away in
        (λ μ. ap (λ (c : Code). leaving c.end μ) same, λ h. subst IsEmptyCode (sym same) h),
  )

  change-IsLater : IsLater recorder flow m (change g m)
  unfolding change with_block IsLive
  change-IsLater = (λ b h. h, live, λ n. refl)
    where
      live : (q : Value) → IsLive m q → IsLive (change g m) q
      live (word w e) h = h
      live (address w k) h = h

computes :
    (μ : Value → Option ℕ) (m : Recorder) (w : ℕ) (x : Option ℕ) (e : Cells → Option ℕ)
    → e (cells μ) ≡ x
    → Computes recorder (reading recorder flow μ) m w x (compute w e m)
unfolding compute width eval
computes μ m w x e h = ((IsSteady-refl recorder flow m, λ w' v e. (e, refl)), λ q. refl, refl, h)

load_word :
    (μ : Value → Option ℕ) (m : Recorder) (w : ℕ) (q : Value) (n : List ℕ)
    → IsSlot w q
    → Computes recorder (reading recorder flow μ) m w (flow.contents μ m q) (record_load q n m)
unfolding record_load holds IsSlot width eval
load_word μ m w (address w' k) n h =
    ((IsSteady-refl recorder flow m, λ w'' v e. (e, refl)), λ q. refl, h, refl)
load_word μ m w (word w' x) n h = absurd h

store_slot :
    (μ : Value → Option ℕ) (m : Recorder) (w : ℕ) (v q : Value)
    → width v ≡ w
    → IsSlot w q
    → flow.contents μ (record_store v q m).1 q ≡ eval v (cells μ)
unfolding record_store holds IsSlot write
store_slot μ m w v (address w' k) e h = rw (change-current m (storing w' k v)) (ground arith)
store_slot μ m w v (word w' x) e h = absurd h

slot_congr : (u u' k k' : ℕ) → u ≡ u' → k ≡ k' → address u k ≡ address u' k'
slot_congr u u' k k' p q = cc

write-other :
    (u k : ℕ) (x : Option ℕ) (u' k' : ℕ) (c : Cells)
    → address u k ≢ address u' k'
    → write u k x c u' k' ≡ c u' k'
unfolding write
write-other u k x u' k' c apart = elim (Bool-cases (u == u' && k == k')) [
  | inl e ↦ absurd (apart (slot_congr u u' k k' (ground (arith, e)) (ground (arith, e))))
  | inr e ↦ rw e refl
]

store_other :
    (μ : Value → Option ℕ) (m : Recorder) (w w' : ℕ) (v q q' : Value)
    → IsSlot w q
    → IsSlot w' q'
    → q ≢ q'
    → flow.contents μ (record_store v q m).1 q' ≡ flow.contents μ m q'
unfolding record_store holds IsSlot
store_other μ m w w' v (address u k) (address u' k') h h' apart =
    rw (change-current m (storing u k v)) (write-other u k _ u' k' ((code m).body (cells μ)) apart)
store_other μ m w w' v (word u x) q' h h' apart = absurd h
store_other μ m w w' v (address u k) (word u' x) h h' apart = absurd h'

store-IsSteady : (m : Recorder) (v q : Value) → IsSteady recorder flow m (record_store v q m).1
unfolding record_store
store-IsSteady m v (address w k) = change-IsSteady m (storing w k v)
store-IsSteady m v (word w e) = IsSteady-refl recorder flow m

store-IsLater : (m : Recorder) (v q : Value) → IsLater recorder flow m (record_store v q m).1
unfolding record_store
store-IsLater m v (address w k) = change-IsLater m (storing w k v)
store-IsLater m v (word w e) = IsLater-refl recorder flow m

binary_word :
    (μ : Value → Option ℕ) (m : Recorder) (o : Opcode) (w : ℕ) (a b : Value) (n : List ℕ)
    (i j x : ℕ)
    → width a ≡ w
    → width b ≡ w
    → eval a (cells μ) ≡ some i
    → eval b (cells μ) ≡ some j
    → opcode_word o w i j ≡ some x
    → Computes recorder (reading recorder flow μ) m w (some x) (recorder.create_binary o a b n m)
unfolding apply_one apply_two
binary_word μ m o w a b n i j x ha hb hi hj h =
    rw ha (computes μ m w (some x) _ (rw (hi, hj, apply_two, apply_one, h) refl))

cmp_word :
    (μ : Value → Option ℕ) (m : Recorder) (c : Predicate) (a b : Value) (n : List ℕ) (i j : ℕ)
    (x : Bool)
    → width a ≡ 64
    → width b ≡ 64
    → eval a (cells μ) ≡ some i
    → eval b (cells μ) ≡ some j
    → icmp c i j ≡ some x
    → Computes recorder (reading recorder flow μ) m 1 (some (bit x)) (recorder.create_cmp c a b n m)
unfolding apply_one apply_two of_bool
cmp_word μ m c a b n i j x ha hb hi hj h =
    computes μ m 1 (some (bit x)) _ (rw (hi, hj, apply_two, apply_one, h, of_bool) refl)

IsLive-keeps :
    (m : Recorder) (q : Value) → IsLive m q → IsLive (record m { next_slot = m.next_slot + 1 }) q
unfolding IsLive
IsLive-keeps m (word w e) h = h
IsLive-keeps m (address w k) h = omega arith

-- The laws of the instructions of one block.
recorder_instructions : (μ : Value → Option ℕ) → Lawful recorder (reading recorder flow μ)
unfolding width eval IsSlot IsLive change with_block apply_one
recorder_instructions μ = record {
  preserves_refl = IsSteady-refl recorder flow;
  preserves_trans = IsSteady-trans recorder flow;
  store_preserves = store-IsSteady;
  alloca_preserves = λ m t n. (refl, λ b away. (λ μ'. refl, λ h. h));
  int64_word = λ m n. (refl, refl);
  int8_word = λ m n. (refl, refl);
  int1_word = λ m n. (refl, refl);
  load_word = load_word μ;
  store_slot = store_slot μ;
  store_other = store_other μ;
  binary_word = binary_word μ;
  cmp_word = cmp_word μ;
  not_word = λ m w a n i e h. rw e (computes μ m w _ _ (rw (h, apply_one) refl));
  neg_word = λ m w a n i e h. rw e (computes μ m w _ _ (rw (h, apply_one) refl));
  ret_word = λ m w x v e h. h;
  int64_bits = refl;
  int8_bits = refl;
  int1_bits = refl;
  alloca_slot = λ m t n. refl;
  alloca_live = λ m t n. omega arith;
  alloca_new = λ m t n h. omega arith;
  alloca_keeps = λ m t n. IsLive-keeps m;
}

-- The code of the block at the insertion point, after its end is recorded.
end-leaves :
    (μ : Value → Option ℕ) (m : Recorder) (g : Code → Code) (b : ℕ)
    → some m.current ≡ some b
    → leaving ((change g m).blocks b).end μ ≡ leaving (g (code m)).end μ
end-leaves μ m g b at =
    let same : m.current ≡ b = cc in
    ap (λ (c : Code). leaving c.end μ)
      (subst (λ k. (change g m).blocks k ≡ g (code m)) same (change-current m g))

new_block-other :
    (m : Recorder) (k : ℕ)
    → k ≢ m.next_block + m.current + 1
    → (new_block m).1.blocks k ≡ m.blocks k
unfolding with_block
new_block-other m k apart = elim (Bool-cases (k == m.next_block + m.current + 1)) [
  | inl e ↦ absurd (apart (ground (arith, e)))
  | inr e ↦ rw e refl
]

new_block-Keeps :
    (m : Recorder) (b : ℕ) → b < m.next_block → Keeps recorder flow m (new_block m).1 b
new_block-Keeps m b h =
    let same = new_block-other m b (λ e. omega (arith, e, h)) in
    (λ μ. ap (λ (c : Code). leaving c.end μ) same, λ e. subst IsEmptyCode (sym same) e)

new_block-empty : (m : Recorder) → (new_block m).1.blocks (new_block m).0 ≡ empty
unfolding with_block
new_block-empty m = ground arith

same-IsLive :
    (m m' : Recorder) → m'.next_slot ≡ m.next_slot → (q : Value) → IsLive m q → IsLive m' q
unfolding IsLive
same-IsLive m m' e (word w x) h = h
same-IsLive m m' e (address w k) h = rw e h

enter_empty :
    (μ : Value → Option ℕ) (m : Recorder) (b w : ℕ) (q : Value)
    → IsEmptyCode (m.blocks b)
    → IsSlot w q
    → holds ((m.blocks b).body (cells μ)) q ≡ μ q
unfolding holds IsSlot
enter_empty μ m b w (word u e) fresh slot = absurd slot
enter_empty μ m b w (address u k) fresh slot = ap (λ (c : Cells). c u k) (fresh (cells μ))

-- How a block ends by a condition and by a return that are determined.
chosen :
    (μ : Value → Option ℕ) (m : Recorder) (v : Value) (a b x : ℕ)
    → eval v (cells μ) ≡ some x
    → leaving (choosing v a b (code m)).end μ
      ≡ some (goes (if x == 0 then b else a) (flow.contents μ m))
unfolding leaving outcome choose record_end eval
chosen μ m v a b x e = rw (e, choose, outcome) refl

returned :
    (μ : Value → Option ℕ) (m : Recorder) (v : Value) (x : ℕ)
    → eval v (cells μ) ≡ some x
    → leaving (returning v (code m)).end μ ≡ some (returns x)
unfolding leaving outcome give_back record_end eval
returned μ m v x e = rw (e, give_back, outcome) refl

pub recorder_lawful : FlowLawful recorder flow
unfolding width eval IsSlot leaving outcome record_end with_block change holds
recorder_lawful = record {
  instructions = recorder_instructions;
  is_not_null_word = λ μ m w v n h. computes μ m 1 _ _ refl;
  create_block = λ m n g. (
    refl,
    omega arith,
    λ h. omega (arith, h),
    λ c. ap (λ (k : Code). k.body c) (new_block-empty m),
    (λ b h. omega (arith, h), same-IsLive m (new_block m).1 refl, λ i. refl),
    new_block-Keeps m,
    λ μ q.
        ap (λ (k : Code). holds (k.body (cells μ)) q)
          (new_block-other m m.current (λ e. omega (arith, e))),
  );
  enter_block = λ m b. (
    refl,
    λ c. (λ μ. refl, λ h. h),
    (λ c h. h, same-IsLive m (record m { current = b }) refl, λ i. refl),
  );
  enter_empty = enter_empty;
  alloca_later = λ m t n. (λ b h. h, IsLive-keeps m, λ i. refl);
  alloca_contents = λ μ m t n q h. refl;
  store_later = store-IsLater;
  argument_word = λ μ m g i w h. (h, refl);
  set_name_steady = λ m v n. IsSteady-refl recorder flow m;
  set_name_later = λ m v n. IsLater-refl recorder flow m;
  set_name_contents = λ μ m v n q. refl;
  br_steady = λ m next. change-IsSteady m (branching next);
  br_leaves = λ μ m b next h. end-leaves μ m (branching next) b h;
  cond_br_steady = λ m v a b. change-IsSteady m (choosing v a b);
  cond_br_leaves = λ μ m v b then_block else_block x h w e.
      end-leaves μ m (choosing v then_block else_block) b h
      ∙ chosen μ m v then_block else_block x e;
  ret_steady = λ m v. change-IsSteady (record m { result = λ x. eval v x }) (returning v);
  ret_leaves = λ μ m w x v b h e known.
      end-leaves μ (record m { result = λ y. eval v y }) (returning v) b h ∙ returned μ m v x known;
}
