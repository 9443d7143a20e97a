-- ===== src/Tests/Recorder.antt =====
-- An instance of the LLVM library that records the code of each block as what it does with a memory.
use nballerina_cpp.Base.{
  ℕ, ◌+◌, ◌-◌, ◌*◌, ◌%◌, ◌^◌, ◌<◌, ◌≡◌, false, ◌&&◌, Option, none, some, List, [], ◌∷◌, ◌++◌, ◌==◌,
  if◌then◌else◌,
}
use nballerina_cpp.Codegen.Llvm.{Llvm}
use nballerina_cpp.Codegen.Scope.{lookup}
use nballerina_cpp.Codegen.Meaning.{opcode_word, icmp}
use nballerina_cpp.Codegen.Flow.{Outcome, goes, returns, not_null, Flow}
use nballerina_cpp.Codegen.Interpreter.{apply_one, apply_two}
use nballerina_cpp.Tests.Machine.{of_bool}

-- What the slots hold, by width and number, where `none` is what nothing determines.
abbrev pub Cells : Type 0
Cells = ℕ → ℕ → Option ℕ

-- A word of a width by the memory at the start of its block, or a stack address.
pub data Value : Type 0 where
  word : ℕ → (Cells → Option ℕ) → Value
  address : ℕ → ℕ → Value

pub data End : Type 0 where
  to : ℕ → Cells → End
  back : ℕ → End
  stuck : End

pub record Code : Type 0 where
  pub body : Cells → Cells
  pub end : Option (Cells → End)

pub record Recorder : Type 0 where
  pub blocks : ℕ → Code
  pub current : ℕ
  pub next_block : ℕ
  pub next_slot : ℕ
  pub result : Cells → Option ℕ
  pub functions : List (List ℕ × ℕ)

abbrev pub empty : Code
empty = record { body = λ c. c; end = none }

unfoldable pub eval : Value → Cells → Option ℕ
eval (word w e) c = e c
eval (address w k) c = none

unfoldable pub width : Value → ℕ
width (word w e) = w
width (address w k) = 64

unfoldable pub holds : Cells → Value → Option ℕ
holds c (word w e) = none
holds c (address w k) = c w k

unfoldable pub IsSlot : ℕ → Value → Type 0
IsSlot w (word w' e) = ⊥
IsSlot w (address w' k) = w' ≡ w

unfoldable pub IsLive : Recorder → Value → Type 0
IsLive m (word w e) = ⊥
IsLive m (address w k) = k < m.next_slot

abbrev pub IsEmptyCode : Code → Type 0
IsEmptyCode c = (x : Cells) → c.body x ≡ x

unfoldable pub with_block : ℕ → Code → Recorder → Recorder
with_block b c m = record m { blocks = λ k. if k == b then c else m.blocks k }

abbrev pub code : Recorder → Code
code m = m.blocks m.current

unfoldable pub change : (Code → Code) → Recorder → Recorder
unfolding with_block
change g m = with_block m.current (g (code m)) m

unfoldable pub write : ℕ → ℕ → Option ℕ → Cells → Cells
write w k x c = λ w' k'. if w == w' && k == k' then x else c w' k'

abbrev pub storing : ℕ → ℕ → Value → Code → Code
unfolding write eval
storing w k v c = record c { body = λ x. write w k (eval v x) (c.body x) }

unfoldable pub record_store : Value → Value → Recorder → Value × Recorder
unfolding change eval write
record_store v (address w k) m = (v, change (storing w k v) m)
record_store v (word w e) m = (v, m)

unfoldable pub record_load : Value → List ℕ → Recorder → Value × Recorder
record_load (address w k) n m = (word w (λ x. (code m).body x w k), m)
record_load (word w e) n m = (word w (λ x. none), m)

unfoldable pub record_end : (Cells → End) → Code → Code
record_end e c = record c { end = some (λ x. e x) }

abbrev pub branching : ℕ → Code → Code
unfolding record_end
branching b c = record_end (λ x. to b (c.body x)) c

unfoldable pub choose : Option ℕ → ℕ → ℕ → Cells → End
choose none a b c = stuck
choose (some x) a b c = to (if x == 0 then b else a) c

unfoldable pub give_back : Option ℕ → End
give_back none = stuck
give_back (some x) = back x

abbrev pub choosing : Value → ℕ → ℕ → Code → Code
unfolding record_end eval choose
choosing v a b c = record_end (λ x. choose (eval v x) a b (c.body x)) c

abbrev pub returning : Value → Code → Code
unfolding record_end eval give_back
returning v c = record_end (λ x. give_back (eval v x)) c

unfoldable pub compute : ℕ → (Cells → Option ℕ) → Recorder → Value × Recorder
compute w e m = (word w e, m)

-- An operation that no test runs.
abbrev pub other : {A : Type 0} → A → Recorder → A × Recorder
other a m = (a, m)

abbrev pub new_block : Recorder → ℕ × Recorder
new_block m =
    let b = m.next_block + m.current + 1 in
    (b, with_block b empty (record m { next_block = b + 1 }))

-- The argument of a number is the number and 4.
abbrev pub recorder : Llvm
recorder = record {
  State = Recorder;
  Ty = ℕ;
  Value = Value;
  Block = ℕ;
  Func = ℕ;
  Callee = ℕ;
  Point = ℕ;
  void_ty = 0;
  int1_ty = 1;
  int8_ty = 8;
  int64_ty = 64;
  double_ty = 64;
  int8_ptr_ty = 64;
  int64_ptr_ty = 64;
  pointer_type = λ t. 64;
  array_type = λ t n. t * n;
  function_type = λ t ts v. 64;
  type_of = width;
  get_type_by_name = λ n m. none;
  struct_create = λ ts n. other 64;
  const_int = λ t n. word t (λ c. some (n % 2 ^ t));
  const_fp = λ n. word 64 (λ c. some n);
  null_value = λ t. word t (λ c. some 0);
  get_string = λ n z. word 64 (λ c. none);
  const_struct = λ t vs. word t (λ c. some 0);
  set_source_file_name = λ n m. m;
  get_global_variable = λ n i m. none;
  new_global_variable = λ t c l i n. other (word 64 (λ x. none));
  set_alignment = λ v n m. m;
  set_initializer = λ v w m. m;
  get_function = λ n m. lookup n m.functions;
  function_create = λ t n m. (0, record m { functions = m.functions ++ ((n, 0) ∷ []) });
  get_or_insert_function = λ n t. other 0;
  callee = λ g. g;
  argument = λ g n. word 64 (λ c. some (n + 4));
  set_name = λ v n m. m;
  verify_function = λ g m. false;
  verify_module = λ m. false;
  block_create = λ n g. new_block;
  set_insert_point = λ b m. record m { current = b };
  save_ip = λ m. m.current;
  restore_ip = λ b m. record m { current = b };
  create_alloca = λ t n m. (address t m.next_slot, record m { next_slot = m.next_slot + 1 });
  create_load = record_load;
  create_store = record_store;
  create_binary =
      λ o a b n. compute (width a) λ x. apply_two (opcode_word o (width a)) (eval a x) (eval b x);
  create_cmp =
      λ c a b n. compute 1 λ x. apply_two (λ y z. of_bool (icmp c y z)) (eval a x) (eval b x);
  create_not = λ a n. compute (width a) λ x. apply_one (λ y. some (2 ^ width a - 1 - y)) (eval a x);
  create_neg = λ a n.
      compute (width a) λ x. apply_one (λ y. some ((2 ^ width a - y) % 2 ^ width a)) (eval a x);
  create_is_not_null = λ a n. compute 1 λ x. not_null (eval a x);
  create_in_bounds_gep = λ a vs. other a;
  create_fp_to_si = λ a t. other a;
  create_bit_cast = λ a t. other a;
  create_int_to_ptr = λ a t. other a;
  create_ptr_to_int = λ a t. other a;
  create_call = λ c vs n. other (word 64 (λ x. none));
  create_br = λ b m. change (branching b) m;
  create_cond_br = λ v a b m. change (choosing v a b) m;
  create_ret = λ v m. change (returning v) (record m { result = λ x. eval v x });
  create_ret_void = λ m. m;
  create_unreachable = λ m. m;
  new_binary = λ o a b. other a;
  new_icmp = λ c a b. other a;
  new_malloc = λ b t u v. other v;
  set_has_no_signed_wrap = λ v m. m;
  add_attribute = λ v a m. m;
  push_back = λ b v m. m;
  new_string_table = λ m. m;
  table_contains = λ n m. false;
  table_add = λ n m. m;
  table_finalize = λ m. m;
  table_size = λ m. 0;
  table_offset = λ n m. 0;
  is_get_element_ptr = λ v. false;
  is_user = λ v. false;
  replace_operand = λ v n w m. m;
  rand = other 0;
}

abbrev pub cells : (Value → Option ℕ) → Cells
cells μ w k = μ (address w k)

unfoldable pub outcome : End → Option (Outcome recorder)
outcome (to b c) = some (goes b (holds c))
outcome (back x) = some (returns x)
outcome stuck = none

unfoldable pub leaving : Option (Cells → End) → (Value → Option ℕ) → Option (Outcome recorder)
unfolding outcome
leaving none μ = none
leaving (some e) μ = outcome (e (cells μ))

abbrev pub flow : Flow recorder
flow = record {
  contents = λ μ m. holds ((code m).body (cells μ));
  word = λ μ m v. eval v (cells μ);
  IsWord = λ m w v. width v ≡ w;
  IsSlot = IsSlot;
  returned = λ μ m. m.result (cells μ);
  bits_of = λ t. t;
  IsLive = IsLive;
  insert_block = λ m. some m.current;
  IsBlock = λ m b. b < m.next_block;
  IsEmpty = λ m b. IsEmptyCode (m.blocks b);
  leaves = λ m b μ. leaving (m.blocks b).end μ;
  IsArgument = λ g i w. 64 ≡ w;
  passed = λ g i. i + 4;
}
