-- ===== src/Tests/Machine.antt =====
-- An instance of the LLVM library that runs the code as it is built.
use nballerina_cpp.Base.{
  ℕ, ◌+◌, ◌-◌, ◌*◌, ◌%◌, ◌^◌, ◌<◌, ◌≡◌, refl, ◌≢◌, inl, inr, Bool, false, ◌&&◌, Option, none, some,
  List, [], ◌∷◌, ◌++◌, arith, ◌==◌, if◌then◌else◌, bytes_eq, bytes_eq_refl, Bool-cases,
}
use nballerina_cpp.Codegen.Llvm.{Opcode, Predicate, Llvm}
use nballerina_cpp.Codegen.Interpreter.{bit, apply_one, apply_two}
use nballerina_cpp.Codegen.Declarations.{FunctionTable}
use nballerina_cpp.Codegen.Scope.{lookup}
use nballerina_cpp.Codegen.Meaning.{opcode_word, icmp, Reading, Computes, Lawful}

-- A word of a width, where `none` is one that nothing determines, or the address of a stack address.
pub data Value : Type 0 where
  word : ℕ → Option ℕ → Value
  address : ℕ → ℕ → Value

-- The contents of the slots, by width and number, and what was returned.
pub record Machine : Type 0 where
  pub memory : ℕ → ℕ → Option ℕ
  pub result : Option ℕ
  pub next : ℕ
  pub functions : List (List ℕ × ℕ)

unfoldable pub bits : Value → Option ℕ
bits (word w x) = x
bits (address w k) = none

unfoldable pub width : Value → ℕ
width (word w x) = w
width (address w k) = 64

unfoldable pub holds : Machine → Value → Option ℕ
holds m (word w x) = none
holds m (address w k) = m.memory w k

unfoldable pub IsSlot : ℕ → Value → Type 0
IsSlot w (word w' x) = ⊥
IsSlot w (address w' k) = w' ≡ w

unfoldable pub IsLive : Machine → Value → Type 0
IsLive m (word w x) = ⊥
IsLive m (address w k) = k < m.next

unfoldable pub put : ℕ → ℕ → Option ℕ → Machine → Machine
put w k x m = record m { memory = λ w' k'. if w == w' && k == k' then x else m.memory w' k' }

unfoldable pub run_store : Value → Value → Machine → Value × Machine
unfolding bits put
run_store v (address w k) m = (v, put w k (bits v) m)
run_store v (word w x) m = (v, m)

unfoldable pub run_load : Value → List ℕ → Machine → Value × Machine
run_load (address w k) n m = (word w (m.memory w k), m)
run_load (word w x) n m = (word w none, m)

unfoldable pub of_bool : Option Bool → Option ℕ
unfolding bit
of_bool none = none
of_bool (some b) = some (bit b)

unfoldable pub binary : Opcode → Value → Value → List ℕ → Machine → Value × Machine
unfolding bits width apply_two opcode_word
binary o a b n m = (word (width a) (apply_two (opcode_word o (width a)) (bits a) (bits b)), m)

unfoldable pub compare : Predicate → Value → Value → List ℕ → Machine → Value × Machine
unfolding bits of_bool icmp apply_two
compare c a b n m = (word 1 (apply_two (λ x y. of_bool (icmp c x y)) (bits a) (bits b)), m)

-- An operation that no test runs.
abbrev pub other : {A : Type 0} → A → Machine → A × Machine
other a m = (a, m)

abbrev pub machine : Llvm
machine = record {
  State = Machine;
  Ty = ℕ;
  Value = Value;
  Block = ℕ;
  Func = ℕ;
  Callee = ℕ;
  Point = ℕ;
  void_ty = 0;
  int1_ty = 1;
  int8_ty = 8;
  int64_ty = 64;
  double_ty = 64;
  int8_ptr_ty = 64;
  int64_ptr_ty = 64;
  pointer_type = λ t. 64;
  array_type = λ t n. t * n;
  function_type = λ t ts v. 64;
  type_of = width;
  get_type_by_name = λ n m. none;
  struct_create = λ ts n. other 64;
  const_int = λ t n. word t (some (n % 2 ^ t));
  const_fp = λ n. word 64 (some n);
  null_value = λ t. word t (some 0);
  get_string = λ n z. word 64 none;
  const_struct = λ t vs. word t none;
  set_source_file_name = λ n m. m;
  get_global_variable = λ n i m. none;
  new_global_variable = λ t c l i n. other (word 64 none);
  set_alignment = λ v n m. m;
  set_initializer = λ v w m. m;
  get_function = λ n m. lookup n m.functions;
  function_create = λ t n m. (0, record m { functions = m.functions ++ ((n, 0) ∷ []) });
  get_or_insert_function = λ n t. other 0;
  callee = λ g. g;
  argument = λ g n. word 64 none;
  set_name = λ v n m. m;
  verify_function = λ g m. false;
  verify_module = λ m. false;
  block_create = λ n g. other 0;
  set_insert_point = λ b m. m;
  save_ip = λ m. 0;
  restore_ip = λ b m. m;
  create_alloca = λ t n m. (address t m.next, record m { next = m.next + 1 });
  create_load = run_load;
  create_store = run_store;
  create_binary = binary;
  create_cmp = compare;
  create_not = λ a n m. (word (width a) (apply_one (λ x. some (2 ^ width a - 1 - x)) (bits a)), m);
  create_neg = λ a n m.
      (word (width a) (apply_one (λ x. some ((2 ^ width a - x) % 2 ^ width a)) (bits a)), m);
  create_is_not_null = λ a n. other a;
  create_in_bounds_gep = λ a vs. other a;
  create_fp_to_si = λ a t. other a;
  create_bit_cast = λ a t. other a;
  create_int_to_ptr = λ a t. other a;
  create_ptr_to_int = λ a t. other a;
  create_call = λ c vs n. other (word 64 none);
  create_br = λ b m. m;
  create_cond_br = λ v a b m. m;
  create_ret = λ v m. record m { result = bits v };
  create_ret_void = λ m. m;
  create_unreachable = λ m. m;
  new_binary = λ o a b. other a;
  new_icmp = λ c a b. other a;
  new_malloc = λ b t u v. other v;
  set_has_no_signed_wrap = λ v m. m;
  add_attribute = λ v a m. m;
  push_back = λ b v m. m;
  new_string_table = λ m. m;
  table_contains = λ n m. false;
  table_add = λ n m. m;
  table_finalize = λ m. m;
  table_size = λ m. 0;
  table_offset = λ n m. 0;
  is_get_element_ptr = λ v. false;
  is_user = λ v. false;
  replace_operand = λ v n w m. m;
  rand = other 0;
}

abbrev pub reading : Reading machine
reading = record {
  contents = holds;
  word = λ m. bits;
  IsWord = λ m w v. width v ≡ w;
  IsSlot = IsSlot;
  returned = λ m. m.result;
  bits_of = λ t. t;
  IsLive = IsLive;
  Preserves = λ m m'. Unit {0};
}

load_word :
    (m : Machine) (w : ℕ) (q : Value) (n : List ℕ)
    → IsSlot w q
    → Computes machine reading m w (holds m q) (run_load q n m)
unfolding run_load holds IsSlot width bits
load_word m w (address w' k) n h = ((tt, λ w'' v e. (e, refl)), λ q. refl, h, refl)
load_word m w (word w' x) n h = absurd h

store_slot :
    (m : Machine) (w : ℕ) (v q : Value)
    → width v ≡ w
    → IsSlot w q
    → holds (run_store v q m).1 q ≡ bits v
unfolding run_store holds IsSlot put
store_slot m w v (address w' k) e h = ground arith
store_slot m w v (word w' x) e h = absurd h

slot_congr : (u u' k k' : ℕ) → u ≡ u' → k ≡ k' → address u k ≡ address u' k'
slot_congr u u' k k' p q = cc

store_other :
    (m : Machine) (w w' : ℕ) (v q q' : Value)
    → IsSlot w q
    → IsSlot w' q'
    → q ≢ q'
    → holds (run_store v q m).1 q' ≡ holds m q'
unfolding run_store holds IsSlot put
store_other m w w' v (address u k) (address u' k') h h' apart =
    elim (Bool-cases (u == u' && k == k')) [
      | inl e ↦ absurd (apart (slot_congr u u' k k' (ground (arith, e)) (ground (arith, e))))
      | inr e ↦ rw e refl
    ]
store_other m w w' v (word u x) q' h h' apart = absurd h
store_other m w w' v (address u k) (word u' x) h h' apart = absurd h'

binary_word :
    (m : Machine) (o : Opcode) (w : ℕ) (a b : Value) (n : List ℕ) (i j x : ℕ)
    → width a ≡ w
    → width b ≡ w
    → bits a ≡ some i
    → bits b ≡ some j
    → opcode_word o w i j ≡ some x
    → Computes machine reading m w (some x) (binary o a b n m)
unfolding binary width bits apply_one apply_two
binary_word m o w a b n i j x ha hb hi hj h =
    ((tt, λ w' v e. (e, refl)), λ q. refl, ha, rw (hi, hj, apply_two, apply_one, ha, h) refl)

cmp_word :
    (m : Machine) (c : Predicate) (a b : Value) (n : List ℕ) (i j : ℕ) (x : Bool)
    → width a ≡ 64
    → width b ≡ 64
    → bits a ≡ some i
    → bits b ≡ some j
    → icmp c i j ≡ some x
    → Computes machine reading m 1 (some (bit x)) (compare c a b n m)
unfolding compare width bits apply_one apply_two of_bool
cmp_word m c a b n i j x ha hb hi hj h =
    ((tt, λ w' v e. (e, refl)), λ q. refl, refl, rw (hi, hj, apply_two, apply_one, h, of_bool) refl)

alloca_keeps :
    (m : Machine) (t : ℕ) (n : List ℕ) (q : Value)
    → IsLive m q
    → IsLive (record m { next = m.next + 1 }) q
unfolding IsLive
alloca_keeps m t n (word w x) h = h
alloca_keeps m t n (address w k) h = omega arith

-- The library that runs the code obeys the laws.
pub lawful : Lawful machine reading
unfolding width bits IsSlot IsLive apply_one
lawful = record {
  preserves_refl = λ m. tt;
  preserves_trans = λ m m' m'' h h'. tt;
  store_preserves = λ m v q. tt;
  alloca_preserves = λ m t n. tt;
  int64_word = λ m n. (refl, refl);
  int8_word = λ m n. (refl, refl);
  int1_word = λ m n. (refl, refl);
  load_word = load_word;
  store_slot = store_slot;
  store_other = store_other;
  binary_word = binary_word;
  cmp_word = cmp_word;
  not_word = λ m w a n i e h. ((tt, λ w' v e. (e, refl)), λ q. refl, e, rw (h, apply_one, e) refl);
  neg_word = λ m w a n i e h. ((tt, λ w' v e. (e, refl)), λ q. refl, e, rw (h, apply_one, e) refl);
  ret_word = λ m w x v e h. h;
  int64_bits = refl;
  int8_bits = refl;
  int1_bits = refl;
  alloca_slot = λ m t n. refl;
  alloca_live = λ m t n. omega arith;
  alloca_new = λ m t n h. omega arith;
  alloca_keeps = alloca_keeps;
}

lookup-append :
    (n m : List ℕ) (k g : ℕ) (es : List (List ℕ × ℕ))
    → lookup m es ≡ some g
    → lookup m (es ++ ((n, k) ∷ [])) ≡ some g
unfolding lookup
lookup-append n m k g [] h = cc
lookup-append n m k g ((i, a) ∷ es) h =
    let rest = lookup-append n m k g es in
    elim (Bool-cases (bytes_eq i m)) [
      | inl e ↦ ground (arith, e, h)
      | inr e ↦ ground (arith, e, h, rest)
    ]

lookup-last :
    (n : List ℕ) (k : ℕ) (es : List (List ℕ × ℕ))
    → (g : ℕ) × (lookup n (es ++ ((n, k) ∷ [])) ≡ some g)
unfolding lookup
lookup-last n k [] = (k, rw (bytes_eq_refl n) refl)
lookup-last n k ((i, a) ∷ es) =
    let (g, rest) = lookup-last n k es in
    elim (Bool-cases (bytes_eq i n)) [ inl e ↦ (a, rw e refl) | inr e ↦ (g, rw e rest) ]

-- Its table of functions keeps to LLVM's rules.
pub functions : FunctionTable machine
functions = record {
  create_found = λ m t n named free. lookup-last n 0 m.functions;
  create_keeps = λ m t n i g. lookup-append n i 0 g m.functions;
  struct_keeps = λ m ts n i. refl;
  create_globals = λ m t n i. refl;
  struct_globals = λ m ts n i. refl;
}
