-- ===== src/Codegen/Meaning.antt =====
-- What compiler/codegen relies on about the code that the LLVM library builds: the meaning of the
-- instructions that stand before the insertion point, as LLVM's language reference describes it.
use nballerina_cpp.Base.{
  ℕ, ◌+◌, ◌-◌, ◌*◌, ◌%◌, ◌^◌, ◌≡◌, ◌≢◌, Bool, not, Option, none, some, List, ◌==◌, int64,
}
use nballerina_cpp.Codegen.Llvm.{
  Opcode, add, sub, mul, bit_xor, Predicate, icmp_eq, icmp_ne, icmp_sgt, icmp_sge, icmp_slt,
  icmp_sle, Llvm,
}
use nballerina_cpp.Codegen.Interpreter.{less, bit}
use Prim.Native.Nat

-- The instructions with two operands of the same width, where the generator uses them for ints.
unfoldable pub opcode_word : Opcode → ℕ → ℕ → ℕ → Option ℕ
opcode_word add w a b = some ((a + b) % 2 ^ w)
opcode_word sub w a b = some ((a + (2 ^ w - b)) % 2 ^ w)
opcode_word mul w a b = some (a * b % 2 ^ w)
opcode_word bit_xor w a b = some (Nat.bit_xor a b)
opcode_word _ w a b = none

-- `icmp` on words of 64 bits.
unfoldable pub icmp : Predicate → ℕ → ℕ → Option Bool
unfolding less
icmp icmp_eq a b = some (a == b)
icmp icmp_ne a b = some (not (a == b))
icmp icmp_sgt a b = some (less (int64 b) (int64 a))
icmp icmp_sge a b = some (not (less (int64 a) (int64 b)))
icmp icmp_slt a b = some (less (int64 a) (int64 b))
icmp icmp_sle a b = some (not (less (int64 b) (int64 a)))
icmp _ a b = none

-- An execution that has come to the insertion point: what the memory holds at an address and the word
-- that a value is, where `none` is one that nothing determines, as in memory that has not been written;
-- which values are there with which width, which values are the addresses of the
-- function's own stack slots with which width, and what the function has returned. A type has a width,
-- and a slot is live from the `alloca` that makes it. An instruction preserves the code that stands in
-- other places.
pub record Reading (L : Llvm) : Type 1 where
  pub contents : L.State → L.Value → Option ℕ
  pub word : L.State → L.Value → Option ℕ
  pub IsWord : L.State → ℕ → L.Value → Type 0
  pub IsSlot : ℕ → L.Value → Type 0
  pub returned : L.State → Option ℕ
  pub bits_of : L.Ty → ℕ
  pub IsLive : L.State → L.Value → Type 0
  pub Preserves : L.State → L.State → Type 0

-- What an instruction leaves alone: the other code, and the words that were there.
abbrev pub Extends : (L : Llvm) → Reading L → L.State → L.State → Type 0
Extends L R s s' =
    R.Preserves s s'
    × ((w : ℕ) (v : L.Value) → R.IsWord s w v → R.IsWord s' w v × (R.word s' v ≡ R.word s v))

-- An instruction without an effect on the memory that computes the word `x`.
abbrev pub Computes : (L : Llvm) → Reading L → L.State → ℕ → Option ℕ → L.Value × L.State → Type 0
Computes L R s w x r =
    Extends L R s r.1
    × ((q : L.Value) → R.contents r.1 q ≡ R.contents s q)
    × R.IsWord r.1 w r.0
    × (R.word r.1 r.0 ≡ x)

-- The laws of the builder's methods.
pub record Lawful (L : Llvm) (R : Reading L) : Type 1 where
  pub preserves_refl : (s : L.State) → R.Preserves s s
  pub preserves_trans :
      (s s' s'' : L.State) → R.Preserves s s' → R.Preserves s' s'' → R.Preserves s s''
  pub store_preserves : (s : L.State) (v q : L.Value) → R.Preserves s (L.create_store v q s).1
  pub alloca_preserves :
      (s : L.State) (t : L.Ty) (n : List ℕ) → R.Preserves s (L.create_alloca t n s).1
  pub int64_word :
      (s : L.State) (n : ℕ)
      → R.IsWord s 64 (L.const_int L.int64_ty n)
        × (R.word s (L.const_int L.int64_ty n) ≡ some (n % 2 ^ 64))
  pub int8_word :
      (s : L.State) (n : ℕ)
      → R.IsWord s 8 (L.const_int L.int8_ty n)
        × (R.word s (L.const_int L.int8_ty n) ≡ some (n % 2 ^ 8))
  pub int1_word :
      (s : L.State) (n : ℕ)
      → R.IsWord s 1 (L.const_int L.int1_ty n) × (R.word s (L.const_int L.int1_ty n) ≡ some (n % 2))
  pub load_word :
      (s : L.State) (w : ℕ) (q : L.Value) (n : List ℕ)
      → R.IsSlot w q
      → Computes L R s w (R.contents s q) (L.create_load q n s)
  pub store_slot :
      (s : L.State) (w : ℕ) (v q : L.Value)
      → R.IsWord s w v
      → R.IsSlot w q
      → R.contents (L.create_store v q s).1 q ≡ R.word s v
  pub store_other :
      (s : L.State) (w w' : ℕ) (v q q' : L.Value)
      → R.IsSlot w q
      → R.IsSlot w' q'
      → q ≢ q'
      → R.contents (L.create_store v q s).1 q' ≡ R.contents s q'
  pub binary_word :
      (s : L.State) (o : Opcode) (w : ℕ) (a b : L.Value) (n : List ℕ) (i j x : ℕ)
      → R.IsWord s w a
      → R.IsWord s w b
      → R.word s a ≡ some i
      → R.word s b ≡ some j
      → opcode_word o w i j ≡ some x
      → Computes L R s w (some x) (L.create_binary o a b n s)
  pub cmp_word :
      (s : L.State) (c : Predicate) (a b : L.Value) (n : List ℕ) (i j : ℕ) (x : Bool)
      → R.IsWord s 64 a
      → R.IsWord s 64 b
      → R.word s a ≡ some i
      → R.word s b ≡ some j
      → icmp c i j ≡ some x
      → Computes L R s 1 (some (bit x)) (L.create_cmp c a b n s)
  pub not_word :
      (s : L.State) (w : ℕ) (a : L.Value) (n : List ℕ) (i : ℕ)
      → R.IsWord s w a
      → R.word s a ≡ some i
      → Computes L R s w (some (2 ^ w - 1 - i)) (L.create_not a n s)
  pub neg_word :
      (s : L.State) (w : ℕ) (a : L.Value) (n : List ℕ) (i : ℕ)
      → R.IsWord s w a
      → R.word s a ≡ some i
      → Computes L R s w (some ((2 ^ w - i) % 2 ^ w)) (L.create_neg a n s)
  pub ret_word :
      (s : L.State) (w x : ℕ) (v : L.Value)
      → R.IsWord s w v
      → R.word s v ≡ some x
      → R.returned (L.create_ret v s) ≡ some x
  pub int64_bits : R.bits_of L.int64_ty ≡ 64
  pub int8_bits : R.bits_of L.int8_ty ≡ 8
  pub int1_bits : R.bits_of L.int1_ty ≡ 1
  pub alloca_slot :
      (s : L.State) (t : L.Ty) (n : List ℕ) → R.IsSlot (R.bits_of t) (L.create_alloca t n s).0
  pub alloca_live :
      (s : L.State) (t : L.Ty) (n : List ℕ)
      → R.IsLive (L.create_alloca t n s).1 (L.create_alloca t n s).0
  pub alloca_new : (s : L.State) (t : L.Ty) (n : List ℕ) → R.IsLive s (L.create_alloca t n s).0 → ⊥
  pub alloca_keeps :
      (s : L.State) (t : L.Ty) (n : List ℕ) (q : L.Value)
      → R.IsLive s q
      → R.IsLive (L.create_alloca t n s).1 q
