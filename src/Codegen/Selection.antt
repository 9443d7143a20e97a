-- ===== src/Codegen/Selection.antt =====
-- compiler/codegen/BinaryOpInsnCodeGen.cpp: which instruction is chosen.
use nballerina_cpp.Base.{◌≡◌, refl, sym, ◌⊎◌, inl, inr, Bool, true, false}
use nballerina_cpp.Bir.TypeTag.{TypeTag, type_tag_int, type_tag_float, type_tag_nil}
use nballerina_cpp.Bir.Kinds.{
  InstructionKind, instruction_kind_binary_add, instruction_kind_binary_sub,
  instruction_kind_binary_mul, instruction_kind_binary_div, instruction_kind_binary_mod,
  instruction_kind_binary_equal, instruction_kind_binary_not_equal,
  instruction_kind_binary_greater_than, instruction_kind_binary_greater_equal,
  instruction_kind_binary_less_than, instruction_kind_binary_less_equal,
  instruction_kind_binary_bitwise_xor,
}
use nballerina_cpp.Run.{unreachable, ok, fault}
use nballerina_cpp.Codegen.Llvm.{
  fadd, fsub, fmul, fdiv, frem, bit_xor, icmp_eq, fcmp_oeq, fcmp_one, fcmp_ogt, fcmp_oge, fcmp_olt,
  fcmp_ole,
}
use nballerina_cpp.Codegen.Insns.{
  BinaryCall, arithmetic, comparison, int_or_float, equality, select_binary,
}

-- The instructions on floats, and those with a Boolean result.
unfoldable pub on_floats : BinaryCall → Bool
on_floats (arithmetic fadd) = true
on_floats (arithmetic fsub) = true
on_floats (arithmetic fmul) = true
on_floats (arithmetic fdiv) = true
on_floats (arithmetic frem) = true
on_floats (comparison fcmp_oeq) = true
on_floats (comparison fcmp_one) = true
on_floats (comparison fcmp_ogt) = true
on_floats (comparison fcmp_oge) = true
on_floats (comparison fcmp_olt) = true
on_floats (comparison fcmp_ole) = true
on_floats _ = false

unfoldable pub compares : BinaryCall → Bool
compares (comparison c) = true
compares (arithmetic o) = false

-- The operators that Ballerina gives the type boolean.
unfoldable pub is_comparison : InstructionKind → Bool
is_comparison instruction_kind_binary_equal = true
is_comparison instruction_kind_binary_not_equal = true
is_comparison instruction_kind_binary_greater_than = true
is_comparison instruction_kind_binary_greater_equal = true
is_comparison instruction_kind_binary_less_than = true
is_comparison instruction_kind_binary_less_equal = true
is_comparison _ = false

-- The instruction `c` is one for operands of the type `t`: both are about floats, or neither is, and
-- nils are compared for equality alone.
abbrev pub FitsType : InstructionKind → TypeTag → BinaryCall → Type 0
FitsType k t c =
    ((t ≡ type_tag_float) × (on_floats c ≡ true))
    ⊎ (((t ≡ type_tag_int) × (on_floats c ≡ false))
        ⊎ ((t ≡ type_tag_nil) × ((k ≡ instruction_kind_binary_equal) × (on_floats c ≡ false))))

ok_eq : (a c : BinaryCall) → ok a ≡ ok c → a ≡ c
ok_eq a c h = cc

not_fault : {c : BinaryCall} → fault unreachable ≡ ok c → ⊥
not_fault h = cc

int_or_float-FitsType :
    (k : InstructionKind) (t : TypeTag) (i f c : BinaryCall) (z : Bool)
    → on_floats i ≡ false
    → on_floats f ≡ true
    → compares i ≡ z
    → compares f ≡ z
    → int_or_float t i f ≡ ok c
    → FitsType k t c × (compares c ≡ z)
unfolding int_or_float
int_or_float-FitsType k type_tag_int i f c z hi hf ci cf h =
    let same = ok_eq i c h in (inr (inl (refl, rw (sym same) hi)), rw (sym same) ci)
int_or_float-FitsType k type_tag_float i f c z hi hf ci cf h =
    let same = ok_eq f c h in (inl (refl, rw (sym same) hf), rw (sym same) cf)
int_or_float-FitsType k _ i f c z hi hf ci cf h = absurd (not_fault h)

equality-FitsType :
    (t : TypeTag) (c : BinaryCall)
    → equality t ≡ ok c
    → FitsType instruction_kind_binary_equal t c × (compares c ≡ true)
unfolding equality on_floats compares
equality-FitsType type_tag_nil c h =
    let same = ok_eq (comparison icmp_eq) c h in
    (inr (inr (refl, (refl, rw (sym same) refl))), rw (sym same) refl)
equality-FitsType t c h =
    int_or_float-FitsType instruction_kind_binary_equal t _ _ c true refl refl refl refl h

choose :
    (k : InstructionKind) (t : TypeTag) (i f c : BinaryCall) (z : Bool)
    → on_floats i ≡ false
    → on_floats f ≡ true
    → compares i ≡ z
    → compares f ≡ z
    → int_or_float t i f ≡ ok c
    → ((k ≡ instruction_kind_binary_bitwise_xor) ⊎ FitsType k t c) × (compares c ≡ z)
choose k t i f c z hi hf ci cf h =
    let (fits, e) = int_or_float-FitsType k t i f c z hi hf ci cf h in (inr fits, e)

-- The instruction that BinaryOpInsn gets has a Boolean result exactly where the operator is a
-- comparison, and, but for exclusive or, which is built for operands of every type, it is one of
-- floats for floats and one of integers for ints and for nils that are compared for equality;
-- operands of other types get none.
pub select_binary-FitsType :
    (k : InstructionKind) (t : TypeTag) (c : BinaryCall)
    → select_binary k t ≡ ok c
    → ((k ≡ instruction_kind_binary_bitwise_xor) ⊎ FitsType k t c) × (compares c ≡ is_comparison k)
unfolding select_binary on_floats compares is_comparison
select_binary-FitsType instruction_kind_binary_add t c h =
    choose instruction_kind_binary_add t _ _ c _ refl refl refl refl h
select_binary-FitsType instruction_kind_binary_sub t c h =
    choose instruction_kind_binary_sub t _ _ c _ refl refl refl refl h
select_binary-FitsType instruction_kind_binary_mul t c h =
    choose instruction_kind_binary_mul t _ _ c _ refl refl refl refl h
select_binary-FitsType instruction_kind_binary_div t c h =
    choose instruction_kind_binary_div t _ _ c _ refl refl refl refl h
select_binary-FitsType instruction_kind_binary_mod t c h =
    choose instruction_kind_binary_mod t _ _ c _ refl refl refl refl h
select_binary-FitsType instruction_kind_binary_equal t c h =
    let (fits, z) = equality-FitsType t c h in (inr fits, z)
select_binary-FitsType instruction_kind_binary_not_equal t c h =
    choose instruction_kind_binary_not_equal t _ _ c _ refl refl refl refl h
select_binary-FitsType instruction_kind_binary_greater_than t c h =
    choose instruction_kind_binary_greater_than t _ _ c _ refl refl refl refl h
select_binary-FitsType instruction_kind_binary_greater_equal t c h =
    choose instruction_kind_binary_greater_equal t _ _ c _ refl refl refl refl h
select_binary-FitsType instruction_kind_binary_less_than t c h =
    choose instruction_kind_binary_less_than t _ _ c _ refl refl refl refl h
select_binary-FitsType instruction_kind_binary_less_equal t c h =
    choose instruction_kind_binary_less_equal t _ _ c _ refl refl refl refl h
select_binary-FitsType instruction_kind_binary_bitwise_xor t c h =
    let same = ok_eq (arithmetic bit_xor) c h in (inl refl, rw (sym same) refl)
select_binary-FitsType _ t c h = absurd (not_fault h)
