-- ===== src/Codegen/Llvm.antt =====
-- The LLVM library as the generator calls it: an unknown state (the context, the module and the
-- `IRBuilder`) with one operation for each method that compiler/codegen uses.
use nballerina_cpp.Base.{ℕ, Bool, Option, List}

-- The methods of the builder with two operands and a name, and the operators of detached instructions.
pub data Opcode : Type 0 where
  add fadd sub fsub mul fmul udiv fdiv urem frem bit_xor shl ashr bit_and bit_or : Opcode

pub data Predicate : Type 0 where
  icmp_eq icmp_ne icmp_sgt icmp_sge icmp_slt icmp_sle : Predicate
  fcmp_oeq fcmp_one fcmp_ogt fcmp_oge fcmp_olt fcmp_ole : Predicate

pub data Attribute : Type 0 where
  no_return no_unwind : Attribute

pub data Linkage : Type 0 where
  external_linkage internal_linkage private_linkage : Linkage

-- A null pointer is `none` where the library may return one.
pub record Llvm : Type 1 where
  pub State : Type 0
  pub Ty : Type 0
  pub Value : Type 0
  pub Block : Type 0
  pub Func : Type 0
  pub Callee : Type 0
  pub Point : Type 0
  -- Types, which the context makes unique.
  pub void_ty : Ty
  pub int1_ty : Ty
  pub int8_ty : Ty
  pub int64_ty : Ty
  pub double_ty : Ty
  pub int8_ptr_ty : Ty
  pub int64_ptr_ty : Ty
  pub pointer_type : Ty → Ty
  pub array_type : Ty → ℕ → Ty
  pub function_type : Ty → List Ty → Bool → Ty
  pub type_of : Value → Ty
  pub get_type_by_name : List ℕ → State → Option Ty
  pub struct_create : List Ty → List ℕ → State → Ty × State
  -- Constants. An integer is its bit pattern, and so is a floating-point number.
  pub const_int : Ty → ℕ → Value
  pub const_fp : ℕ → Value
  pub null_value : Ty → Value
  pub get_string : List ℕ → Bool → Value
  pub const_struct : Ty → List Value → Value
  -- The module.
  pub set_source_file_name : List ℕ → State → State
  pub get_global_variable : List ℕ → Bool → State → Option Value
  pub new_global_variable : Ty → Bool → Linkage → Option Value → List ℕ → State → Value × State
  pub set_alignment : Value → ℕ → State → State
  pub set_initializer : Value → Value → State → State
  pub get_function : List ℕ → State → Option Func
  pub function_create : Ty → List ℕ → State → Func × State
  pub get_or_insert_function : List ℕ → Ty → State → Callee × State
  pub callee : Func → Callee
  pub argument : Func → ℕ → Value
  pub set_name : Value → List ℕ → State → State
  pub verify_function : Func → State → Bool
  pub verify_module : State → Bool
  -- The builder.
  pub block_create : List ℕ → Func → State → Block × State
  pub set_insert_point : Block → State → State
  pub save_ip : State → Point
  pub restore_ip : Point → State → State
  pub create_alloca : Ty → List ℕ → State → Value × State
  pub create_load : Value → List ℕ → State → Value × State
  pub create_store : Value → Value → State → Value × State
  pub create_binary : Opcode → Value → Value → List ℕ → State → Value × State
  pub create_cmp : Predicate → Value → Value → List ℕ → State → Value × State
  pub create_not : Value → List ℕ → State → Value × State
  pub create_neg : Value → List ℕ → State → Value × State
  pub create_is_not_null : Value → List ℕ → State → Value × State
  pub create_in_bounds_gep : Value → List Value → State → Value × State
  pub create_fp_to_si : Value → Ty → State → Value × State
  pub create_bit_cast : Value → Ty → State → Value × State
  pub create_int_to_ptr : Value → Ty → State → Value × State
  pub create_ptr_to_int : Value → Ty → State → Value × State
  pub create_call : Callee → List Value → List ℕ → State → Value × State
  pub create_br : Block → State → State
  pub create_cond_br : Value → Block → Block → State → State
  pub create_ret : Value → State → State
  pub create_ret_void : State → State
  pub create_unreachable : State → State
  -- Instructions that stand in no block until they are pushed to the back of one.
  pub new_binary : Opcode → Value → Value → State → Value × State
  pub new_icmp : Predicate → Value → Value → State → Value × State
  pub new_malloc : Block → Ty → Ty → Value → State → Value × State
  pub set_has_no_signed_wrap : Value → State → State
  pub add_attribute : Value → Attribute → State → State
  pub push_back : Block → Value → State → State
  -- `StringTableBuilder`
  pub new_string_table : State → State
  pub table_contains : List ℕ → State → Bool
  pub table_add : List ℕ → State → State
  pub table_finalize : State → State
  pub table_size : State → ℕ
  pub table_offset : List ℕ → State → ℕ
  -- `dyn_cast`s, and `replaceAllUsesWith` on an operand of an instruction
  pub is_get_element_ptr : Value → Bool
  pub is_user : Value → Bool
  pub replace_operand : Value → ℕ → Value → State → State
  -- `std::rand()`
  pub rand : State → ℕ × State
