-- ===== src/Run.antt =====
-- Runs of the program that may end without a result.
-- The ways in which a run ends without a result: a failed `assert`, `abort`, `llvm_unreachable`, an
-- exception that nothing catches, and undefined behaviour.
pub data Fault : Type 0 where
  -- `reserve` or a vector's constructor at a negative length
  length_error : Fault
  -- an index past the end of a vector, or of another kind of entry than the code asserts
  out_of_range : Fault
  wrong_entry : Fault
  byte_range : Fault
  invalid_type_tag : Fault
  unsupported_instruction : Fault
  unsupported_type_tag : Fault
  -- a member that no read has set
  indeterminate : Fault
  -- `front` of an empty queue
  empty_queue : Fault
  -- `std::find_if` found no variable or function
  not_found : Fault
  -- messages of the C runtime before `abort`
  capacity_overflow : Fault
  map_shrinking : Fault
  hashing_failure : Fault
  -- a loop that never ends
  endless : Fault
  -- the bound on nested calls that a definition takes was too small
  too_deep : Fault
  bad_variant_access : Fault
  unreachable : Fault
  -- a null pointer that is used
  null_pointer : Fault
  failed_assert : Fault
  -- `panic!`, a failed `unwrap` and a failed check of the Rust library
  panicked : Fault
  -- memory that nothing has written
  unwritten : Fault

pub data Run {ℓ} (A : Type ℓ) : Type ℓ where
  ok : A → Run A
  fault : Fault → Run A

infixl 5 ◌>>=◌
abbrev pub ◌>>=◌ {ℓ κ} : {A : Type ℓ} {B : Type κ} → Run A → (A → Run B) → Run B
ok a >>= f = f a
fault e >>= f = fault e
