-- ===== src/Reader/Function.antt =====
-- compiler/reader/BIRReadFunction.cpp
use nballerina_cpp.Base.{
  ℕ, zero, suc, ◌%◌, ◌^◌, Bool, true, false, ◌||◌, none, List, [], ◌∷◌, ◌++◌, if◌then◌else◌, codes,
  starts_with, ℤ, bits64,
}
use nballerina_cpp.Bir.Types.{BalType}
use nballerina_cpp.Bir.Kinds.{VarKind, local_var_kind, arg_var_kind, to_var_kind, is_arg}
use nballerina_cpp.Bir.Insn.{Operand}
use nballerina_cpp.Bir.Program.{
  new_location, Variable, FunctionParam, BasicBlock, BirFunction, BirPackage,
}
use nballerina_cpp.Run.{empty_queue, Run, ok, fault}
use nballerina_cpp.Reader.Monad.{
  Reader, pure, ◌>>=◌, ◌>>◌, lift, rounds, reserve, loop, vector, optional,
}
use nballerina_cpp.Reader.Primitives.{read_u1, read_s4be, read_s8be, ignore}
use nballerina_cpp.Reader.Pool.Set.{ConstantPoolSet}
use nballerina_cpp.Reader.Pool.Lookup.{get_type_cp, get_invocable_type}
use nballerina_cpp.Reader.Insns.{string_at}
use nballerina_cpp.Reader.Block.{read_basic_block}

ignore_names : List (List ℕ)
ignore_names =
    codes ".<init>"
    ∷ codes ".<start>"
    ∷ codes ".<stop>"
    ∷ codes "..<init>"
    ∷ codes "..<start>"
    ∷ codes "..<stop>"
    ∷ []

starts_with_any : List ℕ → List (List ℕ) → Bool
starts_with_any func_name [] = false
starts_with_any func_name (n ∷ ns) = starts_with func_name n || starts_with_any func_name ns

unfoldable pub ignore_function : List ℕ → Bool
unfolding ignore_names starts_with_any starts_with
ignore_function func_name = starts_with_any func_name ignore_names

-- What follows the name of an argument, and of a local variable.
unfoldable pub read_var_meta : VarKind → Reader (Unit {0})
read_var_meta arg_var_kind = do _ ← read_s4be; pure tt
read_var_meta local_var_kind = do
  _ ← read_s4be
  _ ← read_s4be
  _ ← read_s4be
  _ ← read_s4be
  pure tt
read_var_meta _ = pure tt

unfoldable pub read_arg_meta : Bool → Reader (Unit {0})
read_arg_meta true = do _ ← read_s4be; pure tt
read_arg_meta false = pure tt

unfoldable pub read_scope_entry : Reader (Unit {0})
read_scope_entry = do
  _ ← read_s4be
  _ ← read_s4be
  has_parent ← read_u1
  _ ← optional has_parent read_s4be
  pure tt

unfoldable pub read_receiver : Reader (Unit {0})
read_receiver = do _ ← read_u1; _ ← read_s4be; _ ← read_s4be; pure tt

-- The function is kept unless the caller or its name says otherwise; the source file's name is
-- taken in any case.
unfoldable pub keep_function : Bool → List ℕ → BirFunction → BirPackage → BirPackage
keep_function ignored file f p =
    if ignored || ignore_function f.name
    then record p { source_file_name = file }
    else record p { source_file_name = file; functions = p.functions ++ (f ∷ []) }

-- `front` and `pop` of the `std::queue`; of an empty queue they are undefined.
unfoldable pub front : List Operand → Run Operand
front [] = fault empty_queue
front (operand' ∷ queue) = ok operand'

unfoldable pub pop : List Operand → List Operand
pop [] = []
pop (operand' ∷ queue) = queue

module _ (cp : ConstantPoolSet) where
  unfoldable pub type_at : ℤ → Reader BalType
  type_at index = lift (get_type_cp cp index false)

  unfoldable pub read_local_var : Reader Variable
  read_local_var = do
    kind' ← read_u1
    type_index ← read_s4be
    type' ← type_at type_index
    name_index ← read_s4be
    read_var_meta (to_var_kind kind')
    name' ← string_at cp name_index
    pure (record { type_of = type'; name = name'; kind = to_var_kind kind' })

  -- The `returnVar` of a function.
  unfoldable pub read_return_var : Reader Variable
  read_return_var = do
    kind' ← read_u1
    type_index ← read_s4be
    type' ← type_at type_index
    name_index ← read_s4be
    name' ← string_at cp name_index
    pure (record { type_of = type'; name = name'; kind = to_var_kind kind' })

  -- The name of a required parameter, with its flags.
  unfoldable pub read_param_name : Reader Operand
  read_param_name = do
    name_index ← read_s4be
    name' ← string_at cp name_index
    _ ← read_s8be
    pure (record { name = name'; kind = arg_var_kind })

  -- The loop over the parameters with defaults: it takes the names off the front of the queue.
  unfoldable pub read_params : ℕ → List Operand → Reader (List FunctionParam)
  unfolding front pop
  read_params zero queue = pure []
  read_params (suc n) queue = do
    kind' ← read_u1
    type_index ← read_s4be
    operand' ← lift (front queue)
    type' ← type_at type_index
    _ ← read_s4be
    read_arg_meta (is_arg (to_var_kind kind'))
    _ ← read_u1
    rest ← read_params n (pop queue)
    pure (record { operand = operand'; type_of = type' } ∷ rest)

  -- The blocks of one default value are read and dropped.
  unfoldable pub read_default_blocks : Reader (List BasicBlock)
  read_default_blocks = do count ← read_s4be; loop count (read_basic_block cp)

  -- From the annotations to the required parameters' names and back: what is read before the body.
  unfoldable pub read_signature_part : Reader (List Operand)
  read_signature_part = do
    annotation_length ← read_s8be
    ignore annotation_length
    required_count ← read_s4be
    names ← loop required_count read_param_name
    has_rest ← read_u1
    _ ← optional has_rest read_s4be
    has_receiver ← read_u1
    _ ← optional has_receiver read_receiver
    taint_length ← read_s8be
    ignore taint_length
    doc_length ← read_s4be
    ignore doc_length
    global_count ← read_s4be
    _ ← loop global_count read_s4be
    _ ← read_s8be
    scope_count ← read_s4be
    _ ← loop scope_count read_scope_entry
    pure names

  -- The body: the return variable, the parameters, the local variables and the blocks.
  unfoldable pub read_body_part : List Operand → BirFunction → Reader BirFunction
  read_body_part names f = do
    _ ← read_s8be
    _ ← read_s4be
    has_return ← read_u1
    return_var' ← optional has_return read_return_var
    params_count ← read_s4be
    reserve params_count
    params' ← read_params (rounds params_count) names
    local_count ← read_s4be
    locals ← vector local_count read_local_var
    _ ← loop params_count read_default_blocks
    block_count ← read_s4be
    blocks ← vector block_count (read_basic_block cp)
    _ ← read_s4be
    _ ← read_s4be
    pure (record f {
      return_var = return_var';
      required_params = params';
      local_vars = locals;
      basic_blocks = blocks;
    })

  -- The header of a function. The location is made with the arguments in the order of the call.
  unfoldable pub read_function_head : Reader (List ℕ × BirFunction)
  read_function_head = do
    file_index ← read_s4be
    s_line' ← read_s4be
    s_col' ← read_s4be
    e_line' ← read_s4be
    e_col' ← read_s4be
    file ← string_at cp file_index
    name_index ← read_s4be
    name' ← string_at cp name_index
    worker_index ← read_s4be
    flags' ← read_s8be
    _ ← read_u1
    type_index ← read_s4be
    _ ← lift (get_invocable_type cp type_index)
    worker ← string_at cp worker_index
    pure (
      file,
      record {
        location = new_location file s_line' e_line' s_col' e_col';
        name = name';
        worker_name = worker;
        flags = bits64 flags' % 2 ^ 32;
        return_var = none;
        local_vars = [];
        basic_blocks = [];
        required_params = [];
      },
    )

  unfoldable pub read_function : Bool → BirPackage → Reader BirPackage
  read_function ignored p = do
    (file, head) ← read_function_head
    names ← read_signature_part
    f ← read_body_part names head
    pure (keep_function ignored file f p)
