-- ===== src/Codegen/Jumps.antt =====
-- What the blocks of a function mean, apart from compiler/codegen: an interpreter of BIR that follows
-- the branches from block to block.
use nballerina_cpp.Base.{
  ℕ, zero, suc, ◌+◌, Option, none, some, List, [], ◌∷◌, ◌==◌, if◌then◌else◌, bytes_eq,
}
use nballerina_cpp.Bir.Insn.{TerminatorInsn, condition_br_insn, goto_insn, return_insn}
use nballerina_cpp.Bir.Program.{Variable, is_paramter, BasicBlock}
use nballerina_cpp.Codegen.Interpreter.{Env, steps}

-- How a block ends: with the label to go on at, or with the value of the return variable.
pub data Exit : Type 0 where
  jump : List ℕ → Exit
  result : ℕ → Exit

unfoldable pub branch : Option ℕ → List ℕ → List ℕ → Option Exit
branch none then_id else_id = none
branch (some x) then_id else_id = some (jump (if x == 0 then else_id else then_id))

unfoldable pub give : Option ℕ → Option Exit
give none = none
give (some x) = some (result x)

-- A condition or a return variable without a value stops the run.
unfoldable pub leave : List ℕ → Option TerminatorInsn → Env → Option Exit
unfolding branch give
leave ret (some (condition_br_insn lhs then_id else_id)) env = branch (env lhs.name) then_id else_id
leave ret (some (goto_insn id')) env = some (jump id')
leave ret (some return_insn) env = give (env ret)
leave ret _ env = none

unfoldable pub with_env : Env → Option Exit → Option (Exit × Env)
with_env env none = none
with_env env (some e) = some (e, env)

unfoldable pub run_block : List ℕ → BasicBlock → Env → Option (Exit × Env)
unfolding with_env
run_block ret bb env = elim (steps bb.instructions env) [
  | none ↦ none
  | some env' ↦ with_env env' (leave ret bb.terminator env')
]

unfoldable pub find_block : List ℕ → List BasicBlock → Option BasicBlock
find_block id' [] = none
find_block id' (bb ∷ bbs) = if bytes_eq bb.id id' then some bb else find_block id' bbs

unfoldable pub run_found : List ℕ → Option BasicBlock → Env → Option (Exit × Env)
unfolding run_block
run_found ret none env = none
run_found ret (some bb) env = run_block ret bb env

unfoldable pub go_on : (List ℕ → Env → Option ℕ) → Option (Exit × Env) → Option ℕ
go_on next none = none
go_on next (some (jump id', env)) = next id' env
go_on next (some (result x, env)) = some x

-- A run of at most as many blocks as the fuel, from the block of a label.
unfoldable pub run_blocks : List BasicBlock → List ℕ → ℕ → List ℕ → Env → Option ℕ
unfolding find_block run_found go_on
run_blocks bbs ret zero id' env = none
run_blocks bbs ret (suc n) id' env =
    go_on (run_blocks bbs ret n) (run_found ret (find_block id' bbs) env)

-- The number of the argument that the variable of a name takes: parameters stand among the variables
-- in their order, and the first variable of a name counts.
unfoldable pub argument_of : List ℕ → ℕ → List Variable → Option ℕ
argument_of n i [] = none
argument_of n i (v ∷ vs) =
    let rest = argument_of n (if is_paramter v then i + 1 else i) vs in
    if bytes_eq v.name n then (if is_paramter v then some i else none) else rest

unfoldable pub argument : (ℕ → ℕ) → Option ℕ → Option ℕ
argument args none = none
argument args (some k) = some (args k)

-- The values of the variables at the start: only parameters have one.
unfoldable pub with_arguments : (ℕ → ℕ) → List Variable → Env
unfolding argument_of argument
with_arguments args vs n = argument args (argument_of n 0 vs)
