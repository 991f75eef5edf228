-- ===== src/Debug.antt =====
-- src/debug.c: the disassembler. What is printed is a value: `name` and the layout of a line follow
-- from its instruction. `none` is a read outside an array, or a constant of OP_CLOSURE that is no
-- function.
pub mod Reads
pub mod Walk
pub mod Targets
use my_clox.Prelude.{
  ◌>>=◌, ℕ, zero, suc, ◌+◌, ◌-◌, ◌*◌, ◌%◌, Bool, true, false, ◌&&◌, ◌||◌, ltb, ◌==◌, if◌then◌else◌,
  bit_or, List, [], ◌∷◌, Option, none, some, get_elem?,
}
use my_clox.Prelude.Integers.{ℤ, pos, negsuc, ◌+ℤ◌, ◌*ℤ◌}
use my_clox.Value.{Value, as_obj}
use my_clox.Chunk.{Position, Chunk}
use my_clox.Object.{
  Heap, Obj, Body, bound_method, klass, closure, function, native, text, upvalue, instance_of,
}
use my_clox.Opcodes.{
  op_constant, op_nil, op_true, op_false, op_pop, op_get_local, op_set_local, op_get_global,
  op_define_global, op_set_global, op_get_upvalue, op_set_upvalue, op_get_property, op_set_property,
  op_get_super, op_equal, op_greater, op_less, op_add, op_subtract, op_multiply, op_divide, op_not,
  op_negate, op_print, op_jump, op_jump_if_false, op_loop, op_call, op_invoke, op_super_invoke,
  op_closure, op_close_upvalue, op_return, op_class, op_inherit, op_method,
}

-- What is shown of an instruction. Of a jump, the bytes `jump` are kept beside the target that is
-- printed. A captured variable is its `isLocal` and its index.
pub data Shown : Type 0 where
  constant_line : (instruction constant : ℕ) → Value → Shown
  invoke_line : (instruction arg_count constant : ℕ) → Value → Shown
  simple_line : (instruction : ℕ) → Shown
  byte_line : (instruction slot : ℕ) → Shown
  jump_line : (instruction jump : ℕ) (target : ℤ) → Shown
  closure_line : (constant : ℕ) → Value → List (ℕ × ℕ) → Shown
  unknown_line : (instruction : ℕ) → Shown

unfoldable pub constant_instruction : ℕ → Chunk → ℕ → Option (Shown × ℕ)
constant_instruction instruction chunk offset = do
  constant ← get_elem? chunk.code (offset + 1)
  value ← get_elem? chunk.constants.values constant
  some (constant_line instruction constant value, offset + 2)

unfoldable pub invoke_instruction : ℕ → Chunk → ℕ → Option (Shown × ℕ)
invoke_instruction instruction chunk offset = do
  constant ← get_elem? chunk.code (offset + 1)
  arg_count ← get_elem? chunk.code (offset + 2)
  value ← get_elem? chunk.constants.values constant
  some (invoke_line instruction arg_count constant value, offset + 3)

unfoldable pub simple_instruction : ℕ → ℕ → Option (Shown × ℕ)
simple_instruction instruction offset = some (simple_line instruction, offset + 1)

unfoldable pub byte_instruction : ℕ → Chunk → ℕ → Option (Shown × ℕ)
byte_instruction instruction chunk offset = do
  slot ← get_elem? chunk.code (offset + 1)
  some (byte_line instruction slot, offset + 2)

-- `jump` is `(uint16_t)(high << 8) | low`.
unfoldable pub jump_instruction : ℕ → ℤ → Chunk → ℕ → Option (Shown × ℕ)
jump_instruction instruction sign chunk offset = do
  high ← get_elem? chunk.code (offset + 1)
  low ← get_elem? chunk.code (offset + 2)
  let jump = bit_or (high * 256 % 65536) low
  some (jump_line instruction jump (pos (offset + 3) +ℤ sign *ℤ pos jump), offset + 3)

-- `AS_FUNCTION(value)->upvalueCount`
abbrev pub upvalues_of : Body → Option ℕ
upvalues_of (function f) = some f.upvalue_count
upvalues_of _ = none

unfoldable pub function_upvalues : Heap → Value → Option ℕ
function_upvalues heap value = heap (as_obj value) >>= λ o. upvalues_of o.body

unfoldable pub read_captures : List ℕ → ℕ → ℕ → Option (List (ℕ × ℕ) × ℕ)
read_captures code zero offset = some ([], offset)
read_captures code (suc count) offset = do
  is_local ← get_elem? code offset
  index ← get_elem? code (offset + 1)
  (captures, next) ← read_captures code count (offset + 2)
  some ((is_local, index) ∷ captures, next)

unfoldable pub closure_instruction : Heap → Chunk → ℕ → Option (Shown × ℕ)
closure_instruction heap chunk offset = do
  constant ← get_elem? chunk.code (offset + 1)
  value ← get_elem? chunk.constants.values constant
  count ← function_upvalues heap value
  (captures, next) ← read_captures chunk.code count (offset + 2)
  some (closure_line constant value captures, next)

abbrev pub one_of : List ℕ → ℕ → Bool
one_of [] n = false
one_of (m ∷ ms) n = n == m || one_of ms n

abbrev pub constant_ops : List ℕ
constant_ops =
    op_constant ∷ op_define_global ∷ op_get_global ∷ op_set_global ∷ op_class ∷ op_get_property
    ∷ op_set_property ∷ op_method ∷ op_get_super ∷ []

abbrev pub byte_ops : List ℕ
byte_ops = op_get_upvalue ∷ op_set_upvalue ∷ op_get_local ∷ op_set_local ∷ op_call ∷ []

abbrev pub simple_ops : List ℕ
simple_ops =
    op_nil ∷ op_true ∷ op_false ∷ op_pop ∷ op_equal ∷ op_greater ∷ op_less ∷ op_add ∷ op_subtract
    ∷ op_multiply ∷ op_divide ∷ op_not ∷ op_negate ∷ op_print ∷ op_return ∷ op_close_upvalue
    ∷ op_inherit ∷ []

abbrev pub jump_ops : List ℕ
jump_ops = op_loop ∷ op_jump ∷ op_jump_if_false ∷ []

-- The argument `sign` of each.
abbrev pub sign_of : ℕ → ℤ
sign_of instruction = if instruction == op_loop then negsuc 0 else pos 1

abbrev pub invoke_ops : List ℕ
invoke_ops = op_invoke ∷ op_super_invoke ∷ []

-- The `switch` of `disassembleInstruction`.
unfoldable pub disassemble_at : Heap → Chunk → ℕ → ℕ → Option (Shown × ℕ)
disassemble_at heap chunk offset instruction =
    if one_of constant_ops instruction
    then constant_instruction instruction chunk offset
    else if one_of byte_ops instruction
    then byte_instruction instruction chunk offset
    else if one_of simple_ops instruction
    then simple_instruction instruction offset
    else if one_of jump_ops instruction
    then jump_instruction instruction (sign_of instruction) chunk offset
    else if one_of invoke_ops instruction
    then invoke_instruction instruction chunk offset
    else if instruction == op_closure
    then closure_instruction heap chunk offset
    else some (unknown_line instruction, offset + 1)

-- The line of the source, or `none` for the bar that stands for the line before.
abbrev pub shown_line : ℕ → Position → Position → Option ℕ
shown_line offset position before =
    if ltb 0 offset && position.line == before.line then none else some position.line

unfoldable pub disassemble_instruction : Heap → Chunk → ℕ → Option ((Option ℕ × Shown) × ℕ)
disassemble_instruction heap chunk offset = do
  position ← get_elem? chunk.positions offset
  before ← get_elem? chunk.positions (offset - 1)
  instruction ← get_elem? chunk.code offset
  (shown, next) ← disassemble_at heap chunk offset instruction
  some ((shown_line offset position before, shown), next)

-- The loop of `disassembleChunk`, with a round for each byte that is left.
unfoldable pub disassemble_from : Heap → Chunk → ℕ → ℕ → Option (List (Option ℕ × Shown) × ℕ)
disassemble_from heap chunk zero offset = if ltb offset chunk.count then none else some ([], offset)
disassemble_from heap chunk (suc rounds) offset =
    if ltb offset chunk.count
    then (do
      (line, next) ← disassemble_instruction heap chunk offset
      (lines, last) ← disassemble_from heap chunk rounds next
      some (line ∷ lines, last))
    else some ([], offset)

-- The lines, and the offset at which it stops.
unfoldable pub disassemble_chunk : Heap → Chunk → Option (List (Option ℕ × Shown) × ℕ)
disassemble_chunk heap chunk = disassemble_from heap chunk chunk.count 0
