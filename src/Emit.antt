-- ===== src/Emit.antt =====
-- src/compiler.c: the bytes and the jumps that the compiler emits, and how src/vm.c reads a jump.
-- An instruction pointer is an index into the code. Errors are counted.
pub mod Jumps
pub mod Constants
use my_clox.Prelude.{
  ◌>>=◌, ℕ, ◌+◌, ◌-◌, ◌*◌, ◌/◌, ◌%◌, ltb, if◌then◌else◌, bit_and, bit_or, List, Option, none, some,
  get_elem?, set,
}
use my_clox.Value.{Value}
pub use my_clox.Opcodes.{op_constant, op_nil, op_get_local, op_loop, op_return}
use my_clox.Chunk.{Position, Chunk, Junk, write_chunk, add_constant}

pub data FunctionType : Type 0 where
  type_function : FunctionType
  type_method : FunctionType
  type_initializer : FunctionType
  type_script : FunctionType

-- A byte is cut to a `uint8_t`.
unfoldable pub emit_byte : Junk → Position → ℕ → Chunk → Chunk
emit_byte junk position byte chunk = write_chunk junk chunk (byte % 256) position

-- `(n >> 8) & 0xff` and `n & 0xff`
abbrev pub high : ℕ → ℕ
high n = bit_and (n / 256) 255

abbrev pub low : ℕ → ℕ
low n = bit_and n 255

abbrev pub too_large : ℕ → ℕ
too_large n = if ltb 65535 n then 1 else 0

-- `loop_start` is not after the end of the code.
unfoldable pub emit_loop : Junk → Position → ℕ → Chunk → ℕ × Chunk
emit_loop junk position loop_start chunk =
    let looped = emit_byte junk position op_loop chunk in
    let offset = looped.count - loop_start + 2 in
    (
      too_large offset,
      emit_byte junk position (low offset) (emit_byte junk position (high offset) looped),
    )

-- The offset of the operand, and the chunk.
unfoldable pub emit_jump : Junk → Position → ℕ → Chunk → ℕ × Chunk
emit_jump junk position instruction chunk =
    let emitted =
      emit_byte junk position 255
        (emit_byte junk position 255 (emit_byte junk position instruction chunk)) in
    (emitted.count - 2, emitted)

-- `offset` is what `emit_jump` returned, so the operand is within the code.
unfoldable pub patch_jump : ℕ → Chunk → ℕ × Chunk
patch_jump offset chunk =
    let jump = chunk.count - offset - 2 in
    (
      too_large jump,
      record chunk { code = set (set chunk.code offset (high jump)) (offset + 1) (low jump) },
    )

-- `READ_SHORT` of src/vm.c
unfoldable pub read_short : List ℕ → ℕ → Option ℕ
read_short code ip =
    get_elem? code ip
    >>= (λ high. get_elem? code (ip + 1) >>= (λ low. some (bit_or (high * 256) low % 65536)))

-- Where `OP_JUMP`, and `OP_JUMP_IF_FALSE` on a false condition, continue; `ip` is after the opcode.
unfoldable pub jump_forward : List ℕ → ℕ → Option ℕ
jump_forward code ip = read_short code ip >>= (λ offset. some (ip + 2 + offset))

-- Where `OP_LOOP` continues, or `none` where the pointer leaves the code.
abbrev pub back_from : ℕ → ℕ → Option ℕ
back_from ip offset = if ltb ip offset then none else some (ip - offset)

unfoldable pub jump_back : List ℕ → ℕ → Option ℕ
jump_back code ip = read_short code ip >>= back_from (ip + 2)

-- The errors, the index and the chunk.
unfoldable pub make_constant : Junk → Value → Chunk → ℕ × ℕ × Chunk
make_constant junk value chunk =
    let (chunk', constant) = add_constant junk chunk value in
    if ltb 255 constant then (1, 0, chunk') else (0, constant % 256, chunk')

unfoldable pub emit_constant : Junk → Position → Value → Chunk → ℕ × Chunk
emit_constant junk position value chunk =
    let made = make_constant junk value chunk in
    (made.0, emit_byte junk position made.1 (emit_byte junk position op_constant made.2))

-- An initializer returns `this`, which is its local 0.
unfoldable pub emit_return : Junk → Position → FunctionType → Chunk → Chunk
emit_return junk position type_initializer chunk =
    emit_byte junk position op_return
      (emit_byte junk position 0 (emit_byte junk position op_get_local chunk))
emit_return junk position type chunk =
    emit_byte junk position op_return (emit_byte junk position op_nil chunk)
