-- ===== src/Tests/CompilerRuns.antt =====
-- src/compiler.c: names in nested functions, and jumps in a short chunk.
use my_clox.Prelude.{
  ℕ, ◌+◌, ◌-◌, ◌≤◌, ◌<◌, ◌≡◌, refl, true, false, arith, List, [], ◌∷◌, ◌++◌, some,
}
use my_clox.Chunk.{Position, Chunk, Junk, init_chunk}
use my_clox.Chunk.Laws.{IsChunk, init_chunk-IsChunk}
use my_clox.Compiler.{
  Local, Compiler, find_local, resolve_local, find_upvalue, add_upvalue, resolve_around,
  resolve_upvalue,
}
use my_clox.Compiler.Upvalues.{IsChain, Added, add_upvalue-Added}
use my_clox.Compiler.Scopes.{Resolves, resolve_upvalue-Resolves}
use my_clox.Emit.Constants.{Loads, emit_constant-Loads}
use my_clox.Emit.{emit_constant, op_loop, emit_loop, emit_jump, patch_jump, jump_back}
use my_clox.Emit.Jumps.{Patched, patch_jump-Patched, emit_jump-IsChunk, emit_loop-loops}

-- "a" of the outermost function, seen from two functions further in.
abbrev local : Local
local = record { name = 97 ∷ []; depth = some 1; is_captured = false }

abbrev outermost : Compiler
outermost = record { locals = local ∷ []; upvalues = []; scope_depth = 1 }

abbrev bare : Compiler
bare = record { locals = []; upvalues = []; scope_depth = 0 }

abbrev chain : List Compiler
chain = bare ∷ bare ∷ outermost ∷ []

chain-IsChain : IsChain chain
chain-IsChain =
    (omega arith, omega arith, (omega arith, omega arith, (omega arith, omega arith, tt)))

-- The function in the middle gets an upvalue as well.
through : resolve_upvalue chain (97 ∷ []) ≡ (
  some 0,
  0,
  record bare { upvalues = record { index = 0; is_local = false } ∷ [] }
      ∷ record bare { upvalues = record { index = 0; is_local = true } ∷ [] }
      ∷ record outermost { locals = record local { is_captured = true } ∷ [] }
      ∷ [],
)
unfolding find_local resolve_local find_upvalue add_upvalue resolve_around resolve_upvalue
through = refl

resolve_upvalue-Resolves_example : Resolves chain (97 ∷ []) (resolve_upvalue chain (97 ∷ []))
resolve_upvalue-Resolves_example = resolve_upvalue-Resolves chain (97 ∷ []) chain-IsChain

add_upvalue-Added_example : Added bare 3 true (add_upvalue bare 3 true)
add_upvalue-Added_example = add_upvalue-Added bare 3 true (omega arith)

abbrev start : Position
start = record { line = 1; column = 1 }

abbrev junk : Junk
junk = record { byte = 170; position = start; value = 7 }

emit_jump-IsChunk_example :
    IsChunk
      (((([] ++ 25 ∷ []) ++ 255 ∷ []) ++ 255 ∷ []))
      ((([] ++ start ∷ []) ++ start ∷ []) ++ start ∷ [])
      []
      (emit_jump junk start 25 init_chunk).1
    × ((emit_jump junk start 25 init_chunk).0 ≡ init_chunk.count + 1)
    × ((emit_jump junk start 25 init_chunk).0 + 2 ≡ (emit_jump junk start 25 init_chunk).1.count)
emit_jump-IsChunk_example =
    emit_jump-IsChunk junk start [] [] [] init_chunk 25 (omega arith) init_chunk-IsChunk

abbrev jumped : Chunk
jumped = record {
  count = 5;
  capacity = 8;
  code = 25 ∷ 255 ∷ 255 ∷ 1 ∷ 4 ∷ 0 ∷ 0 ∷ 0 ∷ [];
  positions = [];
  constants = init_chunk.constants;
}

patch_jump-Patched_example : Patched 1 jumped (patch_jump 1 jumped)
patch_jump-Patched_example = patch_jump-Patched 1 jumped (omega arith) (omega arith)

emit_loop-loops_example :
    (hi : ℕ) × (lo : ℕ) × IsChunk
      ((([] ++ op_loop ∷ []) ++ hi ∷ []) ++ lo ∷ [])
      ((([] ++ start ∷ []) ++ start ∷ []) ++ start ∷ [])
      []
      (emit_loop junk start 0 init_chunk).1
    × (init_chunk.count + 3 - 0 ≤ 65535
        → ((emit_loop junk start 0 init_chunk).0 ≡ 0)
          × (jump_back (emit_loop junk start 0 init_chunk).1.code (init_chunk.count + 1) ≡ some 0))
    × (65535 < init_chunk.count + 3 - 0 → (emit_loop junk start 0 init_chunk).0 ≡ 1)
emit_loop-loops_example =
    emit_loop-loops junk start [] [] [] init_chunk 0 init_chunk-IsChunk (omega arith)

emit_constant-Loads_example : Loads junk start [] [] [] 42 (emit_constant junk start 42 init_chunk)
emit_constant-Loads_example =
    emit_constant-Loads junk start [] [] [] init_chunk 42 init_chunk-IsChunk
