-- ===== src/Tests/DebugRuns.antt =====
-- src/debug.c: a chunk with a constant, a jump and a return.
use my_clox.Prelude.{ℕ, ◌+◌, ◌≡◌, refl, arith, List, [], ◌∷◌, Option, none, some, ◌⊎◌, inl, inr}
use my_clox.Chunk.{Chunk, Position}
use my_clox.Object.{Heap}
use my_clox.Prelude.Integers.{pos, negsuc}
use my_clox.Emit.{read_short, jump_back}
use my_clox.Debug.{
  Shown, constant_line, simple_line, jump_line, constant_instruction, simple_instruction,
  jump_instruction, disassemble_at, disassemble_instruction, disassemble_from, disassemble_chunk,
}
use my_clox.Debug.Walk.{Listed, IsStuck, disassemble_chunk-Listed}
use my_clox.Debug.Targets.{Continues, disassemble_at-jump}

abbrev heap : Heap
heap p = none

abbrev at : ℕ → Position
at line = record { line = line; column = 1 }

abbrev chunk : Chunk
chunk = record {
  count = 6;
  capacity = 8;
  code = 0 ∷ 0 ∷ 25 ∷ 1 ∷ 2 ∷ 33 ∷ 0 ∷ 0 ∷ [];
  positions = at 1 ∷ at 1 ∷ at 1 ∷ at 1 ∷ at 1 ∷ at 2 ∷ at 0 ∷ at 0 ∷ [];
  constants = record { capacity = 8; count = 1; values = 7 ∷ [] };
}

shown :
    disassemble_chunk heap chunk
    ≡ some (
      (some 1, constant_line 0 0 7)
          ∷ (none, jump_line 25 258 (pos 263))
          ∷ (some 2, simple_line 33)
          ∷ [],
      6,
    )
unfolding disassemble_chunk disassemble_from disassemble_instruction disassemble_at
    constant_instruction simple_instruction jump_instruction
shown = refl

disassemble_chunk-Listed_example :
    ((disassemble_chunk heap chunk ≡ none) × IsStuck heap chunk)
    ⊎ ((lines : List (Option ℕ × Shown)) × (last : ℕ) × (disassemble_chunk heap chunk
          ≡ some (lines, last))
        × Listed chunk 0 lines last)
disassemble_chunk-Listed_example = disassemble_chunk-Listed heap chunk (omega arith)

shown_jump : disassemble_at heap chunk 2 25 ≡ some (jump_line 25 258 (pos 263), 5)
unfolding disassemble_at jump_instruction
shown_jump = refl

disassemble_at-jump_example : Continues chunk.code (2 + 1) 25 (pos 263) × (5 ≡ 2 + 3)
disassemble_at-jump_example =
    disassemble_at-jump heap chunk 2 25 25 258 5 (pos 263) (omega arith) (inr (inl refl)) shown_jump

-- A loop at the start of the code, which leaves it.
abbrev loop : Chunk
loop = record chunk { code = 27 ∷ 0 ∷ 4 ∷ [] }

shown_loop : disassemble_at heap loop 0 27 ≡ some (jump_line 27 4 (negsuc 0), 3)
unfolding disassemble_at jump_instruction
shown_loop = refl

left_code : jump_back loop.code 1 ≡ none
unfolding jump_back read_short
left_code = refl
