-- ===== src/Tests/ChunkRuns.antt =====
-- src/value.c and src/chunk.c on a chunk of a few bytes.
use my_clox.Prelude.{◌≡◌, refl, [], ◌∷◌, get_elem?, some}
use my_clox.Table.{grow_capacity}
use my_clox.Chunk.{
  Position, Chunk, Junk, init_value_array, init_chunk, write_value_array, write_chunk, add_constant,
}
use my_clox.Chunk.Laws.{
  IsValues, IsChunk, init_chunk-IsChunk, write_value_array-IsValues, write_chunk-IsChunk,
  add_constant-IsChunk,
}

abbrev start : Position
start = record { line = 1; column = 1 }

abbrev junk : Junk
junk = record { byte = 170; position = start; value = 7 }

write_value_array-IsValues_example : IsValues (42 ∷ []) (write_value_array 7 init_value_array 42)
write_value_array-IsValues_example =
    write_value_array-IsValues 7 [] init_value_array 42 init_chunk-IsChunk.constants_hold

write_chunk-IsChunk_example : IsChunk (9 ∷ []) (start ∷ []) [] (write_chunk junk init_chunk 9 start)
write_chunk-IsChunk_example =
    write_chunk-IsChunk junk [] [] [] init_chunk 9 start init_chunk-IsChunk

abbrev one_byte : Chunk
one_byte = write_chunk junk init_chunk 9 start

-- The first write makes room for eight bytes.
eight : one_byte.capacity ≡ 8
unfolding write_chunk grow_capacity
eight = refl

add_constant-IsChunk_example :
    IsChunk (9 ∷ []) (start ∷ []) (42 ∷ []) (add_constant junk one_byte 42).0
    × ((add_constant junk one_byte 42).1 ≡ 0)
    × (get_elem?
          (add_constant junk one_byte 42).0.constants.values
          (add_constant junk one_byte 42).1
        ≡ some 42)
add_constant-IsChunk_example =
    add_constant-IsChunk junk (9 ∷ []) (start ∷ []) [] one_byte 42 write_chunk-IsChunk_example
