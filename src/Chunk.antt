-- ===== src/Chunk.antt =====
-- src/value.c (`ValueArray`) and src/chunk.c: growing arrays. A cell that `realloc` adds holds an
-- unknown value, `junk`, which no theorem constrains.
pub mod Growth
pub mod Laws
use my_clox.Prelude.{ℕ, ◌+◌, ◌-◌, Bool, ltb, if◌then◌else◌, List, [], ◌++◌, length, set, replicate}
use my_clox.Value.{Value}
use my_clox.Table.{grow_capacity}

pub record ValueArray : Type 0 where
  pub capacity : ℕ
  pub count : ℕ
  pub values : List Value

pub record Position : Type 0 where
  pub line : ℕ
  pub column : ℕ

pub record Chunk : Type 0 where
  pub count : ℕ
  pub capacity : ℕ
  pub code : List ℕ
  pub positions : List Position
  pub constants : ValueArray

-- `GROW_ARRAY`: the old cells, then unknown ones.
abbrev pub grow_array {ℓ} : {A : Type ℓ} → A → List A → ℕ → ℕ → List A
grow_array junk cells old new = cells ++ replicate (new - old) junk

abbrev pub init_value_array : ValueArray
init_value_array = record { capacity = 0; count = 0; values = [] }

unfoldable pub write_value_array : Value → ValueArray → Value → ValueArray
write_value_array junk array value =
    let full = ltb array.capacity (array.count + 1) in
    let capacity = if full then grow_capacity array.capacity else array.capacity in
    let values =
      if full then grow_array junk array.values array.capacity capacity else array.values in
    record { capacity = capacity; count = array.count + 1; values = set values array.count value }

unfoldable pub free_value_array : ValueArray → ValueArray
free_value_array array = init_value_array

abbrev pub init_chunk : Chunk
init_chunk = record {
  count = 0;
  capacity = 0;
  code = [];
  positions = [];
  constants = init_value_array;
}

unfoldable pub free_chunk : Chunk → Chunk
free_chunk chunk = init_chunk

-- The unknown cells of the arrays of a chunk.
pub record Junk : Type 0 where
  pub byte : ℕ
  pub position : Position
  pub value : Value

unfoldable pub write_chunk : Junk → Chunk → ℕ → Position → Chunk
write_chunk junk chunk byte position =
    let full = ltb chunk.capacity (chunk.count + 1) in
    let capacity = if full then grow_capacity chunk.capacity else chunk.capacity in
    let code =
      if full then grow_array junk.byte chunk.code chunk.capacity capacity else chunk.code in
    let positions =
      if full
      then grow_array junk.position chunk.positions chunk.capacity capacity
      else chunk.positions in
    record chunk {
      capacity = capacity;
      code = set code chunk.count byte;
      positions = set positions chunk.count position;
      count = chunk.count + 1;
    }

-- The push and the pop around the write keep the value reachable; the stack is as before.
unfoldable pub add_constant : Junk → Chunk → Value → Chunk × ℕ
add_constant junk chunk value =
    let constants = write_value_array junk.value chunk.constants value in
    (record chunk { constants = constants }, constants.count - 1)
