-- ===== src/Chunk/Laws.antt =====
-- `writeValueArray`, `writeChunk` and `addConstant` append to the lists that the arrays stand for.
use my_clox.Prelude.{
  ℕ, ◌+◌, ◌-◌, ◌≡◌, refl, ltb, if◌then◌else◌, arith, List, [], ◌∷◌, ◌++◌, length, set, get_elem?,
  some, length-append, ap, sym, ◌∙◌, Bool, true, false,
}
use my_clox.Value.{Value}
use my_clox.Table.{grow_capacity}
use my_clox.Chunk.{
  ValueArray, Position, Chunk, Junk, grow_array, write_value_array, write_chunk, add_constant,
  init_chunk,
}
use my_clox.Chunk.Growth.{Holds, grow-Holds, write-Holds, get_elem?-take, get_elem?-snoc}

-- The array stands for the list `xs`.
abbrev pub IsValues : List Value → ValueArray → Type 0
IsValues xs a = Holds xs a.count a.capacity a.values

-- The chunk stands for its code, the position of each byte, and its constants.
pub record IsChunk (code : List ℕ) (positions : List Position) (constants : List Value) (c : Chunk)
    : Type 0 where
  pub code_holds : Holds code c.count c.capacity c.code
  pub positions_holds : Holds positions c.count c.capacity c.positions
  pub constants_hold : IsValues constants c.constants

-- One write with the growth test before it.
push_cell {ℓ} :
    {A : Type ℓ} (junk : A) (xs : List A) (count capacity : ℕ) (cells : List A) (v : A)
    → Holds xs count capacity cells
    → (full : Bool) → full ≡ ltb capacity (count + 1)
    → Holds (xs ++ v ∷ []) (count + 1) (if full then grow_capacity capacity else capacity) (
        set
          (if full
            then grow_array junk cells capacity (if full then grow_capacity capacity else capacity)
            else cells)
          count
          v)
push_cell junk xs count capacity cells v h true e =
    let (big, lt) = grow-Holds xs count capacity cells junk h in
    write-Holds xs count _ _ v big (omega (arith, h.fits))
push_cell junk xs count capacity cells v h false e =
    write-Holds xs count capacity cells v h (ground arith)

-- On an array that stands for a list, writing a value appends it to the list, whether or not the
-- array grows.
pub write_value_array-IsValues :
    (junk : Value) (xs : List Value) (a : ValueArray) (v : Value)
    → IsValues xs a
    → IsValues (xs ++ v ∷ []) (write_value_array junk a v)
unfolding write_value_array
write_value_array-IsValues junk xs a v h =
    push_cell junk xs a.count a.capacity a.values v h (ltb a.capacity (a.count + 1)) refl

-- On a chunk that stands for a code, its positions and its constants, writing a byte appends it
-- to the code and its position to the positions, which stay as long as the code, and keeps the
-- constants.
pub write_chunk-IsChunk :
    (junk : Junk) (code : List ℕ) (positions : List Position) (constants : List Value) (c : Chunk)
    (byte : ℕ) (position : Position)
    → IsChunk code positions constants c
    → IsChunk
        (code ++ byte ∷ [])
        (positions ++ position ∷ [])
        constants
        (write_chunk junk c byte position)
unfolding write_chunk
write_chunk-IsChunk junk code positions constants c byte position h = record {
  code_holds =
      push_cell junk.byte code c.count c.capacity c.code byte h.code_holds
        (ltb c.capacity (c.count + 1)) refl;
  positions_holds =
      push_cell junk.position positions c.count c.capacity c.positions position h.positions_holds
        (ltb c.capacity (c.count + 1)) refl;
  constants_hold = h.constants_hold;
}

-- On a chunk that stands for a code, its positions and its constants, adding a constant appends
-- it and keeps the code; the index that is returned is the constant's.
pub add_constant-IsChunk :
    (junk : Junk) (code : List ℕ) (positions : List Position) (constants : List Value) (c : Chunk)
    (v : Value)
    → IsChunk code positions constants c
    → IsChunk code positions (constants ++ v ∷ []) (add_constant junk c v).0
      × ((add_constant junk c v).1 ≡ length constants)
      × (get_elem? (add_constant junk c v).0.constants.values (add_constant junk c v).1 ≡ some v)
unfolding add_constant
add_constant-IsChunk junk code positions constants c v h =
    let new = write_value_array-IsValues junk.value constants c.constants v h.constants_hold in
    let len = length-append constants (v ∷ []) in
    let index : (write_value_array junk.value c.constants v).count - 1 ≡ length constants =
      omega (arith, new.count_eq, len) in
    (
      record {
        code_holds = h.code_holds;
        positions_holds = h.positions_holds;
        constants_hold = new;
      },
      index,
      rw index (
          sym (
            get_elem?-take _ (length constants) (write_value_array junk.value c.constants v).values
              (omega (arith, new.count_eq, len)))
          ∙ ap (λ (l : List Value). get_elem? l (length constants)) new.written
          ∙ get_elem?-snoc constants v),
    )

pub init_chunk-IsChunk : IsChunk [] [] [] init_chunk
init_chunk-IsChunk = record {
  code_holds = record { size = refl; count_eq = refl; fits = omega arith; written = refl };
  positions_holds = record { size = refl; count_eq = refl; fits = omega arith; written = refl };
  constants_hold = record { size = refl; count_eq = refl; fits = omega arith; written = refl };
}
