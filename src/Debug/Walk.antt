-- ===== src/Debug/Walk.antt =====
-- `disassembleChunk` goes through the code, instruction by instruction.
use my_clox.Prelude.{
  ℕ, zero, suc, ◌+◌, ◌-◌, ◌≤◌, ◌<◌, ◌≡◌, refl, subst, true, false, ltb, arith, List, [], ◌∷◌, ◌++◌,
  length, length-append, get_elem?, Option, none, some, some_inj, Bool-cases, Option-cases, ◌⊎◌,
  inl, inr,
}
use my_clox.Chunk.{Chunk}
use my_clox.Object.{Heap}
use my_clox.Debug.{
  Shown, disassemble_at, disassemble_instruction, disassemble_from, disassemble_chunk,
}
use my_clox.Debug.Reads.{encode, Stand, AreBytes, Shows, bind_inv, disassemble_at-Shows}

-- The bytes of the lines, one after the other.
abbrev pub listing : List (Option ℕ × Shown) → List ℕ
listing [] = []
listing (line ∷ lines) = encode line.1 ++ listing lines

-- The lines are the code from `offset` to `last`, which is not before the end of the chunk.
pub record Listed (chunk : Chunk) (offset : ℕ) (lines : List (Option ℕ × Shown)) (last : ℕ)
    : Type 0 where
  pub stand : Stand chunk.code offset (listing lines)
  pub last_is : last ≡ offset + length (listing lines)
  pub reached : chunk.count ≤ last

-- The offsets that the loop of `disassembleChunk` comes to.
pub data Visits (heap : Heap) (chunk : Chunk) : ℕ → Type 0 where
  visit_first : Visits heap chunk 0
  visit_next :
      (k n : ℕ) (line : Option ℕ × Shown)
      → Visits heap chunk k
      → k < chunk.count
      → disassemble_instruction heap chunk k ≡ some (line, n)
      → Visits heap chunk n

-- The loop comes to an instruction that it cannot read, and goes no further.
abbrev pub IsStuck : Heap → Chunk → Type 0
IsStuck heap chunk =
    (k : ℕ) × Visits heap chunk k
    × (k < chunk.count)
    × (disassemble_instruction heap chunk k ≡ none)

Stand-append :
    (code : List ℕ) (offset : ℕ) (xs ys : List ℕ)
    → Stand code offset xs
    → Stand code (offset + length xs) ys
    → Stand code offset (xs ++ ys)
Stand-append code offset [] ys h k =
    let e : offset + 0 ≡ offset = omega arith in subst (λ (n : ℕ). Stand code n ys) e k
Stand-append code offset (x ∷ xs) ys (here, h) k =
    let e : offset + suc (length xs) ≡ suc offset + length xs = omega arith in
    (here, Stand-append code (suc offset) xs ys h (subst (λ (n : ℕ). Stand code n ys) e k))

instruction-Shows :
    (heap : Heap) (chunk : Chunk) (offset : ℕ)
    → AreBytes chunk.code
    → (line : Option ℕ × Shown) (next : ℕ)
    → disassemble_instruction heap chunk offset ≡ some (line, next)
    → Shows chunk.code offset (line.1, next)
unfolding disassemble_instruction
instruction-Shows heap chunk offset bytes line next e =
    let (position, _, e1) = bind_inv (get_elem? chunk.positions offset) _ (line, next) e in
    let (before, _, e2) = bind_inv (get_elem? chunk.positions (offset - 1)) _ (line, next) e1 in
    let (instruction, here, e3) = bind_inv (get_elem? chunk.code offset) _ (line, next) e2 in
    let (r, at_r, e4) = bind_inv (disassemble_at heap chunk offset instruction) _ (line, next) e3 in
    subst (λ (x : (Option ℕ × Shown) × ℕ). Shows chunk.code offset (x.0.1, x.1)) (some_inj e4)
      (disassemble_at-Shows heap chunk offset instruction bytes here r at_r)

module _ (heap : Heap) (chunk : Chunk) (bytes : AreBytes chunk.code) where
  step_run :
      (rounds offset : ℕ) (line : Option ℕ × Shown) (next : ℕ) (lines : List (Option ℕ × Shown))
      (last : ℕ)
      → ltb offset chunk.count ≡ true
      → disassemble_instruction heap chunk offset ≡ some (line, next)
      → disassemble_from heap chunk rounds next ≡ some (lines, last)
      → disassemble_from heap chunk (suc rounds) offset ≡ some (line ∷ lines, last)
  unfolding disassemble_from
  step_run rounds offset line next lines last lt one rest = rw (lt, one, rest) refl

  step_stuck :
      (rounds offset : ℕ) (line : Option ℕ × Shown) (n : ℕ)
      → ltb offset chunk.count ≡ true
      → disassemble_instruction heap chunk offset ≡ some (line, n)
      → disassemble_from heap chunk rounds n ≡ none
      → disassemble_from heap chunk (suc rounds) offset ≡ none
  unfolding disassemble_from
  step_stuck rounds offset line n lt one rest = rw (lt, one, rest) refl

  fault_run :
      (rounds offset : ℕ)
      → ltb offset chunk.count ≡ true
      → disassemble_instruction heap chunk offset ≡ none
      → disassemble_from heap chunk (suc rounds) offset ≡ none
  unfolding disassemble_from
  fault_run rounds offset lt fault = rw (lt, fault) refl

  stop_run :
      (rounds offset : ℕ)
      → ltb offset chunk.count ≡ false
      → disassemble_from heap chunk rounds offset ≡ some ([], offset)
  unfolding disassemble_from
  stop_run zero offset stop = rw stop refl
  stop_run (suc rounds) offset stop = rw stop refl

  stop-Listed : (offset : ℕ) → chunk.count ≤ offset → Listed chunk offset [] offset
  stop-Listed offset le = record { stand = tt; last_is = omega arith; reached = le }

  walk :
      (rounds offset : ℕ)
      → chunk.count ≤ offset + rounds
      → Visits heap chunk offset
      → ((disassemble_from heap chunk rounds offset ≡ none) × IsStuck heap chunk)
        ⊎ ((lines : List (Option ℕ × Shown)) × (last : ℕ) × (disassemble_from heap chunk rounds
                offset
              ≡ some (lines, last))
            × Listed chunk offset lines last)
  walk zero offset le here =
      inr ([], offset, stop_run 0 offset (ground arith), stop-Listed offset (omega arith))
  walk (suc rounds) offset le here = elim (Bool-cases (ltb offset chunk.count)) [
    | inr stop ↦
        inr
          ([], offset, stop_run (suc rounds) offset stop, stop-Listed offset (ground (arith, stop)))
    | inl lt ↦ elim (Option-cases (disassemble_instruction heap chunk offset)) [
      | inl fault ↦
          inl (fault_run rounds offset lt fault, (offset, here, ground (arith, lt), fault))
      | inr ((line, n), one) ↦
          let shows = instruction-Shows heap chunk offset bytes line n one in
          elim (walk rounds n (omega (arith, shows.further))
            (visit_next offset n line here (ground (arith, lt)) one)) [
              | inl (stuck, where_stuck) ↦
                  inl (step_stuck rounds offset line n lt one stuck, where_stuck)
              | inr (lines, last, rest, listed) ↦ inr (
                line ∷ lines,
                last,
                step_run rounds offset line n lines last lt one rest,
                record {
                  stand =
                      Stand-append chunk.code offset (encode line.1) (listing lines) shows.stand (
                        subst (λ (n : ℕ). Stand chunk.code n (listing lines)) shows.next
                          listed.stand);
                  last_is = omega (
                    arith,
                    length-append (encode line.1) (listing lines),
                    shows.next,
                    listed.last_is,
                  );
                  reached = listed.reached;
                },
              )
            ]
    ]
  ]

-- On a chunk whose code are bytes, the loop of `disassembleChunk` ends. Either it has no result, and
-- then an instruction that it comes to reads outside an array or a constant that is no function; or
-- it returns lines whose bytes, one after the other, are those that stand in the code from 0 on,
-- without a gap, to the end of the chunk or past it.
pub disassemble_chunk-Listed :
    (heap : Heap) (chunk : Chunk)
    → AreBytes chunk.code
    → ((disassemble_chunk heap chunk ≡ none) × IsStuck heap chunk)
      ⊎ ((lines : List (Option ℕ × Shown)) × (last : ℕ) × (disassemble_chunk heap chunk
            ≡ some (lines, last))
          × Listed chunk 0 lines last)
unfolding disassemble_chunk
disassemble_chunk-Listed heap chunk bytes =
    walk heap chunk bytes chunk.count 0 (omega arith) visit_first
