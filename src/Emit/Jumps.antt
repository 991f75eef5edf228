-- ===== src/Emit/Jumps.antt =====
-- A jump that the compiler emits and patches lands, in the machine, where the compiler meant it to.
use my_clox.Prelude.{
  ℕ, zero, suc, ◌+◌, ◌-◌, ◌*◌, ◌/◌, ◌%◌, ◌≤◌, ◌<◌, ◌≡◌, ◌≢◌, refl, arith, bit_or, List, [], ◌∷◌,
  ◌++◌, some, length, get_elem?, set, length-set, length-append, ap, sym, ◌∙◌,
}
use my_clox.Prelude.Bits.{bit_and_mask, bit_or_high}
use my_clox.Chunk.{Position, Chunk, Junk}
use my_clox.Chunk.Growth.{Holds, get_elem?-take}
use my_clox.Chunk.Laws.{IsChunk, write_chunk-IsChunk}
use my_clox.Value.{Value}
use my_clox.Emit.{
  op_loop, emit_byte, high, low, too_large, emit_loop, emit_jump, patch_jump, read_short,
  jump_forward, back_from, jump_back,
}

-- Two bytes hold a number below 65536.
short_lem : (n : ℕ) → n < 65536 → bit_or (high n * 256) (low n) % 65536 ≡ n
short_lem n lt =
    let h = bit_and_mask 8 (n / 256) in
    let l = bit_and_mask 8 n in
    let both : bit_or (n / 256 % 256 * 256) (n % 256) ≡ n / 256 % 256 * 256 + n % 256 =
      bit_or_high 8 (n / 256 % 256) (n % 256) (omega arith) in
    rw (h, l, both) (omega arith)

pub read_short-at :
    (code : List ℕ) (ip h l : ℕ)
    → get_elem? code ip ≡ some h
    → get_elem? code (ip + 1) ≡ some l
    → read_short code ip ≡ some (bit_or (h * 256) l % 65536)
unfolding read_short
read_short-at code ip h l at_h at_l = rw (at_h, at_l) refl

pub jump_forward-at :
    (code : List ℕ) (ip offset : ℕ)
    → read_short code ip ≡ some offset
    → jump_forward code ip ≡ some (ip + 2 + offset)
unfolding jump_forward
jump_forward-at code ip offset read = rw read refl

pub jump_back-at :
    (code : List ℕ) (ip offset : ℕ)
    → read_short code ip ≡ some offset
    → jump_back code ip ≡ back_from (ip + 2) offset
unfolding jump_back
jump_back-at code ip offset read = rw read refl

back_to : (ip offset start : ℕ) → ip + 2 ≡ offset + start → back_from (ip + 2) offset ≡ some start
back_to ip offset start e = ground (arith, e)

get_elem?-set_self : (xs : List ℕ) (i v : ℕ) → i < length xs → get_elem? (set xs i v) i ≡ some v
get_elem?-set_self [] i v h = absurd (omega arith)
get_elem?-set_self (x ∷ xs) zero v h = refl
get_elem?-set_self (x ∷ xs) (suc i) v h = get_elem?-set_self xs i v (omega arith)

get_elem?-set_ne : (xs : List ℕ) (i j v : ℕ) → i ≢ j → get_elem? (set xs i v) j ≡ get_elem? xs j
get_elem?-set_ne [] i j v h = refl
get_elem?-set_ne (x ∷ xs) zero zero v h = absurd (h refl)
get_elem?-set_ne (x ∷ xs) zero (suc j) v h = refl
get_elem?-set_ne (x ∷ xs) (suc i) zero v h = refl
get_elem?-set_ne (x ∷ xs) (suc i) (suc j) v h = get_elem?-set_ne xs i j v (λ e. h (ap suc e))

-- What a patched jump does.
pub record Patched (offset : ℕ) (c : Chunk) (r : ℕ × Chunk) : Type 0 where
  pub lands :
      c.count - offset - 2 ≤ 65535 → (r.0 ≡ 0) × (jump_forward r.1.code offset ≡ some c.count)
  pub reported : 65535 < c.count - offset - 2 → r.0 ≡ 1
  pub others : (j : ℕ) → j ≢ offset → j ≢ offset + 1 → get_elem? r.1.code j ≡ get_elem? c.code j
  pub same_count : r.1.count ≡ c.count

-- Where the two bytes of a jump's operand are within the code, patching it takes the machine to
-- the end of the code as it is then, if that is at most 65535 bytes away; otherwise an error is
-- reported. The other bytes stay.
pub patch_jump-Patched :
    (offset : ℕ) (c : Chunk)
    → offset + 2 ≤ c.count
    → c.count ≤ length c.code
    → Patched offset c (patch_jump offset c)
unfolding patch_jump
patch_jump-Patched offset c within fits =
    let first =
      get_elem?-set_ne (set c.code offset (high (c.count - offset - 2))) (offset + 1) offset
        (low (c.count - offset - 2)) (λ e. omega (arith, e))
      ∙ get_elem?-set_self c.code offset (high (c.count - offset - 2))
          (omega (arith, within, fits)) in
    let second =
      get_elem?-set_self (set c.code offset (high (c.count - offset - 2))) (offset + 1)
        (low (c.count - offset - 2))
        (omega (arith, within, fits, length-set c.code offset (high (c.count - offset - 2)))) in
    record {
      lands = λ near. (
        ground (arith, near),
        jump_forward-at _ offset _ (
              read_short-at _ offset _ _ first second
              ∙ ap some (short_lem (c.count - offset - 2) (omega (arith, near))))
            ∙ ap some (omega (arith, within)),
      );
      reported = λ far. ground (arith, far);
      others = λ j ne ne'.
          get_elem?-set_ne _ (offset + 1) j _ (λ e. ne' (sym e))
          ∙ get_elem?-set_ne c.code offset j _ (λ e. ne (sym e));
      same_count = refl;
    }

-- The bytes of an instruction at the end of the code.
second_byte :
    (code : List ℕ) (o h l i : ℕ)
    → i ≡ length code + 1
    → get_elem? (((code ++ o ∷ []) ++ h ∷ []) ++ l ∷ []) i ≡ some h
second_byte [] o h l i e = let at_one : i ≡ 1 = omega (arith, e) in rw at_one refl
second_byte (x ∷ code) o h l zero e = absurd (omega (arith, e))
second_byte (x ∷ code) o h l (suc i) e = second_byte code o h l i (omega (arith, e))

third_byte :
    (code : List ℕ) (o h l i : ℕ)
    → i ≡ length code + 2
    → get_elem? (((code ++ o ∷ []) ++ h ∷ []) ++ l ∷ []) i ≡ some l
third_byte [] o h l i e = let at_two : i ≡ 2 = omega (arith, e) in rw at_two refl
third_byte (x ∷ code) o h l zero e = absurd (omega (arith, e))
third_byte (x ∷ code) o h l (suc i) e = third_byte code o h l i (omega (arith, e))

Holds-at :
    (xs : List ℕ) (count capacity : ℕ) (cells : List ℕ) (i : ℕ)
    → Holds xs count capacity cells
    → i < count
    → get_elem? cells i ≡ get_elem? xs i
Holds-at xs count capacity cells i h lt =
    sym (get_elem?-take count i cells lt) ∙ ap (λ (l : List ℕ). get_elem? l i) h.written

near_lem : (n : ℕ) → n ≤ 65535 → too_large n ≡ 0
near_lem n h = ground (arith, h)

far_lem : (n : ℕ) → 65535 < n → too_large n ≡ 1
far_lem n h = ground (arith, h)

module _ (junk : Junk) (position : Position) where
  pub emit_byte-IsChunk :
      (code : List ℕ) (positions : List Position) (constants : List Value) (c : Chunk) (byte : ℕ)
      → byte < 256
      → IsChunk code positions constants c
      → IsChunk
          (code ++ byte ∷ [])
          (positions ++ position ∷ [])
          constants
          (emit_byte junk position byte c)
  unfolding emit_byte
  emit_byte-IsChunk code positions constants c byte lt h =
      let same : byte % 256 ≡ byte = omega (arith, lt) in
      rw same (write_chunk-IsChunk junk code positions constants c byte position h)

  -- For a loop that starts within the code, emitting it appends three bytes, which take the
  -- machine back to its start if that is at most 65535 bytes away; otherwise an error is
  -- reported.
  pub emit_loop-loops :
      (code : List ℕ) (positions : List Position) (constants : List Value) (c : Chunk)
      (loop_start : ℕ)
      → IsChunk code positions constants c
      → loop_start ≤ c.count
      → (hi : ℕ) × (lo : ℕ) × IsChunk
          (((code ++ op_loop ∷ []) ++ hi ∷ []) ++ lo ∷ [])
          (((positions ++ position ∷ []) ++ position ∷ []) ++ position ∷ [])
          constants
          (emit_loop junk position loop_start c).1
        × (c.count + 3 - loop_start ≤ 65535
            → ((emit_loop junk position loop_start c).0 ≡ 0)
              × (jump_back (emit_loop junk position loop_start c).1.code (c.count + 1)
                  ≡ some loop_start))
        × (65535 < c.count + 3 - loop_start → (emit_loop junk position loop_start c).0 ≡ 1)
  unfolding emit_loop
  emit_loop-loops code positions constants c loop_start h before =
      let looped = emit_byte junk position op_loop c in
      let offset = looped.count - loop_start + 2 in
      let h1 = emit_byte-IsChunk code positions constants c op_loop (omega arith) h in
      let h2 = emit_byte-IsChunk _ _ constants looped (high offset) (high_lt offset) h1 in
      let h3 = emit_byte-IsChunk _ _ constants _ (low offset) (low_lt offset) h2 in
      let one = length-append code (op_loop ∷ []) in
      let distance : offset ≡ c.count + 3 - loop_start =
        omega (arith, h1.code_holds.count_eq, one, h.code_holds.count_eq, before) in
      let long : (emit_byte junk position (low offset)
            (emit_byte junk position (high offset) looped)).count
          ≡ c.count + 3 =
        omega (
          arith,
          h3.code_holds.count_eq,
          length-append ((code ++ op_loop ∷ []) ++ high offset ∷ []) (low offset ∷ []),
          length-append (code ++ op_loop ∷ []) (high offset ∷ []),
          one,
          h.code_holds.count_eq,
        ) in
      (
        high offset,
        low offset,
        h3,
        λ near. (
          near_lem offset (omega (arith, distance, near)),
          jump_back-at _ (c.count + 1) offset (
                read_short-at _ (c.count + 1) (high offset) (low offset)
                  (Holds-at _ _ _ _ (c.count + 1) h3.code_holds (omega (arith, long))
                    ∙ second_byte code op_loop _ _ (c.count + 1)
                        (omega (arith, h.code_holds.count_eq)))
                  (Holds-at _ _ _ _ (c.count + 1 + 1) h3.code_holds (omega (arith, long))
                    ∙ third_byte code op_loop _ _ (c.count + 1 + 1)
                        (omega (arith, h.code_holds.count_eq)))
                ∙ ap some (short_lem offset (omega (arith, distance, near))))
              ∙ back_to (c.count + 1) offset loop_start (omega (arith, distance, before)),
        ),
        λ far. far_lem offset (omega (arith, distance, far)),
      )
    where
      high_lt : (n : ℕ) → high n < 256
      high_lt n = omega (arith, bit_and_mask 8 (n / 256))

      low_lt : (n : ℕ) → low n < 256
      low_lt n = omega (arith, bit_and_mask 8 n)

  -- Emitting a jump appends the instruction, a byte, and two bytes more, and returns where these
  -- two are: the end of the code, less two.
  pub emit_jump-IsChunk :
      (code : List ℕ) (positions : List Position) (constants : List Value) (c : Chunk)
      (instruction : ℕ)
      → instruction < 256
      → IsChunk code positions constants c
      → IsChunk
          (((code ++ instruction ∷ []) ++ 255 ∷ []) ++ 255 ∷ [])
          (((positions ++ position ∷ []) ++ position ∷ []) ++ position ∷ [])
          constants
          (emit_jump junk position instruction c).1
        × ((emit_jump junk position instruction c).0 ≡ c.count + 1)
        × ((emit_jump junk position instruction c).0 + 2
            ≡ (emit_jump junk position instruction c).1.count)
  unfolding emit_jump
  emit_jump-IsChunk code positions constants c instruction lt h =
      let h1 = emit_byte-IsChunk code positions constants c instruction lt h in
      let h2 = emit_byte-IsChunk _ _ constants _ 255 (omega arith) h1 in
      let h3 = emit_byte-IsChunk _ _ constants _ 255 (omega arith) h2 in
      let long =
        length-append ((code ++ instruction ∷ []) ++ 255 ∷ []) (255 ∷ [])
        ∙ ap (λ (n : ℕ). n + 1)
            (length-append (code ++ instruction ∷ []) (255 ∷ [])
              ∙ ap (λ (n : ℕ). n + 1) (length-append code (instruction ∷ []))) in
      (
        h3,
        omega (arith, h3.code_holds.count_eq, long, h.code_holds.count_eq),
        omega (arith, h3.code_holds.count_eq, long),
      )
