-- ===== src/Emit/Constants.antt =====
-- A constant that the compiler emits is the one that its operand names.
use my_clox.Prelude.{
  ℕ, ◌%◌, ◌≤◌, ◌<◌, ◌≡◌, refl, true, false, ltb, arith, List, [], ◌∷◌, ◌++◌, length, inl, inr,
  Bool-cases,
}
use my_clox.Value.{Value}
use my_clox.Chunk.{Position, Chunk, Junk, add_constant}
use my_clox.Chunk.Laws.{IsChunk, add_constant-IsChunk}
use my_clox.Emit.{op_constant, make_constant, emit_constant}
use my_clox.Emit.Jumps.{emit_byte-IsChunk}

-- What a chunk is after a constant was emitted; `index` is the operand.
pub record Loads (junk : Junk) (position : Position) (code : List ℕ) (positions : List Position)
    (constants : List Value) (v : Value) (r : ℕ × Chunk) : Type 0 where
  pub index : ℕ
  pub chunk :
      IsChunk
        ((code ++ op_constant ∷ []) ++ index ∷ [])
        ((positions ++ position ∷ []) ++ position ∷ [])
        (constants ++ v ∷ [])
        r.1
  pub loads : length constants ≤ 255 → (r.0 ≡ 0) × (index ≡ length constants)
  pub reported : 255 < length constants → r.0 ≡ 1

module _ (junk : Junk) (v : Value) (c : Chunk) where
  pub make_large :
      255 < (add_constant junk c v).1 → make_constant junk v c ≡ (1, 0, (add_constant junk c v).0)
  unfolding make_constant
  make_large h =
      let large : ltb 255 (add_constant junk c v).1 ≡ true = ground (arith, h) in
      rw (make_constant, large) refl

  pub make_small :
      (add_constant junk c v).1 ≤ 255
      → make_constant junk v c ≡ (0, (add_constant junk c v).1 % 256, (add_constant junk c v).0)
  unfolding make_constant
  make_small h =
      let small : ltb 255 (add_constant junk c v).1 ≡ false = ground (arith, h) in
      rw (make_constant, small) refl

-- Emitting a constant appends the value to the constants, and an instruction to the code whose
-- operand is the index of the value, if there are at most 255 constants before it; otherwise an
-- error is reported.
pub emit_constant-Loads :
    (junk : Junk) (position : Position) (code : List ℕ) (positions : List Position)
    (constants : List Value) (c : Chunk) (v : Value)
    → IsChunk code positions constants c
    → Loads junk position code positions constants v (emit_constant junk position v c)
unfolding emit_constant
emit_constant-Loads junk position code positions constants c v h =
    let (added, index, here) = add_constant-IsChunk junk code positions constants c v h in
    elim (Bool-cases (ltb 255 (length constants))) [
      | inl large ↦
          let far : 255 < length constants = ground (arith, large) in
          rw (make_large junk v c (omega (arith, index, far))) (record {
            index = 0;
            chunk =
                emit_byte-IsChunk junk position _ _ _ _ 0 (omega arith)
                  (emit_byte-IsChunk junk position _ _ _ _ op_constant (omega arith) added);
            loads = λ le. absurd (omega (arith, far, le));
            reported = λ lt. refl;
          })
      | inr small ↦
          let near : length constants ≤ 255 = ground (arith, small) in
          rw (make_small junk v c (omega (arith, index, near))) (record {
            index = (add_constant junk c v).1 % 256;
            chunk =
                emit_byte-IsChunk junk position _ _ _ _ ((add_constant junk c v).1 % 256)
                  (omega arith)
                  (emit_byte-IsChunk junk position _ _ _ _ op_constant (omega arith) added);
            loads = λ le. (refl, omega (arith, index, near));
            reported = λ lt. absurd (omega (arith, near, lt));
          })
    ]
