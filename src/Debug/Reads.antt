-- ===== src/Debug/Reads.antt =====
-- What the disassembler shows of an instruction are the bytes that stand in the code.
use my_clox.Prelude.{
  ◌>>=◌, ℕ, zero, suc, ◌+◌, ◌*◌, ◌/◌, ◌%◌, ◌<◌, ◌≡◌, refl, ap, subst, ◌∙◌, Bool, true, false, ◌==◌,
  if◌then◌else◌, arith, bit_or, List, [], ◌∷◌, length, get_elem?, Option, none, some, some_inj,
}
use my_clox.Prelude.Bits.{bit_or_high}
use my_clox.Chunk.{Chunk}
use my_clox.Object.{Heap}
use my_clox.Opcodes.{op_closure}
use my_clox.Debug.{
  Shown, constant_line, invoke_line, simple_line, byte_line, jump_line, closure_line, unknown_line,
  constant_instruction, invoke_instruction, simple_instruction, byte_instruction, jump_instruction,
  function_upvalues, read_captures, closure_instruction, one_of, constant_ops, byte_ops, simple_ops,
  jump_ops, sign_of, invoke_ops, disassemble_at,
}

abbrev pub flatten : List (ℕ × ℕ) → List ℕ
flatten [] = []
flatten ((is_local, index) ∷ captures) = is_local ∷ index ∷ flatten captures

-- The bytes of an instruction.
abbrev pub encode : Shown → List ℕ
encode (constant_line instruction constant value) = instruction ∷ constant ∷ []
encode (invoke_line instruction arg_count constant value) = instruction ∷ constant ∷ arg_count ∷ []
encode (simple_line instruction) = instruction ∷ []
encode (byte_line instruction slot) = instruction ∷ slot ∷ []
encode (jump_line instruction distance target) = instruction ∷ distance / 256 ∷ distance % 256 ∷ []
encode (closure_line constant value captures) = op_closure ∷ constant ∷ flatten captures
encode (unknown_line instruction) = instruction ∷ []

-- The bytes stand in the code from an offset on.
abbrev pub Stand : List ℕ → ℕ → List ℕ → Type 0
Stand code offset [] = Unit {0}
Stand code offset (b ∷ bytes) = (get_elem? code offset ≡ some b) × Stand code (suc offset) bytes

abbrev pub AreBytes : List ℕ → Type 0
AreBytes [] = Unit {0}
AreBytes (b ∷ code) = (b < 256) × AreBytes code

-- The instruction stands at the offset, and the next one follows it.
pub record Shows (code : List ℕ) (offset : ℕ) (r : Shown × ℕ) : Type 0 where
  pub stand : Stand code offset (encode r.0)
  pub next : r.1 ≡ offset + length (encode r.0)
  pub further : offset < r.1

pub bind_inv :
    {A B : Type 0} (o : Option A) (f : A → Option B) (b : B)
    → (o >>= f) ≡ some b
    → (a : A) × (o ≡ some a) × (f a ≡ some b)
bind_inv none f b e = absurd (ground (arith, e))
bind_inv (some a) f b e = (a, refl, e)

pub byte_at : (code : List ℕ) → AreBytes code → (i b : ℕ) → get_elem? code i ≡ some b → b < 256
byte_at [] h i b e = absurd (ground (arith, e))
byte_at (c ∷ code) (lt, h) zero b e = subst (λ (k : ℕ). k < 256) (some_inj e) lt
byte_at (c ∷ code) (lt, h) (suc i) b e = byte_at code h i b e

stands : (code : List ℕ) (i j b : ℕ) → i ≡ j → get_elem? code i ≡ some b → get_elem? code j ≡ some b
stands code i j b e at = subst (λ (k : ℕ). get_elem? code k ≡ some b) e at

shown_as :
    (code : List ℕ) (offset : ℕ) {a r : Shown × ℕ}
    → some a ≡ some r
    → Shows code offset a
    → Shows code offset r
shown_as code offset e h = subst (λ x. Shows code offset x) (some_inj e) h

module _ (chunk : Chunk) (offset instruction : ℕ)
    (here : get_elem? chunk.code offset ≡ some instruction) (r : Shown × ℕ) where
  constant-Shows :
      constant_instruction instruction chunk offset ≡ some r → Shows chunk.code offset r
  unfolding constant_instruction
  constant-Shows e =
      let (constant, at_constant, e1) = bind_inv (get_elem? chunk.code (offset + 1)) _ r e in
      let (value, _, e2) = bind_inv (get_elem? chunk.constants.values constant) _ r e1 in
      shown_as chunk.code offset {a = (constant_line instruction constant value, offset + 2)} e2
        (record {
          stand = (here, (stands chunk.code _ _ constant (omega arith) at_constant, tt));
          next = omega arith;
          further = omega arith;
        })

  byte-Shows : byte_instruction instruction chunk offset ≡ some r → Shows chunk.code offset r
  unfolding byte_instruction
  byte-Shows e =
      let (slot, at_slot, e1) = bind_inv (get_elem? chunk.code (offset + 1)) _ r e in
      shown_as chunk.code offset {a = (byte_line instruction slot, offset + 2)} e1 (record {
        stand = (here, (stands chunk.code _ _ slot (omega arith) at_slot, tt));
        next = omega arith;
        further = omega arith;
      })

  simple-Shows : simple_instruction instruction offset ≡ some r → Shows chunk.code offset r
  unfolding simple_instruction
  simple-Shows e =
      shown_as chunk.code offset e
        (record { stand = (here, tt); next = omega arith; further = omega arith })

  unknown-Shows : some (unknown_line instruction, offset + 1) ≡ some r → Shows chunk.code offset r
  unknown-Shows e =
      shown_as chunk.code offset e
        (record { stand = (here, tt); next = omega arith; further = omega arith })

  invoke-Shows : invoke_instruction instruction chunk offset ≡ some r → Shows chunk.code offset r
  unfolding invoke_instruction
  invoke-Shows e =
      let (constant, at_constant, e1) = bind_inv (get_elem? chunk.code (offset + 1)) _ r e in
      let (args, at_args, e2) = bind_inv (get_elem? chunk.code (offset + 2)) _ r e1 in
      let (value, _, e3) = bind_inv (get_elem? chunk.constants.values constant) _ r e2 in
      shown_as chunk.code offset {a = (invoke_line instruction args constant value, offset + 3)} e3
        (record {
          stand = (
            here,
            (
              stands chunk.code _ _ constant (omega arith) at_constant,
              (stands chunk.code _ _ args (omega arith) at_args, tt),
            ),
          );
          next = omega arith;
          further = omega arith;
        })

  jump-Shows :
      AreBytes chunk.code
      → jump_instruction instruction (sign_of instruction) chunk offset ≡ some r
      → Shows chunk.code offset r
  unfolding jump_instruction
  jump-Shows bytes e =
      let (high, at_high, e1) = bind_inv (get_elem? chunk.code (offset + 1)) _ r e in
      let (low, at_low, e2) = bind_inv (get_elem? chunk.code (offset + 2)) _ r e1 in
      let high_lt = byte_at chunk.code bytes _ high at_high in
      let low_lt = byte_at chunk.code bytes _ low at_low in
      let short : high * 256 % 65536 ≡ high * 256 = omega arith in
      let distance : bit_or (high * 256 % 65536) low ≡ high * 256 + low =
        ap (λ (k : ℕ). bit_or k low) short ∙ bit_or_high 8 high low (omega arith) in
      shown_as chunk.code offset e2 (record {
        stand = (
          here,
          (
            stands chunk.code _ _ _ (omega arith) (at_high ∙ ap some (omega (arith, distance))),
            (
              stands chunk.code _ _ _ (omega arith) (at_low ∙ ap some (omega (arith, distance))),
              tt,
            ),
          ),
        );
        next = omega arith;
        further = omega arith;
      })

captures_as :
    (code : List ℕ) (offset : ℕ) {a r : List (ℕ × ℕ) × ℕ}
    → some a ≡ some r
    → Stand code offset (flatten a.0) × (a.1 ≡ offset + length (flatten a.0))
    → Stand code offset (flatten r.0) × (r.1 ≡ offset + length (flatten r.0))
captures_as code offset e h =
    subst
      (λ (x : List (ℕ × ℕ) × ℕ).
        Stand code offset (flatten x.0) × (x.1 ≡ offset + length (flatten x.0)))
      (some_inj e) h

captures-Stand :
    (code : List ℕ) (count offset : ℕ) (r : List (ℕ × ℕ) × ℕ)
    → read_captures code count offset ≡ some r
    → Stand code offset (flatten r.0) × (r.1 ≡ offset + length (flatten r.0))
unfolding read_captures
captures-Stand code zero offset r e = captures_as code offset e (tt, omega arith)
captures-Stand code (suc count) offset r e =
    let (is_local, at_local, e1) = bind_inv (get_elem? code offset) _ r e in
    let (index, at_index, e2) = bind_inv (get_elem? code (offset + 1)) _ r e1 in
    let ((captures, next), at_rest, e3) = bind_inv (read_captures code count (offset + 2)) _ r e2 in
    let (rest, last) = captures-Stand code count (offset + 2) (captures, next) at_rest in
    let two : offset + 2 ≡ suc (suc offset) = omega arith in
    captures_as code offset {a = ((is_local, index) ∷ captures, next)} e3 (
      (
        at_local,
        (
          stands code _ _ index (omega arith) at_index,
          subst (λ (k : ℕ). Stand code k (flatten captures)) two rest,
        ),
      ),
      omega (arith, last),
    )

closure-Shows :
    (heap : Heap) (chunk : Chunk) (offset : ℕ)
    → get_elem? chunk.code offset ≡ some op_closure
    → (r : Shown × ℕ) → closure_instruction heap chunk offset ≡ some r
    → Shows chunk.code offset r
unfolding closure_instruction
closure-Shows heap chunk offset here r e =
    let (constant, at_constant, e1) = bind_inv (get_elem? chunk.code (offset + 1)) _ r e in
    let (value, _, e2) = bind_inv (get_elem? chunk.constants.values constant) _ r e1 in
    let (count, _, e3) = bind_inv (function_upvalues heap value) _ r e2 in
    let ((captures, next), at_rest, e4) =
      bind_inv (read_captures chunk.code count (offset + 2)) _ r e3 in
    let (rest, last) = captures-Stand chunk.code count (offset + 2) (captures, next) at_rest in
    let two : offset + 2 ≡ suc (suc offset) = omega arith in
    shown_as chunk.code offset {a = (closure_line constant value captures, next)} e4 (record {
      stand = (
        here,
        (
          stands chunk.code _ _ constant (omega arith) at_constant,
          subst (λ (k : ℕ). Stand chunk.code k (flatten captures)) two rest,
        ),
      );
      next = omega (arith, last);
      further = omega (arith, last);
    })

-- One instruction, by the kind that the switch finds.
pub disassemble_at-Shows :
    (heap : Heap) (chunk : Chunk) (offset instruction : ℕ)
    → AreBytes chunk.code
    → get_elem? chunk.code offset ≡ some instruction
    → (r : Shown × ℕ) → disassemble_at heap chunk offset instruction ≡ some r
    → Shows chunk.code offset r
disassemble_at-Shows heap chunk offset instruction bytes here r e =
    by_kind (one_of constant_ops instruction) (one_of byte_ops instruction)
      (one_of simple_ops instruction) (one_of jump_ops instruction) (one_of invoke_ops instruction)
      (instruction == op_closure) refl (unfold disassemble_at in e)
  where
    by_kind :
        (a b c d f g : Bool)
        → (instruction == op_closure) ≡ g
        → (if a
            then constant_instruction instruction chunk offset
            else if b
            then byte_instruction instruction chunk offset
            else if c
            then simple_instruction instruction offset
            else if d
            then jump_instruction instruction (sign_of instruction) chunk offset
            else if f
            then invoke_instruction instruction chunk offset
            else if g
            then closure_instruction heap chunk offset
            else some (unknown_line instruction, offset + 1))
          ≡ some r
        → Shows chunk.code offset r
    by_kind true b c d f g is e = constant-Shows chunk offset instruction here r e
    by_kind false true c d f g is e = byte-Shows chunk offset instruction here r e
    by_kind false false true d f g is e = simple-Shows chunk offset instruction here r e
    by_kind false false false true f g is e = jump-Shows chunk offset instruction here r bytes e
    by_kind false false false false true g is e = invoke-Shows chunk offset instruction here r e
    by_kind false false false false false true is e =
        let same : instruction ≡ op_closure = ground (arith, is) in
        closure-Shows heap chunk offset (here ∙ ap some same) r e
    by_kind false false false false false false is e =
        unknown-Shows chunk offset instruction here r e
