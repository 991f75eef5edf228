-- ===== src/Debug/Targets.antt =====
-- The target that the disassembler shows of a jump is where the machine continues.
use my_clox.Prelude.Integers.{ℤ, pos, negsuc, ◌+ℤ◌, ◌*ℤ◌, difference}
use my_clox.Prelude.{
  List, none, ◌⊎◌, inl, inr, ltb, Bool-cases, subst, if◌then◌else◌, ℕ, ◌+◌, ◌-◌, ◌*◌, ◌%◌, ◌<◌, ◌≡◌,
  ap, sym, ◌∙◌, arith, bit_or, get_elem?, some, some_inj,
}
use my_clox.Prelude.Bits.{bit_or_high}
use my_clox.Chunk.{Chunk}
use my_clox.Emit.{read_short, jump_forward, back_from, jump_back}
use my_clox.Emit.Jumps.{read_short-at, jump_forward-at, jump_back-at}
use my_clox.Opcodes.{op_jump, op_jump_if_false, op_loop}
use my_clox.Object.{Heap}
use my_clox.Debug.{Shown, jump_line, jump_instruction, disassemble_at}
use my_clox.Debug.Reads.{AreBytes, byte_at, bind_inv}

-- Where the machine, which has read the instruction and is at `ip`, continues, as an integer; a loop
-- may leave the code in front.
pub data Continues (code : List ℕ) (ip : ℕ) : ℕ → ℤ → Type 0 where
  jumps : (t : ℕ) → jump_forward code ip ≡ some t → Continues code ip op_jump (pos t)
  may_jump : (t : ℕ) → jump_forward code ip ≡ some t → Continues code ip op_jump_if_false (pos t)
  loops : (t : ℕ) → jump_back code ip ≡ some t → Continues code ip op_loop (pos t)
  leaves : (n : ℕ) → jump_back code ip ≡ none → Continues code ip op_loop (negsuc n)

abbrev pub IsJump : ℕ → Type 0
IsJump instruction =
    (instruction ≡ op_loop) ⊎ ((instruction ≡ op_jump) ⊎ (instruction ≡ op_jump_if_false))

short_distance :
    (high low : ℕ)
    → high < 256
    → low < 256
    → bit_or (high * 256) low % 65536 ≡ bit_or (high * 256 % 65536) low
short_distance high low h l =
    let whole : high * 256 % 65536 ≡ high * 256 = omega arith in
    let both : bit_or (high * 256) low ≡ high * 256 + low = bit_or_high 8 high low (omega arith) in
    omega (arith, both, ap (λ (k : ℕ). bit_or k low) whole)

-- What `jumpInstruction` shows, read back.
shown_jump :
    (instruction : ℕ) (sign : ℤ) (chunk : Chunk) (offset : ℕ) (r : Shown × ℕ)
    → AreBytes chunk.code
    → jump_instruction instruction sign chunk offset ≡ some r
    → (jump : ℕ) × (read_short chunk.code (offset + 1) ≡ some jump)
      × ((jump_line instruction jump (pos (offset + 3) +ℤ sign *ℤ pos jump), offset + 3) ≡ r)
unfolding jump_instruction
shown_jump instruction sign chunk offset r bytes e =
    let (high, at_high, e1) = bind_inv (get_elem? chunk.code (offset + 1)) _ r e in
    let (low, at_low, e2) = bind_inv (get_elem? chunk.code (offset + 2)) _ r e1 in
    let two : offset + 2 ≡ offset + 1 + 1 = omega arith in
    let at_low' : get_elem? chunk.code (offset + 1 + 1) ≡ some low =
      ap (λ (k : ℕ). get_elem? chunk.code k) (sym two) ∙ at_low in
    let short =
      short_distance high low (byte_at chunk.code bytes _ high at_high)
        (byte_at chunk.code bytes _ low at_low) in
    (
      bit_or (high * 256 % 65536) low,
      read_short-at chunk.code (offset + 1) high low at_high at_low' ∙ ap some short,
      some_inj e2,
    )

forward_target :
    (offset jump : ℕ) → pos (offset + 3) +ℤ pos 1 *ℤ pos jump ≡ pos (offset + 1 + 2 + jump)
forward_target offset jump = ap pos (omega arith)

backward_target : (a b : ℕ) → pos a +ℤ negsuc 0 *ℤ pos b ≡ difference a b
backward_target a b = elim (Bool-cases (ltb 0 b)) [
  | inl some_way ↦
      let one : (0 + 1) * b ≡ b = omega arith in
      rw (one, some_way) (ap (difference a) (ground (arith, some_way)))
  | inr no_way ↦
      let one : (0 + 1) * b ≡ b = omega arith in
      rw (one, no_way) (difference_zero a b (ground (arith, no_way)))
]
  where
    difference_zero : (a b : ℕ) → b ≡ 0 → pos (a + (0 - b)) ≡ difference a b
    difference_zero a b e = ground (arith, e)

module _ (code : List ℕ) (offset jump : ℕ) (read : read_short code (offset + 1) ≡ some jump) where
  forward : jump_forward code (offset + 1) ≡ some (offset + 1 + 2 + jump)
  forward = jump_forward-at code (offset + 1) jump read

  loop_target : Continues code (offset + 1) op_loop (pos (offset + 3) +ℤ negsuc 0 *ℤ pos jump)
  loop_target = elim (Bool-cases (ltb (offset + 1 + 2) jump)) [
    | inl out ↦
        subst (Continues code (offset + 1) op_loop)
          (sym (
            backward_target (offset + 3) jump ∙ same ∙ (λ i.
              if out i then negsuc (jump - (offset + 1 + 2) - 1) else pos (offset + 1 + 2 - jump))))
          (leaves (jump - (offset + 1 + 2) - 1)
            (back ∙ (λ i. if out i then none else some (offset + 1 + 2 - jump))))
    | inr within ↦
        subst (Continues code (offset + 1) op_loop)
          (sym (
            backward_target (offset + 3) jump ∙ same ∙ (λ i.
              if within i
              then negsuc (jump - (offset + 1 + 2) - 1)
              else pos (offset + 1 + 2 - jump))))
          (loops (offset + 1 + 2 - jump)
            (back ∙ (λ i. if within i then none else some (offset + 1 + 2 - jump))))
  ]
    where
      same : difference (offset + 3) jump ≡ difference (offset + 1 + 2) jump
      same = ap (λ (n : ℕ). difference n jump) (omega arith)

      back : jump_back code (offset + 1) ≡ back_from (offset + 1 + 2) jump
      back = jump_back-at code (offset + 1) jump read

abbrev target_of : Shown → ℤ
target_of (jump_line instruction jump target) = target
target_of _ = pos 0

module _ (heap : Heap) (chunk : Chunk) (offset shown jump next : ℕ) (target : ℤ)
    (bytes : AreBytes chunk.code) where
  abbrev IsShown : ℕ → Type 0
  IsShown instruction =
      disassemble_at heap chunk offset instruction ≡ some (jump_line shown jump target, next)

  abbrev IsRight : ℕ → Type 0
  IsRight instruction = Continues chunk.code (offset + 1) instruction target × (next ≡ offset + 3)

  of_sign :
      (instruction : ℕ) (sign : ℤ)
      → jump_instruction instruction sign chunk offset ≡ some (jump_line shown jump target, next)
      → ((k : ℕ)
          → read_short chunk.code (offset + 1) ≡ some k
          → Continues chunk.code (offset + 1) instruction (pos (offset + 3) +ℤ sign *ℤ pos k))
      → IsRight instruction
  of_sign instruction sign e go =
      let (k, read, same) =
        shown_jump instruction sign chunk offset (jump_line shown jump target, next) bytes e in
      (
        subst (Continues chunk.code (offset + 1) instruction)
            (ap (λ (x : Shown × ℕ). target_of x.0) same) (go k read),
        sym (ap (λ (x : Shown × ℕ). x.1) same),
      )

  loop-IsRight : IsShown op_loop → IsRight op_loop
  unfolding disassemble_at
  loop-IsRight e = of_sign op_loop (negsuc 0) e (loop_target chunk.code offset)

  forward-IsRight :
      (instruction : ℕ)
      → jump_instruction instruction (pos 1) chunk offset ≡ some (jump_line shown jump target, next)
      → ((t : ℕ)
          → jump_forward chunk.code (offset + 1) ≡ some t
          → Continues chunk.code (offset + 1) instruction (pos t))
      → IsRight instruction
  forward-IsRight instruction e go = of_sign instruction (pos 1) e (λ k read.
      subst (Continues chunk.code (offset + 1) instruction) (sym (forward_target offset k))
        (go (offset + 1 + 2 + k) (forward chunk.code offset k read)))

  jump-IsRight : IsShown op_jump → IsRight op_jump
  unfolding disassemble_at
  jump-IsRight e = forward-IsRight op_jump e jumps

  may_jump-IsRight : IsShown op_jump_if_false → IsRight op_jump_if_false
  unfolding disassemble_at
  may_jump-IsRight e = forward-IsRight op_jump_if_false e may_jump

-- On a chunk whose code are bytes, the target that the disassembler shows of a jump is where the
-- machine continues that has read the instruction, and takes the jump: forward for OP_JUMP and
-- OP_JUMP_IF_FALSE, back for OP_LOOP; a negative target is shown where the loop leaves the code.
-- The line after the jump is for the instruction three bytes further.
pub disassemble_at-jump :
    (heap : Heap) (chunk : Chunk) (offset instruction shown jump next : ℕ) (target : ℤ)
    → AreBytes chunk.code
    → IsJump instruction
    → disassemble_at heap chunk offset instruction ≡ some (jump_line shown jump target, next)
    → Continues chunk.code (offset + 1) instruction target × (next ≡ offset + 3)
disassemble_at-jump heap chunk offset instruction shown jump next target bytes is e = elim is [
  | inl loop ↦ right op_loop loop (loop-IsRight heap chunk offset shown jump next target bytes)
  | inr (inl always) ↦
      right op_jump always (jump-IsRight heap chunk offset shown jump next target bytes)
  | inr (inr maybe) ↦
      right op_jump_if_false maybe (may_jump-IsRight heap chunk offset shown jump next target bytes)
]
  where
    right :
        (op : ℕ)
        → instruction ≡ op
        → (disassemble_at heap chunk offset op ≡ some (jump_line shown jump target, next)
            → Continues chunk.code (offset + 1) op target × (next ≡ offset + 3))
        → Continues chunk.code (offset + 1) instruction target × (next ≡ offset + 3)
    right op same go =
        subst (λ (n : ℕ). Continues chunk.code (offset + 1) n target × (next ≡ offset + 3))
          (sym same)
          (go (
            subst
              (λ (n : ℕ).
                disassemble_at heap chunk offset n ≡ some (jump_line shown jump target, next))
              same e))
