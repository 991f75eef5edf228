-- ===== src/Vm/Frames.antt =====
-- Calls and returns: the frame limit, and the state that a caller gets back.
use my_clox.Prelude.{
  ℕ, suc, ◌+◌, ◌-◌, ◌≤◌, ◌<◌, ◌≡◌, ◌≢◌, refl, true, false, ◌==◌, arith, List, ◌∷◌, inl, inr, ◌⊎◌,
  Bool-cases, length,
}
use my_clox.Value.{Value, Ptr}
use my_clox.Vm.{
  ClosedUpvalue, CallFrame, Calls, CallError, wrong_arity, stack_overflow, call, write_slot,
  return_from,
}
use my_clox.Vm.Open.{IsBelow, Closes, close_upvalues-Closes}

-- A frame whose callee stands in the slot `slots`.
abbrev pub frame_of : Ptr → ℕ → CallFrame
frame_of closure slots = record { closure = closure; ip = 0; slots = slots }

-- The outcomes of a call.
pub data Called (closure : Ptr) (arity arg_count : ℕ) (calls : Calls)
    : CallError ⊎ Calls → Type 0 where
  refused :
      arg_count ≢ arity → Called closure arity arg_count calls (inl (wrong_arity arity arg_count))
  overflowed :
      arg_count ≡ arity
      → length calls.frames ≡ 64
      → Called closure arity arg_count calls (inl stack_overflow)
  entered :
      arg_count ≡ arity
      → (length calls.frames + 1 ≤ 64)
      → Called closure arity arg_count calls (
          inr (record calls {
            frames = frame_of closure (calls.stack_count - arg_count - 1) ∷ calls.frames;
          }))

-- With at most 64 frames, a call with the wrong number of arguments, or beyond 64 frames, is an
-- error; any other adds one frame, on the callee and its arguments, and changes nothing else; so
-- there are never more than 64 frames.
pub call-Called :
    (closure : Ptr) (arity arg_count : ℕ) (calls : Calls)
    → length calls.frames ≤ 64
    → Called closure arity arg_count calls (call closure arity arg_count calls)
unfolding call
call-Called closure arity arg_count calls few = elim (Bool-cases (arg_count == arity)) [
  | inr other ↦ rw other (refused (λ e. ground (arith, other, e)))
  | inl same ↦ elim (Bool-cases (length calls.frames == 64)) [
    | inl full ↦
        rw (same, full) (overflowed (ground (arith, same)) (full_of (length calls.frames) full))
    | inr room ↦
        rw (same, room) (entered (ground (arith, same)) (room_of (length calls.frames) room few))
  ]
]
  where
    full_of : (n : ℕ) → (n == 64) ≡ true → n ≡ 64
    full_of n h = ground (arith, h)

    room_of : (n : ℕ) → (n == 64) ≡ false → n ≤ 64 → n + 1 ≤ 64
    room_of n h le = ground (arith, h)

-- What a caller gets back.
pub record Returns (slots : ℕ) (frames : List CallFrame) (calls : Calls)
    (r : List ClosedUpvalue × Calls) : Type 0 where
  pub frames_back : r.1.frames ≡ frames
  pub count_back : r.1.stack_count ≡ slots + 1
  pub result : r.1.stack slots ≡ calls.stack (calls.stack_count - 1)
  pub below : (i : ℕ) → i < slots → r.1.stack i ≡ calls.stack i
  pub closed : Closes calls.stack calls.open_upvalues slots (r.0, r.1.open_upvalues)

-- Where the slots of the open upvalues go down, returning to a caller leaves its frames and the
-- slots below the callee's as they were, puts the result in the callee's slot, which is the
-- last, and closes exactly the upvalues from that slot on.
pub return_from-Returns :
    (frame caller : CallFrame) (frames : List CallFrame) (calls : Calls) (bound : ℕ)
    → IsBelow bound calls.open_upvalues
    → Returns frame.slots (caller ∷ frames) calls (return_from frame (caller ∷ frames) calls)
unfolding return_from
return_from-Returns frame caller frames calls bound sorted =
    rw (some_left (length frames)) (record {
      frames_back = refl;
      count_back = refl;
      result = write_slot_self frame.slots (calls.stack (calls.stack_count - 1));
      below = λ i lt. write_slot_ne frame.slots i (calls.stack (calls.stack_count - 1)) lt;
      closed = close_upvalues-Closes calls.stack calls.open_upvalues bound frame.slots sorted;
    })
  where
    some_left : (n : ℕ) → (suc n == 0) ≡ false
    some_left n = ground arith

    write_slot_self : (slot : ℕ) (value : Value) → write_slot calls.stack slot value slot ≡ value
    write_slot_self slot value = ground arith

    write_slot_ne :
        (slot i : ℕ) (value : Value)
        → i < slot
        → write_slot calls.stack slot value i ≡ calls.stack i
    write_slot_ne slot i value lt = ground arith
