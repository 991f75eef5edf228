-- ===== src/Vm.antt =====
-- src/vm.c: the open upvalues, the calls and the value stack. The stack is a list, its top first;
-- a slot is counted from the bottom. An upvalue object is its address, its location and its value.
pub mod Open
pub mod Frames
pub mod Falsey
pub mod Callees
pub mod Objects
pub mod Methods
pub mod Properties
use my_clox.Prelude.{
  ◌||◌, ◌&&◌, ◌⊎◌, inl, inr, not, ℕ, zero, suc, ◌+◌, ◌-◌, Bool, true, false, ltb, leb, ◌==◌,
  if◌then◌else◌, List, [], ◌∷◌, ◌++◌, Option, none, some, length,
}
use my_clox.Value.{Value, Ptr, is_nil, is_bool, as_bool}

-- An open upvalue: the object and the stack slot that `location` points to.
pub record OpenUpvalue : Type 0 where
  pub object : Ptr
  pub slot : ℕ

-- A closed upvalue: the object and what `closed` holds.
pub record ClosedUpvalue : Type 0 where
  pub object : Ptr
  pub closed : Value

-- The upvalue of a slot, and the list `vm.openUpvalues` afterwards. `fresh` is the object that
-- `newUpvalue` returns.
unfoldable pub capture_upvalue : List OpenUpvalue → Ptr → ℕ → Ptr × List OpenUpvalue
capture_upvalue [] fresh local = (fresh, record { object = fresh; slot = local } ∷ [])
capture_upvalue (upvalue ∷ next) fresh local =
    let later = capture_upvalue next fresh local in
    if ltb local upvalue.slot
    then (later.0, upvalue ∷ later.1)
    else if upvalue.slot == local
    then (upvalue.object, upvalue ∷ next)
    else (fresh, record { object = fresh; slot = local } ∷ upvalue ∷ next)

-- The upvalues that are closed, with the values of their slots, and the ones that stay open.
unfoldable pub close_upvalues :
    (ℕ → Value) → List OpenUpvalue → ℕ → List ClosedUpvalue × List OpenUpvalue
close_upvalues stack [] last = ([], [])
close_upvalues stack (upvalue ∷ next) last =
    let later = close_upvalues stack next last in
    if leb last upvalue.slot
    then (record { object = upvalue.object; closed = stack upvalue.slot } ∷ later.0, later.1)
    else ([], upvalue ∷ next)

pub record CallFrame : Type 0 where
  pub closure : Ptr
  pub ip : ℕ
  pub slots : ℕ

-- The frames, the current one first; the stack's slots, of which `stack_count` are in use; and the
-- open upvalues.
pub record Calls : Type 0 where
  pub frames : List CallFrame
  pub stack : ℕ → Value
  pub stack_count : ℕ
  pub open_upvalues : List OpenUpvalue

-- `not_instance` has a text of its own for methods, properties and fields.
pub data CallError : Type 0 where
  wrong_arity : ℕ → ℕ → CallError
  stack_overflow : CallError
  not_callable : CallError
  not_instance : CallError
  undefined_property : Ptr → CallError

-- `call`, with the arity of the closure's function; `ip` starts at the function's first byte. The
-- callee and its arguments are on the stack.
unfoldable pub call : Ptr → ℕ → ℕ → Calls → CallError ⊎ Calls
call closure arity arg_count calls =
    if not (arg_count == arity)
    then inl (wrong_arity arity arg_count)
    else if length calls.frames == 64
    then inl stack_overflow
    else inr (record calls {
      frames =
          record { closure = closure; ip = 0; slots = calls.stack_count - arg_count - 1 }
          ∷ calls.frames;
    })

abbrev pub write_slot : (ℕ → Value) → ℕ → Value → ℕ → Value
write_slot stack slot value i = if i == slot then value else stack i

-- `OP_RETURN` of `run` in a frame with the frames `frames` below it: the upvalues that it closes,
-- and the state. Where no frame is left the program ends.
unfoldable pub return_from : CallFrame → List CallFrame → Calls → List ClosedUpvalue × Calls
return_from frame frames calls =
    let popped = calls.stack_count - 1 in
    let result = calls.stack popped in
    let closed = close_upvalues calls.stack calls.open_upvalues frame.slots in
    (
      closed.0,
      if length frames == 0
          then record calls { frames = frames; stack_count = popped - 1; open_upvalues = closed.1 }
          else record {
            frames = frames;
            stack = write_slot calls.stack frame.slots result;
            stack_count = frame.slots + 1;
            open_upvalues = closed.1;
          },
    )

unfoldable pub is_falsey : Value → Bool
is_falsey value = is_nil value || is_bool value && not (as_bool value)
