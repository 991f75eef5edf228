-- ===== src/Tests/VmRuns.antt =====
-- src/vm.c: a slot that two closures capture, calls, methods and properties of an instance.
use my_clox.Prelude.{
  ◌<◌, ◌^◌, ◌>>=◌, ◌+◌, ◌++◌, Option, none, some, inr, ◌==◌, if◌then◌else◌, replicate, true, false,
  ◌⊎◌, ℕ, ◌≡◌, refl, arith, List, [], ◌∷◌,
}
use my_clox.Value.{Value, Ptr, null, obj_val, as_obj, is_obj, nil_val, false_val}
use my_clox.Chunk.{init_chunk}
use my_clox.Table.{
  Table, entry, init_table, next_index, find_loop, find_entry, lookup_entry, table_get,
}
use my_clox.Object.{Body, Heap, ObjInstance, klass, closure, function, instance_of}
use my_clox.Vm.Callees.{
  Machine, arity_at, call_closure, instance_at, invoke_from_class, invoke_on, invoke, get_property,
  set_property,
}
use my_clox.Vm.Objects.{at_count, calls_of}
use my_clox.Vm.Methods.{then_call, invoke-get_property}
use my_clox.Table.Valid.{init_table-IsValid}
use my_clox.Vm.Properties.{Assigned, set_property-Assigned}
use my_clox.Vm.Falsey.{is_falsey-nil_or_false}
use my_clox.Vm.{
  is_falsey, CallError, OpenUpvalue, CallFrame, Calls, capture_upvalue, close_upvalues, call,
  return_from,
}
use my_clox.Vm.Open.{
  IsBelow, open_at, Captures, capture_upvalue-Captures, Closes, close_upvalues-Closes,
}
use my_clox.Vm.Frames.{Called, call-Called, Returns, return_from-Returns}

abbrev opened : List OpenUpvalue
opened = open_at 100 7 ∷ open_at 200 4 ∷ []

opened-IsBelow : IsBelow 10 opened
opened-IsBelow = (omega arith, (omega arith, tt))

-- Slot 5 goes in between, slot 4 is shared.
between : capture_upvalue opened 300 5 ≡ (300, open_at 100 7 ∷ open_at 300 5 ∷ open_at 200 4 ∷ [])
unfolding capture_upvalue
between = refl

shared : capture_upvalue opened 300 4 ≡ (200, opened)
unfolding capture_upvalue
shared = refl

capture_upvalue-Captures_example : Captures opened 10 300 5 (capture_upvalue opened 300 5)
capture_upvalue-Captures_example =
    capture_upvalue-Captures opened 10 300 5 (omega arith) opened-IsBelow

abbrev stack : ℕ → Value
stack i = i

close_upvalues-Closes_example : Closes stack opened 5 (close_upvalues stack opened 5)
close_upvalues-Closes_example = close_upvalues-Closes stack opened 10 5 opened-IsBelow

abbrev caller : CallFrame
caller = record { closure = 9; ip = 12; slots = 0 }

abbrev callee : CallFrame
callee = record { closure = 11; ip = 3; slots = 5 }

abbrev running : Calls
running = record {
  frames = callee ∷ caller ∷ [];
  stack = stack;
  stack_count = 9;
  open_upvalues = opened;
}

call-Called_example : Called 11 1 1 running (call 11 1 1 running)
call-Called_example = call-Called 11 1 1 running (omega arith)

return_from-Returns_example :
    Returns callee.slots (caller ∷ []) running (return_from callee (caller ∷ []) running)
return_from-Returns_example = return_from-Returns callee caller [] running 10 opened-IsBelow

-- The number 0.0 is a true condition.
is_falsey-nil_or_false_example :
    ((is_falsey 0 ≡ true) × ((0 ≡ nil_val) ⊎ (0 ≡ false_val)))
    ⊎ ((is_falsey 0 ≡ false) × ((0 ≡ nil_val → ⊥) × (0 ≡ false_val → ⊥)))
is_falsey-nil_or_false_example = is_falsey-nil_or_false 0

-- Object 50 is an instance of class 10, whose method 20 is the closure 30 of the function 40 with
-- one parameter.
abbrev methods : Table
methods = record {
  count = 1;
  capacity = 8;
  entries =
      replicate 4 (entry null nil_val) ++ entry 20 (obj_val 30) ∷ replicate 3 (entry null nil_val);
}

abbrev object_at : Ptr → Option Body
object_at p =
    if p == 10
    then some (klass (record { name = 11; methods = methods }))
    else if p == 30
    then some (closure (record { function = 40; upvalues = [] }))
    else if p == 40
    then some (function (record { arity = 1; upvalue_count = 0; chunk = init_chunk; name = 20 }))
    else if p == 50
    then some (instance_of (record { klass = 10; fields = init_table }))
    else none

abbrev heap : Heap
heap p = object_at p >>= λ body. some (record { is_marked = false; body = body })

-- Slot 3 is the instance, slot 4 the argument.
abbrev machine : Machine
machine = record {
  calls = record {
    frames = [];
    stack = λ i. if i == 3 then obj_val 50 else nil_val;
    stack_count = 5;
    open_upvalues = [];
  };
  heap = heap;
}

abbrev own_hash : Ptr → ℕ
own_hash key = key

abbrev no_native : ℕ → ℕ → (ℕ → Value) → ℕ → Value
no_native id arg_count stack first = nil_val

abbrev frames_after : Option (CallError ⊎ Machine) → List CallFrame
frames_after (some (inr m)) = m.calls.frames
frames_after _ = []

invoked :
    frames_after (invoke own_hash 12 no_native 78 20 1 machine)
    ≡ record { closure = 30; ip = 0; slots = 3 } ∷ []
unfolding invoke invoke_on invoke_from_class instance_at call_closure arity_at call table_get
    lookup_entry find_entry find_loop next_index init_table is_obj as_obj obj_val
invoked = refl

invoke-get_property_example :
    calls_of (invoke own_hash 12 no_native 78 20 1 (at_count (3 + 1 + 1) machine))
    ≡ calls_of (
        then_call own_hash 12 no_native 78 3 1
          (get_property own_hash 12 no_native 77 20 (at_count (3 + 1) machine)))
invoke-get_property_example =
    invoke-get_property own_hash 12 no_native 77 78 20 3 1 machine (omega arith) refl

abbrev instance : ObjInstance
instance = record { klass = 10; fields = init_table }

few_slots : instance.fields.capacity < 2 ^ 30
unfolding init_table
few_slots = omega arith

set_property-Assigned_example :
    (m' : Machine) × (set_property own_hash 12 no_native 60 (at_count (3 + 2) machine)
      ≡ some (inr m'))
    × Assigned own_hash 12 no_native 3 50 instance 60 machine m'
set_property-Assigned_example =
    set_property-Assigned own_hash 12 no_native 3 50 instance 60 machine (ground arith)
      (omega arith) refl refl (init_table-IsValid own_hash).0 few_slots
