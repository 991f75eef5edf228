-- ===== src/Vm/Callees.antt =====
-- src/vm.c: calls of values, methods and their binding. `none` is a pointer to no object of the
-- type that a cast takes it for.
use my_clox.Prelude.{
  ◌>>=◌, ◌⊎◌, inl, inr, ℕ, ◌+◌, ◌-◌, false, ◌==◌, if◌then◌else◌, Option, none, some,
}
use my_clox.Value.{Value, Ptr, is_obj, as_obj, obj_val}
use my_clox.Table.{init_table, table_get, table_set}
use my_clox.Object.{
  ObjFunction, ObjClosure, ObjClass, ObjInstance, Body, Heap, store, bound_method, klass, closure,
  function, native, instance_of,
}
use my_clox.Vm.{
  Calls, CallError, not_callable, not_instance, undefined_property, wrong_arity, call, write_slot,
}

-- The machine's frames, stack and heap.
pub record Machine : Type 0 where
  pub calls : Calls
  pub heap : Heap

-- `AS_CLOSURE`, `AS_CLASS`, `AS_INSTANCE` and the other casts, where the object has that type.
abbrev pub closure_of : Body → Option ObjClosure
closure_of (closure c) = some c
closure_of _ = none

abbrev pub function_of : Body → Option ObjFunction
function_of (function f) = some f
function_of _ = none

abbrev pub class_of : Body → Option ObjClass
class_of (klass c) = some c
class_of _ = none

abbrev pub instance_of_body : Body → Option ObjInstance
instance_of_body (instance_of i) = some i
instance_of_body _ = none

abbrev pub body_at : Heap → Ptr → Option Body
body_at heap p = heap p >>= λ o. some o.body

-- `closure->function->arity`
unfoldable pub arity_at : Heap → Ptr → Option ℕ
arity_at heap p =
    body_at heap p
    >>= closure_of
    >>= (λ c. body_at heap c.function)
    >>= function_of
    >>= (λ f. some f.arity)

abbrev pub with_heap : Heap → CallError ⊎ Calls → CallError ⊎ Machine
with_heap heap (inl e) = inl e
with_heap heap (inr calls) = inr (record { calls = calls; heap = heap })

-- `call` on a closure of the heap.
unfoldable pub call_closure : Ptr → ℕ → Machine → Option (CallError ⊎ Machine)
call_closure p arg_count m =
    arity_at m.heap p >>= λ arity. some (with_heap m.heap (call p arity arg_count m.calls))

-- `vm.stackTop[-argCount - 1]`
abbrev pub callee_slot : ℕ → Calls → ℕ
callee_slot arg_count calls = calls.stack_count - arg_count - 1

abbrev pub write_callee : ℕ → Value → Machine → Machine
write_callee arg_count value m = record m {
  calls = record m.calls { stack = write_slot m.calls.stack (callee_slot arg_count m.calls) value };
}

abbrev pub new_object : Heap → Ptr → Body → Heap
new_object heap fresh body = store heap fresh (some (record { is_marked = false; body = body }))

-- The object with another body, its mark kept.
abbrev pub with_body : Heap → Ptr → Body → Heap
with_body heap p body = store heap p (heap p >>= λ o. some (record o { body = body }))

-- `hash` reads the hash of a string; `init_string` is `vm.initString`; `native_result` is what a
-- native function returns for its arguments, which are the slots from one on; `fresh` is the object
-- that an allocation returns.
module _ (hash : Ptr → ℕ) (init_string : Ptr)
    (native_result : ℕ → ℕ → (ℕ → Value) → ℕ → Value) where
  -- A class makes an instance and runs its initializer, where there is one.
  unfoldable pub call_class : Ptr → Ptr → ObjClass → ℕ → Machine → Option (CallError ⊎ Machine)
  call_class fresh p c arg_count m =
      let made = write_callee arg_count (obj_val fresh) (record m {
        heap = new_object m.heap fresh (instance_of (record { klass = p; fields = init_table }));
      }) in
      table_get hash c.methods init_string >>= λ o. elim o [
        | some initializer ↦ call_closure (as_obj initializer) arg_count made
        | none ↦ if arg_count == 0 then some (inr made) else some (inl (wrong_arity 0 arg_count))
      ]

  unfoldable pub call_native : ℕ → ℕ → Machine → Machine
  call_native id arg_count m =
      let first = m.calls.stack_count - arg_count in
      let result = native_result id arg_count m.calls.stack first in
      record m {
        calls = record m.calls {
          stack = write_slot m.calls.stack (first - 1) result;
          stack_count = first;
        };
      }

  unfoldable pub call_body : Ptr → Ptr → Body → ℕ → Machine → Option (CallError ⊎ Machine)
  call_body fresh p (bound_method b) arg_count m =
      call_closure b.method arg_count (write_callee arg_count b.receiver m)
  call_body fresh p (klass c) arg_count m = call_class fresh p c arg_count m
  call_body fresh p (closure c) arg_count m = call_closure p arg_count m
  call_body fresh p (native id) arg_count m = some (inr (call_native id arg_count m))
  call_body fresh p _ arg_count m = some (inl not_callable)

  unfoldable pub call_value : Ptr → Value → ℕ → Machine → Option (CallError ⊎ Machine)
  call_value fresh callee arg_count m =
      if is_obj callee
      then body_at m.heap (as_obj callee)
        >>= (λ body. call_body fresh (as_obj callee) body arg_count m)
      else some (inl not_callable)

  unfoldable pub invoke_from_class : Ptr → Ptr → ℕ → Machine → Option (CallError ⊎ Machine)
  invoke_from_class class name arg_count m = body_at m.heap class >>= class_of >>= (λ c.
      table_get hash c.methods name >>= λ o. elim o [
        | none ↦ some (inl (undefined_property name))
        | some method ↦ call_closure (as_obj method) arg_count m
      ])

  -- The instance that a value is, or `none` where `IS_INSTANCE` is false.
  unfoldable pub instance_at : Heap → Value → Option (Option ObjInstance)
  instance_at heap value =
      if is_obj value
      then body_at heap (as_obj value) >>= (λ body. some (instance_of_body body))
      else some none

  unfoldable pub invoke_on :
      Ptr → Ptr → ℕ → Machine → Option ObjInstance → Option (CallError ⊎ Machine)
  invoke_on fresh name arg_count m none = some (inl not_instance)
  invoke_on fresh name arg_count m (some i) = table_get hash i.fields name >>= λ o. elim o [
    | some value ↦ call_value fresh value arg_count (write_callee arg_count value m)
    | none ↦ invoke_from_class i.klass name arg_count m
  ]

  unfoldable pub invoke : Ptr → Ptr → ℕ → Machine → Option (CallError ⊎ Machine)
  invoke fresh name arg_count m =
      instance_at m.heap (m.calls.stack (callee_slot arg_count m.calls))
      >>= invoke_on fresh name arg_count m

  -- `bindMethod`, on the value at the top of the stack.
  unfoldable pub bind_method : Ptr → Ptr → Ptr → Machine → Option (CallError ⊎ Machine)
  bind_method fresh class name m = body_at m.heap class >>= class_of >>= (λ c.
      table_get hash c.methods name >>= λ o. elim o [
        | none ↦ some (inl (undefined_property name))
        | some method ↦
            let receiver = m.calls.stack (callee_slot 0 m.calls) in
            some (
              inr (
                write_callee 0 (obj_val fresh) (record m {
                  heap =
                      new_object m.heap fresh
                        (bound_method (record { receiver = receiver; method = as_obj method }));
                })))
      ])

  unfoldable pub property_on :
      Ptr → Ptr → Machine → Option ObjInstance → Option (CallError ⊎ Machine)
  property_on fresh name m none = some (inl not_instance)
  property_on fresh name m (some i) = table_get hash i.fields name >>= λ o. elim o [
    | some value ↦ some (inr (write_callee 0 value m))
    | none ↦ bind_method fresh i.klass name m
  ]

  -- `OP_GET_PROPERTY` of `run`.
  unfoldable pub get_property : Ptr → Ptr → Machine → Option (CallError ⊎ Machine)
  get_property fresh name m =
      instance_at m.heap (m.calls.stack (callee_slot 0 m.calls)) >>= property_on fresh name m

  unfoldable pub set_on : Ptr → Ptr → Machine → Option ObjInstance → Option (CallError ⊎ Machine)
  set_on p name m none = some (inl not_instance)
  set_on p name m (some i) =
      let value = m.calls.stack (callee_slot 0 m.calls) in
      let slot = callee_slot 1 m.calls in
      table_set hash i.fields name value >>= λ r. some (
        inr (record {
          calls = record m.calls {
            stack = write_slot m.calls.stack slot value;
            stack_count = slot + 1;
          };
          heap = with_body m.heap p (instance_of (record i { fields = r.1 }));
        }))

  -- `OP_SET_PROPERTY` of `run`.
  unfoldable pub set_property : Ptr → Machine → Option (CallError ⊎ Machine)
  set_property name m =
      let receiver = m.calls.stack (callee_slot 1 m.calls) in
      instance_at m.heap receiver >>= set_on (as_obj receiver) name m
