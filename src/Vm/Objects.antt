-- ===== src/Vm/Objects.antt =====
-- The heap after an allocation, and what a call reads of it.
use mathlib.Core.Path.{fun_ext}
use my_clox.Prelude.{
  ◌>>=◌, ◌⊎◌, inl, inr, ℕ, ◌+◌, ◌-◌, ◌<◌, ◌^◌, ◌≡◌, refl, sym, true, false, ◌==◌, arith, Option,
  none, some, Bool-cases, ap, ◌∙◌,
}
use my_clox.Value.{Value, Ptr, obj_val, is_obj}
use my_clox.Value.{obj}
use my_clox.Value.Boxing.{is_obj-box}
use my_clox.Object.{ObjClosure, ObjBoundMethod, Body, Heap, Obj, store, bound_method}
use my_clox.Vm.{Calls, CallError, call, write_slot}
use my_clox.Vm.Callees.{
  Machine, body_at, closure_of, function_of, arity_at, with_heap, call_closure, new_object,
}

-- The machine with that many slots in use.
abbrev pub at_count : ℕ → Machine → Machine
at_count n m = record m { calls = record m.calls { stack_count = n } }

-- What the frames and the stack become, the heap apart.
abbrev pub calls_of : Option (CallError ⊎ Machine) → Option (CallError ⊎ Calls)
calls_of none = none
calls_of (some (inl e)) = some (inl e)
calls_of (some (inr m)) = some (inr m.calls)

pub callee_slot-args : (k n : ℕ) → k + 1 + n - n - 1 ≡ k
callee_slot-args k n = omega arith

pub callee_slot-top : (k : ℕ) → k + 1 - 0 - 1 ≡ k
callee_slot-top k = omega arith

pub store-same :
    (heap : Heap) (fresh : Ptr) (o : Option Obj) (p : Ptr)
    → (p == fresh) ≡ true
    → store heap fresh o p ≡ o
store-same heap fresh o p same = ap (λ b. elim b [ true ↦ o | false ↦ heap p ]) same

pub store-other :
    (heap : Heap) (fresh : Ptr) (o : Option Obj) (p : Ptr)
    → (p == fresh) ≡ false
    → store heap fresh o p ≡ heap p
store-other heap fresh o p other = ap (λ b. elim b [ true ↦ o | false ↦ heap p ]) other

-- A cast that refuses bound methods does not see one that is made at an unused address.
cast-new :
    {A : Type 0} (cast : Body → Option A) (heap : Heap) (fresh : Ptr) (b : ObjBoundMethod) (p : Ptr)
    → heap fresh ≡ none
    → cast (bound_method b) ≡ none
    → (body_at (new_object heap fresh (bound_method b)) p >>= cast) ≡ (body_at heap p >>= cast)
cast-new {A = A} cast heap fresh b p unused refuses = elim (Bool-cases (p == fresh)) [
  | inl same ↦
      ap seen (store-same heap fresh made p same)
      ∙ refuses
      ∙ sym (ap seen (ap heap (ground (arith, same)) ∙ unused))
  | inr other ↦ ap seen (store-other heap fresh made p other)
]
  where
    made : Option Obj
    made = some (record { is_marked = false; body = bound_method b })

    seen : Option Obj → Option A
    seen o = o >>= (λ x. some x.body) >>= cast

pub arity_at-new :
    (heap : Heap) (fresh : Ptr) (b : ObjBoundMethod) (p : Ptr)
    → heap fresh ≡ none
    → arity_at (new_object heap fresh (bound_method b)) p ≡ arity_at heap p
unfolding arity_at
arity_at-new heap fresh b p unused =
    rw (cast-new closure_of heap fresh b p unused refl) (of_closure (body_at heap p >>= closure_of))
  where
    of_closure :
        (o : Option ObjClosure)
        → (o
            >>= (λ c. body_at (new_object heap fresh (bound_method b)) c.function)
            >>= function_of
            >>= (λ f. some f.arity))
          ≡ (o >>= (λ c. body_at heap c.function) >>= function_of >>= (λ f. some f.arity))
    of_closure none = refl
    of_closure (some c) = rw (cast-new function_of heap fresh b c.function unused refl) refl

calls_of-with_heap :
    (heap : Heap) (r : CallError ⊎ Calls) → calls_of (some (with_heap heap r)) ≡ some r
calls_of-with_heap heap (inl e) = refl
calls_of-with_heap heap (inr calls) = refl

pub write_slot-back :
    (stack : ℕ → Value) (k : ℕ) (v : Value) → write_slot (write_slot stack k v) k (stack k) ≡ stack
write_slot-back stack k v = fun_ext back
  where
    back : (i : ℕ) → write_slot (write_slot stack k v) k (stack k) i ≡ stack i
    back i = elim (Bool-cases (i == k)) [
      | inl same ↦ rw same (ap stack (ground (arith, same)))
      | inr other ↦ rw other refl
    ]

-- The frames and the stack after a call of a closure depend on the heap by the arity only.
pub call_closure-calls :
    (p : Ptr) (n : ℕ) (m : Machine)
    → calls_of (call_closure p n m) ≡ (arity_at m.heap p >>= λ a. some (call p a n m.calls))
unfolding call_closure
call_closure-calls p n m = of_arity (arity_at m.heap p)
  where
    of_arity :
        (o : Option ℕ)
        → calls_of (o >>= λ a. some (with_heap m.heap (call p a n m.calls)))
          ≡ (o >>= λ a. some (call p a n m.calls))
    of_arity none = refl
    of_arity (some a) = calls_of-with_heap m.heap (call p a n m.calls)

pub is_obj-obj_val : (p : Ptr) → p < 2 ^ 50 → is_obj (obj_val p) ≡ true
is_obj-obj_val p h = is_obj-box (obj p) h

pub eq_self : (p : Ptr) → (p == p) ≡ true
eq_self p = ground arith
