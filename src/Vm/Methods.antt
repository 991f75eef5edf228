-- ===== src/Vm/Methods.antt =====
-- Properties read and methods called: `obj.name(args)` as one instruction or as two.
use my_clox.Prelude.{
  ◌>>=◌, ◌⊎◌, inl, inr, ℕ, ◌+◌, ◌<◌, ◌^◌, ◌≡◌, refl, false, Option, none, some, Option-cases, ◌∙◌,
}
use my_clox.Value.{Value, Ptr, obj_val, as_obj}
use my_clox.Value.Boxing.{as_obj-obj_val}
use my_clox.Table.{table_get}
use my_clox.Object.{ObjInstance, bound_method}
use my_clox.Vm.{CallError, write_slot}
use my_clox.Vm.Callees.{
  Machine, body_at, class_of, call_closure, new_object, call_body, call_value, invoke_from_class,
  instance_at, invoke_on, invoke, bind_method, property_on, get_property,
}
use my_clox.Vm.Objects.{
  at_count, calls_of, callee_slot-args, callee_slot-top, store-same, arity_at-new, write_slot-back,
  call_closure-calls, is_obj-obj_val, eq_self,
}

module _ (hash : Ptr → ℕ) (init_string : Ptr)
    (native_result : ℕ → ℕ → (ℕ → Value) → ℕ → Value) where
  -- The slots above the receiver's fill with the arguments, and what the property was is called.
  unfoldable pub then_call :
      Ptr → ℕ → ℕ → Option (CallError ⊎ Machine) → Option (CallError ⊎ Machine)
  then_call fresh k n none = none
  then_call fresh k n (some (inl e)) = some (inl e)
  then_call fresh k n (some (inr m)) =
      call_value hash init_string native_result fresh (m.calls.stack k) n (at_count (k + 1 + n) m)

  -- The state after a method was bound to the receiver in the slot `k`.
  abbrev bound_at : Ptr → Ptr → ℕ → Machine → Machine
  bound_at fresh q k m = record m {
    calls = record m.calls { stack = write_slot m.calls.stack k (obj_val fresh) };
    heap =
        new_object m.heap fresh (bound_method (record { receiver = m.calls.stack k; method = q }));
  }

  bound-called :
      (fresh later q : Ptr) (k n : ℕ) (m : Machine)
      → fresh < 2 ^ 50
      → m.heap fresh ≡ none
      → calls_of (call_closure q n (at_count (k + 1 + n) m))
        ≡ calls_of (then_call later k n (some (inr (bound_at fresh q k m))))
  unfolding then_call call_value call_body
  bound-called fresh later q k n m small unused =
      rw
        (
          eq_self k,
          is_obj-obj_val fresh small,
          as_obj-obj_val fresh small,
          store-same m.heap fresh
              (some (record {
                is_marked = false;
                body = bound_method (record { receiver = m.calls.stack k; method = q });
              }))
              fresh (eq_self fresh),
          callee_slot-args k n,
        )
        (call_closure-calls q n (at_count (k + 1 + n) m)
          ∙ rw
              (
                call_closure-calls q n (record m {
                  calls = record m.calls {
                    stack =
                        write_slot (write_slot m.calls.stack k (obj_val fresh)) k (m.calls.stack k);
                    stack_count = k + 1 + n;
                  };
                  heap =
                      new_object m.heap fresh
                        (bound_method (record { receiver = m.calls.stack k; method = q }));
                }),
                arity_at-new m.heap fresh (record { receiver = m.calls.stack k; method = q }) q
                    unused,
                write_slot-back m.calls.stack k (obj_val fresh),
              )
              refl)

  from_class-bind_method :
      (fresh later class name : Ptr) (k n : ℕ) (m : Machine)
      → fresh < 2 ^ 50
      → m.heap fresh ≡ none
      → calls_of
          (invoke_from_class hash init_string native_result class name n (at_count (k + 1 + n) m))
        ≡ calls_of (
            then_call later k n
              (bind_method hash init_string native_result fresh class name (at_count (k + 1) m)))
  unfolding invoke_from_class bind_method then_call
  from_class-bind_method fresh later class name k n m small unused =
      elim (Option-cases (body_at m.heap class >>= class_of)) [
        | inl wrong ↦ rw wrong refl
        | inr (c, found) ↦ rw found (elim (Option-cases (table_get hash c.methods name)) [
          | inl wrong ↦ rw wrong refl
          | inr (none, absent) ↦ rw absent refl
          | inr (some method, defined) ↦
              rw (defined, callee_slot-top k)
                (bound-called fresh later (as_obj method) k n m small unused)
        ])
      ]

  -- The same once the receiver is known to be an instance.
  invoke-property_on :
      (fresh later name : Ptr) (k n : ℕ) (m : Machine) (i : ObjInstance)
      → fresh < 2 ^ 50
      → m.heap fresh ≡ none
      → calls_of
          (invoke_on hash init_string native_result later name n (at_count (k + 1 + n) m) (some i))
        ≡ calls_of (
            then_call later k n
              (property_on hash init_string native_result fresh name (at_count (k + 1) m) (some i)))
  unfolding invoke_on property_on then_call
  invoke-property_on fresh later name k n m i small unused =
      elim (Option-cases (table_get hash i.fields name)) [
        | inl wrong ↦ rw wrong refl
        | inr (none, absent) ↦
            rw absent (from_class-bind_method fresh later i.klass name k n m small unused)
        | inr (some value, field) ↦
            rw field (rw (callee_slot-args k n, callee_slot-top k, eq_self k) refl)
      ]

  -- Calling a method of an instance in one instruction gives the frames and the stack, or the
  -- error (its text apart), that reading the property and calling the value read gives, whether the
  -- property is a field, a method or missing: where the bound method is made at an unused address
  -- below 2^50.
  pub invoke-get_property :
      (fresh later name : Ptr) (k n : ℕ) (m : Machine)
      → fresh < 2 ^ 50
      → m.heap fresh ≡ none
      → calls_of (invoke hash init_string native_result later name n (at_count (k + 1 + n) m))
        ≡ calls_of (
            then_call later k n
              (get_property hash init_string native_result fresh name (at_count (k + 1) m)))
  unfolding invoke get_property then_call invoke_on property_on
  invoke-get_property fresh later name k n m small unused =
      rw (callee_slot-args k n, callee_slot-top k)
        (of_value (instance_at hash init_string native_result m.heap (m.calls.stack k)))
    where
      of_value :
          (o : Option (Option ObjInstance))
          → calls_of
              (o >>= invoke_on hash init_string native_result later name n (at_count (k + 1 + n) m))
            ≡ calls_of (
                then_call later k n (
                  o >>= property_on hash init_string native_result fresh name (at_count (k + 1) m)))
      of_value none = refl
      of_value (some none) = refl
      of_value (some (some i)) = invoke-property_on fresh later name k n m i small unused
