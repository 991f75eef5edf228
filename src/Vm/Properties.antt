-- ===== src/Vm/Properties.antt =====
-- A property that is assigned and read.
use my_clox.Prelude.{
  ◌>>=◌, inr, ℕ, ◌+◌, ◌-◌, ◌<◌, ◌^◌, ◌≡◌, ◌≢◌, refl, arith, Bool, Option, none, some, ap, ◌∙◌,
}
use my_clox.Value.{Value, Ptr, null, obj_val}
use my_clox.Value.Boxing.{as_obj-obj_val}
use my_clox.Table.{Table, table_set}
use my_clox.Table.Slots.{view}
use my_clox.Table.Valid.{IsValid}
use my_clox.Table.Methods.{table_set-Sets, table_get-view}
use my_clox.Object.{ObjInstance, Body, Obj, Heap, instance_of}
use my_clox.Vm.{write_slot}
use my_clox.Vm.Callees.{
  Machine, body_at, with_body, instance_at, set_on, set_property, property_on, get_property,
}
use my_clox.Vm.Objects.{at_count, store-same, store-other, is_obj-obj_val, eq_self, callee_slot-top}

-- The machine with that value in the slot.
abbrev pub put : ℕ → Value → Machine → Machine
put k value m = record m { calls = record m.calls { stack = write_slot m.calls.stack k value } }

slot-under : (k : ℕ) → k + 2 - 1 - 1 ≡ k
slot-under k = omega arith

slot-over : (k : ℕ) → k + 2 - 0 - 1 ≡ k + 1
slot-over k = omega arith

-- An object's new body is what is found there.
body_at-with_body :
    (heap : Heap) (p : Ptr) (old new : Body)
    → body_at heap p ≡ some old
    → body_at (with_body heap p new) p ≡ some new
body_at-with_body heap p old new here =
    ap (λ x. x >>= λ y. some y.body)
      (store-same heap p (heap p >>= λ x. some (record x { body = new })) p (eq_self p))
    ∙ of_object (heap p) here
  where
    of_object :
        (x : Option Obj)
        → (x >>= λ o. some o.body) ≡ some old
        → (x >>= (λ o. some (record o { body = new })) >>= (λ o. some o.body)) ≡ some new
    of_object none h = ground (arith, h)
    of_object (some o) h = refl

module _ (hash : Ptr → ℕ) (init_string : Ptr)
    (native_result : ℕ → ℕ → (ℕ → Value) → ℕ → Value) where
  instance_at-obj_val :
      (heap : Heap) (p : Ptr) (i : ObjInstance)
      → p < 2 ^ 50
      → body_at heap p ≡ some (instance_of i)
      → instance_at hash init_string native_result heap (obj_val p) ≡ some (some i)
  unfolding instance_at
  instance_at-obj_val heap p i small here =
      rw (is_obj-obj_val p small, as_obj-obj_val p small, here) refl

  -- What assigning to `name` of the instance `p` in the slot `k`, with the value above it, does.
  pub record Assigned (k : ℕ) (p : Ptr) (i : ObjInstance) (name : Ptr) (m m' : Machine)
      : Type 0 where
    pub count : m'.calls.stack_count ≡ k + 1
    pub result : m'.calls.stack k ≡ m.calls.stack (k + 1)
    pub fields : Table
    pub held : body_at m'.heap p ≡ some (instance_of (record i { fields = fields }))
    pub valid : IsValid hash fields
    pub kept : (q : Ptr) → q ≢ null → q ≢ name → view fields.entries q ≡ view i.fields.entries q
    pub elsewhere : (q : Ptr) → q ≢ p → m'.heap q ≡ m.heap q
    pub reads :
        (fresh : Ptr)
        → get_property hash init_string native_result fresh name (put k (obj_val p) m')
          ≡ some (inr (put k (m.calls.stack (k + 1)) (put k (obj_val p) m')))

  module _ (k : ℕ) (p : Ptr) (i : ObjInstance) (name : Ptr) (m : Machine) (real : name ≢ null)
      (small : p < 2 ^ 50) (here : body_at m.heap p ≡ some (instance_of i)) where
    -- The state after the assignment.
    abbrev assigned : Table → Machine
    assigned fields = record {
      calls = record m.calls {
        stack = write_slot m.calls.stack k (m.calls.stack (k + 1));
        stack_count = k + 1;
      };
      heap = with_body m.heap p (instance_of (record i { fields = fields }));
    }

    set_property_run :
        (r : Bool × Table)
        → m.calls.stack k ≡ obj_val p
        → table_set hash i.fields name (m.calls.stack (k + 1)) ≡ some r
        → set_property hash init_string native_result name (at_count (k + 2) m)
          ≡ some (inr (assigned r.1))
    unfolding set_property set_on
    set_property_run r top run =
        rw (slot-under k, top, as_obj-obj_val p small, instance_at-obj_val m.heap p i small here)
          (rw (slot-over k, run, slot-under k) refl)

    get_property_run :
        (fields : Table) (fresh : Ptr)
        → IsValid hash fields
        → view fields.entries name ≡ some (m.calls.stack (k + 1))
        → get_property hash init_string native_result fresh name
            (put k (obj_val p) (assigned fields))
          ≡ some (inr (put k (m.calls.stack (k + 1)) (put k (obj_val p) (assigned fields))))
    unfolding get_property property_on
    get_property_run fields fresh valid bound =
        rw
          (
            callee_slot-top k,
            eq_self k,
            instance_at-obj_val (assigned fields).heap p (record i { fields = fields }) small
                (body_at-with_body m.heap p (instance_of i)
                  (instance_of (record i { fields = fields })) here),
            table_get-view hash fields name real valid,
            bound,
          )
          (rw (callee_slot-top k) refl)

    -- Where the value is on the stack over an instance at an address below 2^50, whose table of
    -- fields is valid and has less than 2^30 slots, and the name is not null, assigning to the
    -- property ends without error. It leaves the value in the instance's slot, as the top; reading
    -- the property of the instance then gives that value, and every other field and every other
    -- object is as before.
    pub set_property-Assigned :
        m.calls.stack k ≡ obj_val p
        → IsValid hash i.fields
        → i.fields.capacity < 2 ^ 30
        → (m' : Machine) × (set_property hash init_string native_result name (at_count (k + 2) m)
            ≡ some (inr m'))
          × Assigned k p i name m m'
    set_property-Assigned top valid few =
        let (r, run, sets) =
          table_set-Sets hash i.fields name real (m.calls.stack (k + 1)) valid few in
        (
          assigned r.1,
          set_property_run r top run,
          record {
            count = refl;
            result = rw (eq_self k) refl;
            fields = r.1;
            held =
                body_at-with_body m.heap p (instance_of i) (instance_of (record i { fields = r.1 }))
                  here;
            valid = sets.valid;
            kept = λ q other ne. ground (arith, sets.reads q other, ne);
            elsewhere = λ q ne.
                store-other m.heap p
                  (m.heap p >>= λ o.
                    some (record o { body = instance_of (record i { fields = r.1 }) }))
                  q (ground (arith, ne));
            reads = λ fresh.
                get_property_run r.1 fresh sets.valid (ground (arith, sets.reads name real));
          },
        )
