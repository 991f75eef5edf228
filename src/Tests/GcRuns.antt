-- ===== src/Tests/GcRuns.antt =====
-- src/memory.c on a heap of three objects: a closure that is called, its function, and a bound
-- method that nothing refers to.
use my_clox.Prelude.{
  ℕ, ◌⊎◌, some_inj, Elem, only, ◌≡◌, ◌≢◌, refl, false, arith, Option, none, some, [], ◌∷◌, sym, ◌∙◌,
  ap, inl, inr, subst, ◌==◌, if◌then◌else◌, Bool, true,
}
use my_clox.Value.{Ptr, null, nil_val, is_obj}
use my_clox.Table.{init_table}
use my_clox.Table.Valid.{init_table-IsValid}
use my_clox.Chunk.{init_chunk}
use my_clox.Object.{Body, closure, function, bound_method, native, store, Obj, Heap}
use my_clox.Allocation.{Sizes, Counters, collects, finished, reallocate, blocks, free_blocks}
use my_clox.Gc.{Roots, Memory, mark_of, hash_in, forget_object, free_object, sweep, collect_garbage}
use my_clox.Gc.Sweep.{total}
use my_clox.Gc.Refs.{root_refs, refs, value_refs, values_refs, table_refs, entries_refs}
use my_clox.Gc.Mark.{body_at}
use my_clox.Gc.Survive.{IsHeap}
use my_clox.Gc.Collect.{IsCollected, IsReentered, collect_garbage-IsCollected}

abbrev closure_at_5 : Body
closure_at_5 = closure (record { function = 6; upvalues = [] })

abbrev function_at_6 : Body
function_at_6 = function (record { arity = 0; upvalue_count = 0; chunk = init_chunk; name = null })

abbrev method_at_7 : Body
method_at_7 = bound_method (record { receiver = nil_val; method = 5 })

abbrev plain : Body → Option Obj
plain b = some (record { is_marked = false; body = b })

abbrev pick : Bool → Bool → Bool → Option Obj
pick a b c =
    if a
    then plain closure_at_5
    else if b
    then plain function_at_6
    else if c
    then plain method_at_7
    else none

abbrev heap : Heap
heap p = pick (p == 5) (p == 6) (p == 7)

abbrev memory : Memory
memory = record {
  heap = heap;
  objects = 5 ∷ 6 ∷ 7 ∷ [];
  strings = init_table;
  counters = record { bytes_allocated = 1000; next_gc = 500 };
}

abbrev roots : Roots
roots = record {
  stack = [];
  closures = 5 ∷ [];
  open_upvalues = [];
  globals = init_table;
  compilers = [];
  init_string = null;
}

pick-unmarked : (a b c : Bool) → mark_of (pick a b c) ≡ false
pick-unmarked true b c = refl
pick-unmarked false true c = refl
pick-unmarked false false true = refl
pick-unmarked false false false = refl

refs_at :
    (p q : Ptr) (b c : Body)
    → body_at heap p ≡ some b
    → body_at heap p ≡ some c
    → Elem q (refs b)
    → Elem q (refs c)
refs_at p q b c at at' e = subst (λ z. Elem q (refs z)) (some_inj (sym at ∙ at')) e

closure-refs : refs closure_at_5 ≡ 6 ∷ []
unfolding refs
closure-refs = refl

function-refs : refs function_at_6 ≡ null ∷ []
unfolding refs values_refs
function-refs = refl

method-refs : refs method_at_7 ≡ 5 ∷ []
unfolding refs value_refs is_obj nil_val
method-refs = refl

roots-refs : root_refs roots ≡ 5 ∷ null ∷ []
unfolding root_refs values_refs table_refs entries_refs init_table
roots-refs = refl

differ : (p q : Ptr) → (p == q) ≡ false → p ≢ q
differ p q h e = ground arith

five_fresh : Elem {A = Ptr} 5 (6 ∷ 7 ∷ []) → ⊥
five_fresh (inl e) = differ 5 6 refl e
five_fresh (inr e) = differ 5 7 refl (only e)

memory-IsHeap : IsHeap roots heap (5 ∷ 6 ∷ 7 ∷ [])
memory-IsHeap = record {
  closed = record {
    allocated = λ p e. elim e [
      | inl same ↦ (closure_at_5, ap (body_at heap) same)
      | inr (inl same) ↦ (function_at_6, ap (body_at heap) same)
      | inr (inr (inl same)) ↦ (method_at_7, ap (body_at heap) same)
      | inr (inr (inr none_left)) ↦ elim none_left [ ]
    ];
    inside = λ p b e at q here real. elim e [
      | inl same ↦ inr (
          inl (
            only (
              subst (Elem q) closure-refs
                (refs_at p q b closure_at_5 at (ap (body_at heap) same) here))))
      | inr (inl same) ↦ absurd (
          real (
            only (
              subst (Elem q) function-refs
                (refs_at p q b function_at_6 at (ap (body_at heap) same) here))))
      | inr (inr (inl same)) ↦ inl (
          only (
            subst (Elem q) method-refs
              (refs_at p q b method_at_7 at (ap (body_at heap) same) here)))
      | inr (inr (inr none_left)) ↦ elim none_left [ ]
    ];
  };
  once = (five_fresh, (λ e. differ 6 7 refl (only e), (λ e. e, tt)));
  unmarked = λ q. pick-unmarked (q == 5) (q == 6) (q == 7);
  rooted = λ q e real. elim (subst (Elem q) roots-refs e) [
    | inl is_five ↦ inl is_five
    | inr (inl is_null) ↦ absurd (real is_null)
    | inr (inr none_left) ↦ elim none_left [ ]
  ];
}

-- As on a 64-bit machine.
abbrev sizes : Sizes
sizes = record {
  of_class = 56;
  of_closure = 40;
  of_instance = 48;
  of_function = 80;
  of_native = 32;
  of_string = 40;
  of_upvalue = 48;
}

program : Unit {0}
unfolding total blocks sweep free_object free_blocks reallocate forget_object
program = tt

counted : total sizes heap memory.objects ≡ 120
unfolding program
counted = refl

collect_garbage-IsCollected_example :
    ((memory' : Memory) × (collect_garbage sizes roots memory ≡ some (finished memory'))
      × IsCollected sizes roots memory memory')
    ⊎ ((collect_garbage sizes roots memory ≡ some collects) × IsReentered sizes roots memory)
collect_garbage-IsCollected_example =
    collect_garbage-IsCollected sizes roots memory memory-IsHeap
      (init_table-IsValid (hash_in heap)).0 (omega (arith, counted)) (omega arith)

-- A native function that is not reached, and counts over the threshold: its only block decides.
abbrev native_at_9 : Heap
native_at_9 p = if p == 9 then plain (native 0) else none

abbrev at_most : ℕ → Counters
at_most next = record { bytes_allocated = 1000; next_gc = next }

swept_once :
    sweep sizes (9 ∷ []) native_at_9 (at_most 968)
    ≡ some
        (finished ([], store native_at_9 9 none, record { bytes_allocated = 968; next_gc = 968 }))
unfolding program
swept_once = refl

swept_again : sweep sizes (9 ∷ []) native_at_9 (at_most 967) ≡ some collects
unfolding program
swept_again = refl
