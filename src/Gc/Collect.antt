-- ===== src/Gc/Collect.antt =====
-- `collectGarbage`: exactly the objects that the roots reach survive, unchanged.
use my_clox.Prelude.{
  Elem, Bool, true, false, ◌+◌, ◌*◌, ◌%◌, ◌^◌, ◌<◌, ◌≤◌, arith, inl, inr, ◌⊎◌, ap, ◌≡◌, ◌≢◌, refl,
  if◌then◌else◌, List, [], none, some, ◌∙◌, sym, length, subst,
}
use my_clox.Value.{Ptr, null}
use my_clox.Table.Slots.{view}
use my_clox.Table.Valid.{IsValid}
use my_clox.Table.Sweep.{table_remove_white-reads}
use my_clox.Table.{Table, table_remove_white}
use my_clox.Object.{Obj, Heap}
use my_clox.Gc.{
  Marking, Roots, mark_roots, trace_references, Memory, mark_of, is_marked_in, hash_in, sweep,
  collect_garbage, set_next_gc,
}
use my_clox.Gc.Refs.{root_refs}
use my_clox.Gc.Mark.{body_of, object-live}
use my_clox.Gc.Trace.{Reach, trace_references-IsTraced}
use my_clox.Gc.Sweep.{freed, swept, total, total-agree}
use my_clox.Gc.Sweeping.{Exceeds, sweep-cases}
use my_clox.Allocation.{Sizes, Counters, collects, finished}
use my_clox.Gc.Survive.{
  IsHeap, mark_roots-IsTracing, same_hash, survivor, listed_left, left_listed, not_marked, dead,
  again,
}

-- What a collection leaves: the reachable objects as they were, and the strings' bindings of those.
-- A bound method that is not reached leaves the list but is not freed (`freed`).
pub record IsCollected (sizes : Sizes) (roots : Roots) (memory memory' : Memory) : Type 0 where
  pub again : IsHeap roots memory'.heap memory'.objects
  pub survives :
      (q : Ptr)
      → Reach memory.heap (root_refs roots) q
      → (memory'.heap q ≡ memory.heap q) × Elem q memory'.objects
  pub listed :
      (q : Ptr)
      → Elem q memory'.objects
      → Reach memory.heap (root_refs roots) q × Elem q memory.objects
  pub dies :
      (q : Ptr) (o : Obj)
      → Elem q memory.objects
      → (Reach memory.heap (root_refs roots) q → ⊥)
      → memory.heap q ≡ some o
      → memory'.heap q ≡ freed o
  pub kept_strings :
      (q : Ptr)
      → Reach memory.heap (root_refs roots) q
      → q ≢ null
      → view memory'.strings.entries q ≡ view memory.strings.entries q
  pub dead_strings :
      (q : Ptr)
      → (Reach memory.heap (root_refs roots) q → ⊥)
      → q ≢ null
      → view memory'.strings.entries q ≡ none
  pub strings : IsValid (hash_in memory.heap) memory'.strings
  pub bytes :
      memory'.counters.bytes_allocated + total sizes memory.heap memory.objects
      ≡ memory.counters.bytes_allocated + total sizes memory.heap memory'.objects
  pub threshold : memory'.counters.next_gc ≡ memory'.counters.bytes_allocated * 2 % 2 ^ 64

abbrev IsTracedFrom : Roots → Memory → Marking → Table → Type 0
IsTracedFrom roots memory m' strings =
    (m : Marking) × (mark_roots roots (record { heap = memory.heap; gray = [] }) ≡ some m)
    × (trace_references (length memory.objects) m ≡ some m')
    × (table_remove_white (hash_in m'.heap) (is_marked_in m'.heap) memory.strings ≡ some strings)

module _ (sizes : Sizes) (roots : Roots) (memory : Memory) (m' : Marking) (strings : Table) where
  collect_ends :
      (left : List Ptr) (h' : Heap) (c' : Counters)
      → IsTracedFrom roots memory m' strings
      → sweep sizes memory.objects m'.heap memory.counters ≡ some (finished (left, h', c'))
      → collect_garbage sizes roots memory
        ≡ some (
            finished
              (record { heap = h'; objects = left; strings = strings; counters = set_next_gc c' }))
  unfolding collect_garbage
  collect_ends left h' c' (m, marked, traced, removed) swept =
      rw (marked, traced, removed, swept) refl

  collect_again :
      IsTracedFrom roots memory m' strings
      → sweep sizes memory.objects m'.heap memory.counters ≡ some collects
      → collect_garbage sizes roots memory ≡ some collects
  unfolding collect_garbage
  collect_again (m, marked, traced, removed) swept = rw (marked, traced, removed, swept) refl

-- An object that no root reaches, whose first block is less than what exceeds `nextGC`.
abbrev pub IsReentered : Sizes → Roots → Memory → Type 0
IsReentered sizes roots memory =
    (q : Ptr) × (o : Obj) × Elem q memory.objects
    × (Reach memory.heap (root_refs roots) q → ⊥)
    × (memory.heap q ≡ some o)
    × Exceeds sizes o.body memory.counters

-- On a heap whose objects are listed once and not marked, where every reference of an object or a
-- root is null or a listed object, with a valid string table, and where the counted bytes, fewer
-- than 2^64, are at least the blocks of the objects: a collection does not fail. Either it ends, or
-- its sweep starts another collection; that happens only where the bytes exceed `nextGC` by more
-- than the first block of an object that is not reached. Where it ends, it leaves such a heap. The
-- objects that the roots reach are as they were, and are those of the list; an object that is not
-- reached is freed, unless it is a bound method; the string table binds what it bound, less the
-- strings that are not reached; the bytes go down by the blocks of the objects that left the list,
-- and `nextGC` is twice what they are then, in 64 bits.
pub collect_garbage-IsCollected :
    (sizes : Sizes) (roots : Roots) (memory : Memory)
    → IsHeap roots memory.heap memory.objects
    → IsValid (hash_in memory.heap) memory.strings
    → total sizes memory.heap memory.objects ≤ memory.counters.bytes_allocated
    → memory.counters.bytes_allocated < 2 ^ 64
    → ((memory' : Memory) × (collect_garbage sizes roots memory ≡ some (finished memory'))
        × IsCollected sizes roots memory memory')
      ⊎ ((collect_garbage sizes roots memory ≡ some collects) × IsReentered sizes roots memory)
collect_garbage-IsCollected sizes roots memory w v counted lt =
    let h = memory.heap in
    let objects = memory.objects in
    let (m, marked, start, few) = mark_roots-IsTracing roots h objects w in
    let (m', run, t) =
      trace_references-IsTraced h (root_refs roots) objects w.closed (length objects) m start few in
    let hashes = same_hash roots h objects w m' t in
    let (strings, removing, valid, reads) =
      table_remove_white-reads (hash_in m'.heap) (is_marked_in m'.heap) memory.strings
        (subst (λ f. IsValid f memory.strings) (sym hashes) v) in
    let same = λ (ps : List Ptr). total-agree sizes h m'.heap ps (λ q e. t.bodies q) in
    let before : IsTracedFrom roots memory m' strings = (m, marked, run, removing) in
    elim (sweep-cases sizes objects m'.heap memory.counters w.once
      (λ p e. let (b, at) = w.closed.allocated p e in (b, t.bodies p ∙ at))
      (omega (arith, counted, same objects)) lt) [
        | inr (sweeping, q, o, e, at, white, over) ↦
            let (p, here, own) = object-live h q o.body (sym (t.bodies q) ∙ ap body_of at) in
            inr (
              collect_again sizes roots memory m' strings before sweeping,
              (
                q,
                p,
                e,
                (λ r. clash (sym (ap mark_of at ∙ white) ∙ t.complete q r)),
                here,
                subst (λ b. Exceeds sizes b memory.counters) (sym own) over,
              ),
            )
        | inl (ys, h', c', sweeping, s, n) ↦ inl (
          record { heap = h'; objects = ys; strings = strings; counters = set_next_gc c' },
          collect_ends sizes roots memory m' strings ys h' c' before sweeping,
          record {
            again = again roots h objects w m' t ys h' s;
            survives = λ q r. (
              survivor roots h objects w m' t ys h' s q r,
              listed_left roots h objects w m' t ys h' s q r,
            );
            listed = left_listed roots h objects w m' t ys h' s;
            dies = dead roots h objects w m' t ys h' s;
            kept_strings = λ q r real.
                reads q real
                ∙ (λ i. if t.complete q r i then view memory.strings.entries q else none);
            dead_strings = λ q gone real. reads q real ∙ (λ i.
                if not_marked roots h objects w m' t ys h' s q gone i
                then view memory.strings.entries q
                else none);
            strings = subst (λ f. IsValid f strings) hashes valid;
            bytes = omega (arith, n.bytes, same objects, same ys);
            threshold = refl;
          },
        )
      ]
  where
    clash : ◌≡◌ {A = Bool} false true → ⊥
    clash e = ground (arith, e)
