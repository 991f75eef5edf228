-- ===== src/Gc.antt =====
-- src/memory.c: the mark and sweep collector. `none` is a read of an object that is not allocated,
-- or tracing that runs out of fuel; the fuel is one round for each object, and one to stop.
-- What a collection does after a free of its own sweep has called `collectGarbage` is not modelled.
pub mod Refs
pub mod Mark
pub mod Trace
pub mod Sweep
pub mod Sweeping
pub mod Left
pub mod Survive
pub mod Collect
use my_clox.Prelude.{
  ◌*◌, ◌%◌, ◌^◌, ◌>>=◌, take, ℕ, zero, suc, ◌+◌, Bool, true, false, ◌==◌, if◌then◌else◌, List, [],
  ◌∷◌, ◌++◌, Option, none, some, length,
}
use my_clox.Value.{Value, Ptr, null, is_obj, as_obj}
use my_clox.Table.{Table, Entry, table_remove_white}
use my_clox.Chunk.{ValueArray}
use my_clox.Object.{
  Body, bound_method, klass, closure, function, native, text, upvalue, instance_of, Obj, Heap,
  store,
}
use my_clox.Allocation.{Sizes, Counters, Outcome, collects, finished, and_then, blocks, free_blocks}

-- The part of the machine that marking reads and writes. `gray` is the gray stack, its top first.
pub record Marking : Type 0 where
  pub heap : Heap
  pub gray : List Ptr

unfoldable pub mark_object : Ptr → Marking → Option Marking
mark_object object m = if object == null then some m else elim (m.heap object) [
  | none ↦ none
  | some o ↦
      if o.is_marked
      then some m
      else some (record {
        heap = store m.heap object (some (record o { is_marked = true }));
        gray = object ∷ m.gray;
      })
]

unfoldable pub mark_value : Value → Marking → Option Marking
mark_value value m = if is_obj value then mark_object (as_obj value) m else some m

unfoldable pub mark_values : List Value → Marking → Option Marking
mark_values [] m = some m
mark_values (value ∷ values) m = mark_value value m >>= mark_values values

unfoldable pub mark_array : ValueArray → Marking → Option Marking
mark_array array m = mark_values (take array.count array.values) m

unfoldable pub mark_objects : List Ptr → Marking → Option Marking
mark_objects [] m = some m
mark_objects (object ∷ objects) m = mark_object object m >>= mark_objects objects

-- `markTable` of src/table.c
unfoldable pub mark_entries : List Entry → Marking → Option Marking
mark_entries [] m = some m
mark_entries (entry ∷ entries) m =
    mark_object entry.key m >>= mark_value entry.value >>= mark_entries entries

unfoldable pub mark_table : Table → Marking → Option Marking
mark_table table m = mark_entries table.entries m

unfoldable pub blacken_body : Body → Marking → Option Marking
blacken_body (bound_method b) m = mark_value b.receiver m >>= mark_object b.method
blacken_body (klass k) m = mark_object k.name m >>= mark_table k.methods
blacken_body (closure c) m = mark_object c.function m >>= mark_objects c.upvalues
blacken_body (function f) m = mark_object f.name m >>= mark_array f.chunk.constants
blacken_body (instance_of i) m = mark_object i.klass m >>= mark_table i.fields
blacken_body (upvalue u) m = mark_value u.closed m
blacken_body (native n) m = some m
blacken_body (text s) m = some m

unfoldable pub blacken_object : Ptr → Marking → Option Marking
blacken_object object m = elim (m.heap object) [ none ↦ none | some o ↦ blacken_body o.body m ]

unfoldable pub trace_references : ℕ → Marking → Option Marking
trace_references zero m = elim m.gray [ [] ↦ some m | object ∷ gray ↦ none ]
trace_references (suc fuel) m = elim m.gray [
  | [] ↦ some m
  | object ∷ gray ↦ elim (blacken_object object (record m { gray = gray })) [
    | none ↦ none
    | some m' ↦ trace_references fuel m'
  ]
]

-- What `markRoots` reads of the machine and of the compiler.
pub record Roots : Type 0 where
  pub stack : List Value
  pub closures : List Ptr
  pub open_upvalues : List Ptr
  pub globals : Table
  pub compilers : List Ptr
  pub init_string : Ptr

unfoldable pub mark_roots : Roots → Marking → Option Marking
mark_roots roots m =
    mark_values roots.stack m
    >>= mark_objects roots.closures
    >>= mark_objects roots.open_upvalues
    >>= mark_table roots.globals
    >>= mark_objects roots.compilers
    >>= mark_object roots.init_string

-- `freeObject` has no case for a bound method: that object stays allocated.
unfoldable pub forget_object : Ptr → Body → Heap → Heap
forget_object object (bound_method b) heap = heap
forget_object object _ heap = store heap object none

unfoldable pub free_object : Sizes → Ptr → Body → Heap → Counters → Outcome (Heap × Counters)
free_object sizes object body heap c =
    and_then (free_blocks (blocks sizes body) c)
      (λ c'. finished (forget_object object body heap, c'))

-- The list that is left of `vm.objects`, the heap and the counters; or `collects` where a free
-- calls `collectGarbage` again.
unfoldable pub sweep :
    Sizes → List Ptr → Heap → Counters → Option (Outcome (List Ptr × Heap × Counters))
sweep sizes [] heap c = some (finished ([], heap, c))
sweep sizes (object ∷ objects) heap c = elim (heap object) [
  | none ↦ none
  | some o ↦
      if o.is_marked
      then sweep sizes objects (store heap object (some (record o { is_marked = false }))) c
        >>= (λ r. some (and_then r (λ (left, heap', c'). finished (object ∷ left, heap', c'))))
      else elim (free_object sizes object o.body heap c) [
        | collects ↦ some collects
        | finished (heap', c') ↦ sweep sizes objects heap' c'
      ]
]

pub record Memory : Type 0 where
  pub heap : Heap
  pub objects : List Ptr
  pub strings : Table
  pub counters : Counters

abbrev pub mark_of : Option Obj → Bool
mark_of none = false
mark_of (some o) = o.is_marked

abbrev pub is_marked_in : Heap → Ptr → Bool
is_marked_in heap p = mark_of (heap p)

abbrev pub body_hash : Body → ℕ
body_hash (text s) = s.hash
body_hash b = 0

abbrev pub hash_of : Option Obj → ℕ
hash_of none = 0
hash_of (some o) = body_hash o.body

-- `key->hash`
abbrev pub hash_in : Heap → Ptr → ℕ
hash_in heap p = hash_of (heap p)

-- `vm.nextGC` is set when the sweep is over.
abbrev pub set_next_gc : Counters → Counters
set_next_gc c = record c { next_gc = c.bytes_allocated * 2 % 2 ^ 64 }

unfoldable pub collect_garbage : Sizes → Roots → Memory → Option (Outcome Memory)
collect_garbage sizes roots memory =
    mark_roots roots (record { heap = memory.heap; gray = [] })
    >>= trace_references (length memory.objects)
    >>= (λ m.
        table_remove_white (hash_in m.heap) (is_marked_in m.heap) memory.strings >>= (λ strings.
          sweep sizes memory.objects m.heap memory.counters >>= (λ r. some (
            and_then r (λ (objects, heap, c). finished (record {
              heap = heap;
              objects = objects;
              strings = strings;
              counters = set_next_gc c;
            }))))))
