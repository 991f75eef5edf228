-- ===== src/Allocation.antt =====
-- src/memory.c: what `reallocate` counts, in the build without DEBUG_STRESS_GC, and the blocks that
-- `freeObject` gives it. `FREE_ARRAY` passes the number of elements for the size, as src/memory.h
-- does.
pub mod Frees
use my_clox.Prelude.{ℕ, ◌+◌, ◌-◌, ◌%◌, ◌^◌, ltb, if◌then◌else◌, List, [], ◌∷◌, length}
use my_clox.Object.{
  Body, bound_method, klass, closure, function, native, text, upvalue, instance_of,
}

-- `sizeof` of the structs.
pub record Sizes : Type 0 where
  pub of_class : ℕ
  pub of_closure : ℕ
  pub of_instance : ℕ
  pub of_function : ℕ
  pub of_native : ℕ
  pub of_string : ℕ
  pub of_upvalue : ℕ

-- The counters of `VM`.
pub record Counters : Type 0 where
  pub bytes_allocated : ℕ
  pub next_gc : ℕ

-- `collects` where the next step is a call of `collectGarbage`.
pub data Outcome (A : Type 0) : Type 0 where
  collects : Outcome A
  finished : A → Outcome A

abbrev pub and_then : {A B : Type 0} → Outcome A → (A → Outcome B) → Outcome B
and_then collects f = collects
and_then (finished a) f = f a

-- The count of `reallocate`, in `size_t`, and its test of `nextGC`.
unfoldable pub reallocate : ℕ → ℕ → Counters → Outcome Counters
reallocate old_size new_size c =
    let bytes = (c.bytes_allocated + new_size + (2 ^ 64 - old_size)) % 2 ^ 64 in
    if ltb c.next_gc bytes then collects else finished (record c { bytes_allocated = bytes })

-- The sizes that `freeObject` passes to `reallocate`, in order; none for a bound method.
unfoldable pub blocks : Sizes → Body → List ℕ
blocks sizes (bound_method b) = []
blocks sizes (klass c) = c.methods.capacity ∷ sizes.of_class ∷ []
blocks sizes (closure c) = length c.upvalues ∷ sizes.of_closure ∷ []
blocks sizes (instance_of i) = i.fields.capacity ∷ sizes.of_instance ∷ []
blocks sizes (function f) =
    f.chunk.capacity ∷ f.chunk.capacity ∷ f.chunk.constants.capacity ∷ sizes.of_function ∷ []
blocks sizes (native n) = sizes.of_native ∷ []
blocks sizes (text s) = (s.length + 1) ∷ sizes.of_string ∷ []
blocks sizes (upvalue u) = sizes.of_upvalue ∷ []

unfoldable pub free_blocks : List ℕ → Counters → Outcome Counters
free_blocks [] c = finished c
free_blocks (size ∷ sizes) c = and_then (reallocate size 0 c) (free_blocks sizes)
