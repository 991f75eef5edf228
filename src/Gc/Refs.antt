-- ===== src/Gc/Refs.antt =====
-- The addresses that an object refers to: each marking function marks the addresses of one list.
use my_clox.Prelude.{
  ◌>>=◌, take, ◌≡◌, refl, if◌then◌else◌, List, [], ◌∷◌, ◌++◌, Option, none, some, ◌∙◌, sym,
  Bool-cases, inl, inr,
}
use my_clox.Value.{Value, Ptr, is_obj, as_obj}
use my_clox.Table.{Table, Entry}
use my_clox.Chunk.{ValueArray}
use my_clox.Object.{
  Body, bound_method, klass, closure, function, native, text, upvalue, instance_of,
}
use my_clox.Gc.{
  Marking, mark_object, mark_value, mark_values, mark_array, mark_objects, mark_entries, mark_table,
  blacken_body, Roots, mark_roots,
}

unfoldable pub value_refs : Value → List Ptr
value_refs value = if is_obj value then as_obj value ∷ [] else []

unfoldable pub values_refs : List Value → List Ptr
values_refs [] = []
values_refs (value ∷ values) = value_refs value ++ values_refs values

unfoldable pub entries_refs : List Entry → List Ptr
entries_refs [] = []
entries_refs (entry ∷ entries) = entry.key ∷ (value_refs entry.value ++ entries_refs entries)

unfoldable pub table_refs : Table → List Ptr
table_refs table = entries_refs table.entries

-- What an object refers to.
unfoldable pub refs : Body → List Ptr
refs (bound_method b) = value_refs b.receiver ++ b.method ∷ []
refs (klass k) = k.name ∷ table_refs k.methods
refs (closure c) = c.function ∷ c.upvalues
refs (function f) = f.name ∷ values_refs (take f.chunk.constants.count f.chunk.constants.values)
refs (instance_of i) = i.klass ∷ table_refs i.fields
refs (upvalue u) = value_refs u.closed
refs (native n) = []
refs (text s) = []

-- What the machine and the compiler refer to.
unfoldable pub root_refs : Roots → List Ptr
root_refs roots =
    values_refs roots.stack
    ++ (roots.closures
        ++ (roots.open_upvalues
            ++ (table_refs roots.globals ++ (roots.compilers ++ roots.init_string ∷ []))))

bind_assoc :
    {A B C : Type 0} (o : Option A) (f : A → Option B) (g : B → Option C)
    → (o >>= f >>= g) ≡ (o >>= λ a. f a >>= g)
bind_assoc none f g = refl
bind_assoc (some a) f g = refl

bind-some : {A : Type 0} (o : Option A) → (o >>= some) ≡ o
bind-some none = refl
bind-some (some a) = refl

mark_objects-append :
    (xs ys : List Ptr) (m : Marking)
    → mark_objects (xs ++ ys) m ≡ (mark_objects xs m >>= mark_objects ys)
unfolding mark_objects
mark_objects-append [] ys m = refl
mark_objects-append (x ∷ xs) ys m =
    (λ i. mark_object x m >>= λ m'. mark_objects-append xs ys m' i)
    ∙ sym (bind_assoc (mark_object x m) _ _)

mark_objects-one : (x : Ptr) (m : Marking) → mark_objects (x ∷ []) m ≡ mark_object x m
unfolding mark_objects
mark_objects-one x m = bind-some (mark_object x m)

mark_value-refs : (v : Value) (m : Marking) → mark_value v m ≡ mark_objects (value_refs v) m
unfolding mark_value value_refs
mark_value-refs v m = elim (Bool-cases (is_obj v)) [
  | inl o ↦ rw o (sym (mark_objects-one (as_obj v) m))
  | inr n ↦ rw n (unfold mark_objects in refl)
]

mark_values-refs :
    (vs : List Value) (m : Marking) → mark_values vs m ≡ mark_objects (values_refs vs) m
unfolding mark_values values_refs
mark_values-refs [] m = unfold mark_objects in refl
mark_values-refs (v ∷ vs) m = rw mark_objects-append (
    rw (mark_value-refs v m)
      (λ i. mark_objects (value_refs v) m >>= λ m'. mark_values-refs vs m' i))

-- Two marking functions in a row mark the two lists in a row.
then-refs :
    (f g : Marking → Option Marking) (xs ys : List Ptr)
    → ((m : Marking) → f m ≡ mark_objects xs m)
    → ((m : Marking) → g m ≡ mark_objects ys m)
    → (m : Marking) → (f m >>= g) ≡ mark_objects (xs ++ ys) m
then-refs f g xs ys hf hg m = (λ i. hf m i >>= λ m'. hg m' i) ∙ sym (mark_objects-append xs ys m)

object-refs : (x : Ptr) (m : Marking) → mark_object x m ≡ mark_objects (x ∷ []) m
object-refs x m = sym (mark_objects-one x m)

mark_entries-refs :
    (es : List Entry) (m : Marking) → mark_entries es m ≡ mark_objects (entries_refs es) m
unfolding mark_entries entries_refs
mark_entries-refs [] m = unfold mark_objects in refl
mark_entries-refs (e ∷ es) m =
    bind_assoc (mark_object e.key m) (mark_value e.value) (mark_entries es)
    ∙ then-refs (mark_object e.key) _ (e.key ∷ []) _ (object-refs e.key)
        (then-refs (mark_value e.value) (mark_entries es) _ _ (mark_value-refs e.value)
          (mark_entries-refs es))
        m

mark_table-refs : (t : Table) (m : Marking) → mark_table t m ≡ mark_objects (table_refs t) m
unfolding mark_table table_refs
mark_table-refs t m = mark_entries-refs t.entries m

mark_array-refs :
    (a : ValueArray) (m : Marking)
    → mark_array a m ≡ mark_objects (values_refs (take a.count a.values)) m
unfolding mark_array
mark_array-refs a m = mark_values-refs (take a.count a.values) m

-- `blackenObject` marks what the object refers to, in that order.
pub blacken_body-refs : (b : Body) (m : Marking) → blacken_body b m ≡ mark_objects (refs b) m
unfolding blacken_body refs
blacken_body-refs (bound_method b) m =
    then-refs (mark_value b.receiver) (mark_object b.method) _ (b.method ∷ [])
      (mark_value-refs b.receiver) (object-refs b.method) m
blacken_body-refs (klass k) m =
    then-refs (mark_object k.name) (mark_table k.methods) (k.name ∷ []) _ (object-refs k.name)
      (mark_table-refs k.methods) m
blacken_body-refs (closure c) m =
    then-refs (mark_object c.function) (mark_objects c.upvalues) (c.function ∷ []) _
      (object-refs c.function) (λ x. refl) m
blacken_body-refs (function f) m =
    then-refs (mark_object f.name) (mark_array f.chunk.constants) (f.name ∷ []) _
      (object-refs f.name) (mark_array-refs f.chunk.constants) m
blacken_body-refs (instance_of i) m =
    then-refs (mark_object i.klass) (mark_table i.fields) (i.klass ∷ []) _ (object-refs i.klass)
      (mark_table-refs i.fields) m
blacken_body-refs (upvalue u) m = mark_value-refs u.closed m
blacken_body-refs (native n) m = unfold mark_objects in refl
blacken_body-refs (text s) m = unfold mark_objects in refl

-- `markRoots` marks what the machine and the compiler refer to.
pub mark_roots-refs : (r : Roots) (m : Marking) → mark_roots r m ≡ mark_objects (root_refs r) m
unfolding mark_roots root_refs
mark_roots-refs r m =
    rw (bind_assoc, bind_assoc, bind_assoc, bind_assoc)
      (then-refs (mark_values r.stack) _ _ _ (mark_values-refs r.stack)
        (then-refs (mark_objects r.closures) _ _ _ (λ x. refl)
          (then-refs (mark_objects r.open_upvalues) _ _ _ (λ x. refl)
            (then-refs (mark_table r.globals) _ _ _ (mark_table-refs r.globals) (
              then-refs (mark_objects r.compilers) (mark_object r.init_string) _
                (r.init_string ∷ []) (λ x. refl) (object-refs r.init_string)))))
        m)
