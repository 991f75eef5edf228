-- ===== src/Table/Methods.antt =====
-- `tableSet`, `tableGet` and `tableDelete` end on every valid table, keep it valid, and act on what
-- it binds as a finite map does.
use my_clox.Prelude.{
  ℕ, ◌+◌, ◌*◌, ◌^◌, ◌/◌, ◌<◌, ◌≤◌, ◌≡◌, ◌≢◌, refl, Bool, true, false, not, ◌==◌, if◌then◌else◌,
  arith, List, Option, none, some, length, set, inl, inr, eq_cases, sym, ap, ◌∙◌, get_elem?-get_or,
}
use Prim.Native.Nat.{max}
use my_clox.Value.{Value, Ptr, null, true_val}
use my_clox.Table.{
  Table, Entry, entry, blank, find_entry, make_room, count_after, write_entry, table_set, table_get,
  table_delete, lookup_entry,
}
use my_clox.Table.Slots.{
  at, to_nat, is_empty, live, view, live-le-used, view-eq-none, count-le-live,
}
use my_clox.Table.Probe.{IsSize, IsSize-bounds}
use my_clox.Table.Placed.{Found, find_entry-Found, at-set_self, at-set_ne}
use my_clox.Table.Write.{is_some, bind-Written, bury-Cleared}
use my_clox.Table.Valid.{IsValid, make_room-Roomy, Roomy}

module _ (hash : Ptr → ℕ) where
  -- `tableSet` bound `key` to `value`: what it returned and the new table.
  pub record Sets (t : Table) (key : Ptr) (value : Value) (r : Bool × Table) : Type 0 where
    pub is_new : r.0 ≡ not (is_some (view t.entries key))
    pub valid : IsValid hash r.1
    pub count_le : r.1.count ≤ t.count + 2
    pub capacity_le : r.1.capacity ≤ max (max 8 t.capacity) (8 * (t.count + 1) / 3)
    pub counted : live r.1.entries + to_nat (is_some (view t.entries key)) ≡ live t.entries + 1
    pub reads :
        (q : Ptr)
        → q ≢ null
        → view r.1.entries q ≡ (if q == key then some value else view t.entries q)

  module _ (t : Table) (key : Ptr) (real : key ≢ null) where
    pub set_of_run :
        (value : Value) (roomy : Table) (index : ℕ)
        → make_room hash t ≡ some roomy
        → find_entry hash roomy.entries roomy.capacity key ≡ some index
        → index < length roomy.entries
        → table_set hash t key value
          ≡ some (write_entry roomy index (at roomy.entries index) key value)
    unfolding table_set
    set_of_run value roomy index room run lt =
        ground (arith, room, run, get_elem?-get_or roomy.entries index blank lt)

    write-Sets :
        (value : Value) (roomy : Table) (index : ℕ)
        → Roomy hash t roomy
        → Found hash roomy.capacity roomy.entries key index
        → Sets t key value (write_entry roomy index (at roomy.entries index) key value)
    unfolding write_entry count_after is_empty
    write-Sets value roomy index w f =
        let v = w.valid in
        let new = bind-Written hash v.placed key real f value in
        let sized = IsSize-bounds w.size in
        record {
          is_new = elim f.fits [
            | inl (same, b) ↦ ground (arith, w.reads key real, b, same)
            | inr (k, b) ↦ ground (arith, w.reads key real, b, k)
          ];
          valid = record {
            sized = v.sized;
            placed = new.placed;
            counted = ground (arith, new.used, v.counted);
            load = omega (arith, new.used_le, v.counted, w.spare);
            bare = λ e. absurd (omega arith);
          };
          count_le = ground (arith, w.count_le);
          capacity_le = w.capacity_le;
          counted = ground (arith, new.counted, w.counted, w.reads key real);
          reads = λ q h. ground (arith, new.reads q h, w.reads q h);
        }

    -- On a valid table of less than 2 ^ 30 slots, binding a key that is not null ends, reports
    -- whether the key is new, keeps the table valid, and changes that binding alone.
    pub table_set-Sets :
        (value : Value)
        → IsValid hash t
        → t.capacity < 2 ^ 30
        → (r : Bool × Table) × (table_set hash t key value ≡ some r) × Sets t key value r
    table_set-Sets value v lt =
        let (roomy, room, w) = make_room-Roomy hash t v lt in
        let (index, run, f) =
          find_entry-Found hash w.size w.valid.placed key real
            (omega (arith, w.spare, w.valid.counted)) in
        (
          write_entry roomy index (at roomy.entries index) key value,
          set_of_run value roomy index room run (rw w.valid.placed.width f.inside),
          write-Sets value roomy index w f,
        )

    pub IsSize-of : IsValid hash t → t.count ≢ 0 → IsSize t.capacity
    IsSize-of v h = elim v.sized [ inl none_yet ↦ absurd (h (v.bare none_yet)) | inr (s, big) ↦ s ]

    pub lookup_at_zero : IsValid hash t → t.count ≡ 0 → view t.entries key ≡ none
    lookup_at_zero v z =
        view-eq-none key t.entries
          (omega (arith, count-le-live key t.entries real, live-le-used t.entries, v.counted))

    -- What `lookup_entry` says of the key.
    abbrev LookedUp : Option (ℕ × Entry) → Type 0
    LookedUp none = view t.entries key ≡ none
    LookedUp (some (i, e)) =
        Found hash t.capacity t.entries key i
        × (e ≡ at t.entries i)
        × (e.key ≡ key)
        × (view t.entries key ≡ some e.value)

    lookup_entry-LookedUp :
        IsValid hash t → (o : Option (ℕ × Entry)) × (lookup_entry hash t key ≡ some o) × LookedUp o
    unfolding lookup_entry
    lookup_entry-LookedUp v = elim (eq_cases t.count 0) [
      | inl none_yet ↦ (none, ground arith, lookup_at_zero v none_yet)
      | inr some_key ↦
          let s = IsSize-of v some_key in
          let (i, run, f) =
            find_entry-Found hash s v.placed key real (omega (arith, v.load, IsSize-bounds s)) in
          let read = get_elem?-get_or t.entries i blank (rw v.placed.width f.inside) in
          elim f.fits [
            | inl (same, b) ↦
                (some (i, at t.entries i), ground (arith, run, read), (f, refl, same, b))
            | inr (k, b) ↦ (none, ground (arith, run, read), b)
          ]
    ]

    -- On a valid table and for a key that is not null, `tableGet` ends, and returns what the
    -- table binds the key to.
    pub table_get-view : IsValid hash t → table_get hash t key ≡ some (view t.entries key)
    unfolding table_get
    table_get-view v = read (lookup_entry-LookedUp v)
      where
        read :
            ((o : Option (ℕ × Entry)) × (lookup_entry hash t key ≡ some o) × LookedUp o)
            → table_get hash t key ≡ some (view t.entries key)
        read (none, run, b) = rw (run, table_get, b)
        read (some (i, e), run, (f, at_i, same, b)) = rw (run, table_get, b)

    buried :
        (es : List Entry) (i j : ℕ)
        → i < length es
        → (at (set es i (entry null true_val)) j).key ≢ null
        → (at (set es i (entry null true_val)) j).key ≡ (at es j).key
    buried es i j lt h = elim (eq_cases i j) [
      | inl same ↦ absurd (
          h (
            ap (λ (e : Entry). e.key)
              (ap (at (set es i (entry null true_val))) (sym same) ∙ at-set_self es i _ lt)))
      | inr other ↦ ap (λ (e : Entry). e.key) (at-set_ne es i j _ other)
    ]

    -- `tableDelete` of `key`: what it returned and the new table.
    pub record Deletes (r : Bool × Table) : Type 0 where
      pub found : r.0 ≡ is_some (view t.entries key)
      pub valid : IsValid hash r.1
      pub kept : (r.1.count ≡ t.count) × (r.1.capacity ≡ t.capacity)
      pub counted : live r.1.entries + to_nat (is_some (view t.entries key)) ≡ live t.entries
      pub reads :
          (q : Ptr) → q ≢ null → view r.1.entries q ≡ (if q == key then none else view t.entries q)
      pub slots :
          (j : ℕ) → (at r.1.entries j).key ≢ null → (at r.1.entries j).key ≡ (at t.entries j).key

    -- On a valid table, deleting a key that is not null ends, reports whether it was bound,
    -- keeps the table valid, and unbinds that key alone.
    pub table_delete-Deletes :
        IsValid hash t → (r : Bool × Table) × (table_delete hash t key ≡ some r) × Deletes r
    unfolding table_delete
    table_delete-Deletes v = clear (lookup_entry-LookedUp v)
      where
        clear :
            ((o : Option (ℕ × Entry)) × (lookup_entry hash t key ≡ some o) × LookedUp o)
            → (r : Bool × Table) × (table_delete hash t key ≡ some r) × Deletes r
        clear (none, run, b) = (
          (false, t),
          rw (run, table_delete),
          record {
            found = rw b;
            valid = v;
            kept = (refl, refl);
            counted = rw b (omega arith);
            reads = λ q h. ground (arith, b);
            slots = λ j h. refl;
          },
        )
        clear (some (i, e), run, (f, at_i, same, b)) =
            let w = bury-Cleared hash v.placed key real f (rw at_i at same) in
            (
              (true, record t { entries = set t.entries i (entry null true_val) }),
              rw (run, table_delete),
              record {
                found = rw b;
                valid = record {
                  sized = v.sized;
                  placed = w.placed;
                  counted = omega (arith, w.used, v.counted);
                  load = omega (arith, w.used, v.load);
                  bare = v.bare;
                };
                kept = (refl, refl);
                counted = rw b (w.counted);
                reads = w.reads;
                slots = λ j h. buried t.entries i j (rw v.placed.width f.inside) h;
              },
            )
