-- ===== src/Table/Count.antt =====
-- The count that `tableSet` keeps: the two increments for a key in a slot that was never used.
use my_clox.Prelude.{
  ℕ, zero, suc, ◌+◌, ◌<◌, ◌≡◌, ◌≢◌, Bool, true, false, arith, List, [], ◌∷◌, none, some, length,
  inl, inr,
}
use my_clox.Value.{Ptr, Value, null}
use my_clox.Table.{Table, Entry, entry, is_loaded, make_room, write_entry, count_after, table_set}
use my_clox.Table.Slots.{at, is_empty, used, live, view, live-le-used, live-set}
use my_clox.Table.Placed.{find_entry-Found}
use my_clox.Table.Valid.{IsValid, sized_of, spare_of}
use my_clox.Table.Methods.{set_of_run}

-- Where no slot is a tombstone, a slot with no key was never used.
no_tombstone :
    (es : List Entry) (i : ℕ)
    → i < length es
    → live es ≡ used es
    → (at es i).key ≡ null
    → is_empty (at es i) ≡ true
unfolding live used is_empty
no_tombstone [] i lt h k = absurd (omega arith)
no_tombstone (e ∷ es) zero lt h k = ground (arith, live-le-used es)
no_tombstone (e ∷ es) (suc i) lt h k =
    no_tombstone es i (omega arith) (ground (arith, live-le-used es)) k

count_after_two : (e : Entry) (n : ℕ) → is_empty e ≡ true → count_after e n ≡ n + 2
unfolding count_after is_empty
count_after_two e n h = ground arith

module _ (hash : Ptr → ℕ) (t : Table) (key : Ptr) (real : key ≢ null) (value : Value) where
  stays : is_loaded t ≡ false → make_room hash t ≡ some t
  unfolding make_room
  stays free = rw free

  -- Binding a new key in a valid table that has no tombstone and does not grow adds two to
  -- `count`, while the number of keys in the table goes up by one.
  pub table_set-count_two :
      IsValid hash t
      → is_loaded t ≡ false
      → live t.entries ≡ used t.entries
      → view t.entries key ≡ none
      → (r : Bool × Table) × (table_set hash t key value ≡ some r)
        × (r.1.count ≡ t.count + 2)
        × (live r.1.entries ≡ live t.entries + 1)
  unfolding write_entry
  table_set-count_two v free clean absent =
      let (index, run, f) =
        find_entry-Found hash (sized_of hash t v free) v.placed key real
          (omega (arith, spare_of hash t free, v.counted)) in
      let lt : index < length t.entries = rw v.placed.width f.inside in
      let fresh : (at t.entries index).key ≡ null = elim f.fits [
        | inl (same, bound) ↦ cc
        | inr (k, unbound) ↦ k
      ] in
      (
        write_entry t index (at t.entries index) key value,
        set_of_run hash t key real value t index (stays free) run lt,
        count_after_two (at t.entries index) t.count (no_tombstone t.entries index lt clean fresh),
        ground (arith, live-set t.entries index (entry key value) lt, fresh),
      )
