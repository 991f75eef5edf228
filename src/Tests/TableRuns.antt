-- ===== src/Tests/TableRuns.antt =====
-- src/table.c on a table of a few keys. A key's hash is the key itself.
use my_clox.Prelude.{
  ℕ, ◌+◌, ◌≤◌, ◌≡◌, ◌≢◌, refl, Bool, arith, Option, none, some, ◌==◌, if◌then◌else◌, replicate, inr,
}
use my_clox.Value.{Ptr, null, nil_val, is_nil}
use my_clox.Table.{
  Table, entry, init_table, grow_capacity, is_loaded, next_index, find_loop, find_entry, copy_entry,
  copy_entries, adjust_capacity, make_room, count_after, write_entry, table_set, lookup_entry,
  table_get, table_delete, add_all, table_add_all, remove_white, table_remove_white,
}
use my_clox.Table.Slots.{view, used, live, is_empty}
use my_clox.Table.Grow.{or_else}
use my_clox.Table.Valid.{IsValid, init_table-IsValid}
use my_clox.Table.Placed.{replicate-IsPlaced}
use my_clox.Table.Methods.{Sets, table_set-Sets, table_get-view, Deletes, table_delete-Deletes}
use my_clox.Table.Bulk.{HasRoom, table_add_all-reads}
use my_clox.Table.Sweep.{table_remove_white-reads}
use my_clox.Table.Count.{table_set-count_two}

abbrev own : Ptr → ℕ
own key = key

program : Unit {0}
unfolding init_table is_loaded grow_capacity next_index find_loop find_entry copy_entry copy_entries
    adjust_capacity make_room count_after write_entry table_set lookup_entry table_get table_delete
    add_all table_add_all remove_white table_remove_white is_nil
program = tt

and_then : {A B : Type 0} → Option A → (A → Option B) → Option B
and_then none f = none
and_then (some a) f = f a

-- Keys 3 and 11 collide in eight slots; the tombstone of 3 does not hide 11.
collision :
    and_then (table_set own init_table 3 100) (λ a.
      and_then
        (table_set own a.1 11 200)
        (λ b. and_then (table_delete own b.1 3) (λ c. table_get own c.1 11)))
    ≡ some (some 200)
unfolding program and_then
collision = refl

init_table-IsValid-own : IsValid own init_table
init_table-IsValid-own = (init_table-IsValid own).0

real_of : (k : ℕ) → 1 ≤ k → k ≢ null
real_of k h e = omega arith

three : 3 ≢ null
three = real_of 3 (omega arith)

table_set-Sets_example :
    (r : Bool × Table) × (table_set own init_table 3 100 ≡ some r) × Sets own init_table 3 100 r
table_set-Sets_example =
    table_set-Sets own init_table 3 three 100 init_table-IsValid-own
      (unfold init_table in omega arith)

-- The table that binds 3 alone.
abbrev sample : Table
sample = table_set-Sets_example.0.1

sample-IsValid : IsValid own sample
sample-IsValid = table_set-Sets_example.2.valid

table_get-view_example : table_get own sample 3 ≡ some (view sample.entries 3)
table_get-view_example = table_get-view own sample 3 three sample-IsValid

table_delete-Deletes_example :
    (r : Bool × Table) × (table_delete own sample 3 ≡ some r) × Deletes own sample 3 three r
table_delete-Deletes_example = table_delete-Deletes own sample 3 three sample-IsValid

sample_room : HasRoom own sample.capacity init_table
sample_room =
    unfold init_table in
    record { few = omega (arith, table_set-Sets_example.2.capacity_le); small = omega arith }

table_add_all-reads_example :
    (to' : Table) × (table_add_all own sample init_table ≡ some to')
    × IsValid own to'
    × ((q : Ptr)
        → q ≢ null
        → view to'.entries q ≡ or_else (view sample.entries q) (view init_table.entries q))
table_add_all-reads_example =
    table_add_all-reads own sample init_table sample-IsValid init_table-IsValid-own sample_room

table_remove_white-reads_example :
    (t' : Table) × (table_remove_white own (λ q. q == 5) sample ≡ some t')
    × IsValid own t'
    × ((q : Ptr) → q ≢ null → view t'.entries q ≡ (if q == 5 then view sample.entries q else none))
table_remove_white-reads_example = table_remove_white-reads own (λ q. q == 5) sample sample-IsValid

-- Eight empty slots.
abbrev roomy : Table
roomy = record { count = 0; capacity = 8; entries = replicate 8 (entry null nil_val) }

roomy-IsValid : IsValid own roomy
unfolding used is_empty is_nil
roomy-IsValid = record {
  sized = inr (record { log = 3; log_le = omega arith; pow = refl }, omega arith);
  placed = replicate-IsPlaced own 8;
  counted = omega arith;
  load = omega arith;
  bare = λ e. absurd (omega arith);
}

table_set-count_two_example :
    (r : Bool × Table) × (table_set own roomy 3 100 ≡ some r)
    × (r.1.count ≡ roomy.count + 2)
    × (live r.1.entries ≡ live roomy.entries + 1)
table_set-count_two_example =
    table_set-count_two own roomy 3 three 100 roomy-IsValid (unfold is_loaded in refl)
      (unfold live used is_empty is_nil in refl) (unfold view in refl)
