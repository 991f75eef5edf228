-- ===== src/Table.antt =====
-- src/table.h and src/table.c: the open-addressing hash table with linear probing and tombstones.
-- A key is the address of an interned `ObjString`, compared by address; `hash` reads `key->hash`.
-- The bounded loops are recursions on the entries; the two `while (true)` loops take fuel, and
-- are given one round for each slot. `none` is a loop that runs out or a read out of bounds.
pub mod Slots
pub mod Probe
pub mod Placed
pub mod Write
pub mod Grow
pub mod Valid
pub mod Methods
pub mod Bulk
pub mod Sweep
pub mod Count
use my_clox.Prelude.{
  ℕ, zero, suc, ◌+◌, ◌-◌, ◌*◌, ◌%◌, ◌^◌, Bool, true, false, not, ◌&&◌, ltb, ◌==◌, if◌then◌else◌,
  bit_and, List, [], ◌∷◌, Option, none, some, length, get_elem?, set, replicate,
}
use my_clox.Value.{Value, Ptr, null, nil_val, bool_val, is_nil}

pub record Entry : Type 0 where
  pub key : Ptr
  pub value : Value

pub record Table : Type 0 where
  pub count : ℕ
  pub capacity : ℕ
  pub entries : List Entry

abbrev pub entry : Ptr → Value → Entry
entry k v = record { key = k; value = v }

-- what `adjustCapacity` fills a new array with
abbrev pub blank : Entry
blank = entry null nil_val

unfoldable pub init_table : Table
init_table = record { count = 0; capacity = 0; entries = [] }

-- `FREE_ARRAY` gives the array back to the allocator; what stays is a new table.
unfoldable pub free_table : Table → Table
free_table table = init_table

-- `GROW_CAPACITY` of src/memory.h
unfoldable pub grow_capacity : ℕ → ℕ
grow_capacity capacity = if ltb capacity 8 then 8 else capacity * 2

-- `count + 1 > capacity * TABLE_MAX_LOAD`: the product with 0.75 is exact on an `int`.
unfoldable pub is_loaded : Table → Bool
is_loaded table = ltb (3 * table.capacity) (4 * (table.count + 1))

-- `capacity - 1` turned into a `uint32_t`
abbrev pub mask : ℕ → ℕ
mask capacity = (capacity + (2 ^ 32 - 1)) % 2 ^ 32

unfoldable pub next_index : ℕ → ℕ → ℕ
next_index capacity index = bit_and ((index + 1) % 2 ^ 32) (mask capacity)

-- `tombstone != NULL ? tombstone : entry`
abbrev pub or_tombstone : Option ℕ → ℕ → ℕ
or_tombstone none index = index
or_tombstone (some t) index = t

abbrev pub first_tombstone : Option ℕ → ℕ → Option ℕ
first_tombstone none index = some index
first_tombstone (some t) index = some t

-- An `Entry *` is an index into the array.
unfoldable pub find_loop : ℕ → List Entry → ℕ → Ptr → ℕ → Option ℕ → Option ℕ
find_loop zero entries capacity key index tombstone = none
find_loop (suc fuel) entries capacity key index tombstone =
    let next = find_loop fuel entries capacity key (next_index capacity index) in
    let after_tombstone = next (first_tombstone tombstone index) in
    let after_other = next tombstone in
    elim (get_elem? entries index) [
      | none ↦ none
      | some entry ↦
          if entry.key == null
          then (if is_nil entry.value then some (or_tombstone tombstone index) else after_tombstone)
          else if entry.key == key
          then some index
          else after_other
    ]

-- The two increments of `count`, for the entry that was found.
unfoldable pub count_after : Entry → ℕ → ℕ
count_after entry count =
    let is_new_key = entry.key == null in
    let count' = if is_new_key && is_nil entry.value then count + 1 else count in
    if is_new_key then count' + 1 else count'

-- The writes of `tableSet` at the entry that was found, and the result.
unfoldable pub write_entry : Table → ℕ → Entry → Ptr → Value → Bool × Table
write_entry table index found key value = (
  found.key == null,
  record table {
    count = count_after found table.count;
    entries = set table.entries index (entry key value);
  },
)

module _ (hash : Ptr → ℕ) where
  unfoldable pub find_entry : List Entry → ℕ → Ptr → Option ℕ
  find_entry entries capacity key =
      find_loop (length entries) entries capacity key (bit_and (hash key) (mask capacity)) none

  -- One round of the copying loop of `adjustCapacity`: the new array and the new count.
  unfoldable pub copy_entry : ℕ → Entry → List Entry × ℕ → Option (List Entry × ℕ)
  copy_entry capacity entry (fresh, count) =
      if entry.key == null
      then some (fresh, count)
      else elim (find_entry fresh capacity entry.key) [
        | none ↦ none
        | some dest ↦ some (set fresh dest entry, count + 1)
      ]

  unfoldable pub copy_entries : ℕ → List Entry → List Entry × ℕ → Option (List Entry × ℕ)
  copy_entries capacity [] state = some state
  copy_entries capacity (entry ∷ entries) state = elim (copy_entry capacity entry state) [
    | none ↦ none
    | some state' ↦ copy_entries capacity entries state'
  ]

  unfoldable pub adjust_capacity : Table → ℕ → Option Table
  adjust_capacity table capacity =
      elim (copy_entries capacity table.entries (replicate capacity blank, 0)) [
        | none ↦ none
        | some (fresh, count) ↦
            some (record { count = count; capacity = capacity; entries = fresh })
      ]

  -- The growth test at the head of `tableSet`.
  unfoldable pub make_room : Table → Option Table
  make_room table =
      if is_loaded table then adjust_capacity table (grow_capacity table.capacity) else some table

  unfoldable pub table_set : Table → Ptr → Value → Option (Bool × Table)
  table_set table key value = elim (make_room table) [
    | none ↦ none
    | some roomy ↦ elim (find_entry roomy.entries roomy.capacity key) [
      | none ↦ none
      | some index ↦ elim (get_elem? roomy.entries index) [
        | none ↦ none
        | some found ↦ some (write_entry roomy index found key value)
      ]
    ]
  ]

  -- The entry of a key, or `none` where `tableGet` and `tableDelete` return false.
  unfoldable pub lookup_entry : Table → Ptr → Option (Option (ℕ × Entry))
  lookup_entry table key =
      if table.count == 0 then some none else elim (find_entry table.entries table.capacity key) [
        | none ↦ none
        | some index ↦ elim (get_elem? table.entries index) [
          | none ↦ none
          | some found ↦ some (if found.key == null then none else some (index, found))
        ]
      ]

  -- The result is `*value` where the source returns true.
  unfoldable pub table_get : Table → Ptr → Option (Option Value)
  table_get table key = elim (lookup_entry table key) [
    | none ↦ none
    | some none ↦ some none
    | some (some (index, found)) ↦ some (some found.value)
  ]

  -- The tombstone is a null key with `BOOL_VAL(true)`.
  unfoldable pub table_delete : Table → Ptr → Option (Bool × Table)
  table_delete table key = elim (lookup_entry table key) [
    | none ↦ none
    | some none ↦ some (false, table)
    | some (some (index, found)) ↦
        some (true, record table { entries = set table.entries index (entry null (bool_val true)) })
  ]

  unfoldable pub add_all : List Entry → Table → Option Table
  add_all [] to = some to
  add_all (entry ∷ entries) to =
      let skip = add_all entries to in
      if entry.key == null then skip else elim (table_set to entry.key entry.value) [
        | none ↦ none
        | some (is_new_key, to') ↦ add_all entries to'
      ]

  unfoldable pub table_add_all : Table → Table → Option Table
  table_add_all from to = add_all from.entries to

  -- The loop reads `table->entries[i]` afresh in each round, after the deletions before it.
  unfoldable pub remove_white : (Ptr → Bool) → ℕ → ℕ → Table → Option Table
  remove_white is_marked zero i table = some table
  remove_white is_marked (suc rounds) i table =
      let skip = remove_white is_marked rounds (i + 1) table in
      elim (get_elem? table.entries i) [
        | none ↦ none
        | some entry ↦
            if not (entry.key == null) && not (is_marked entry.key)
            then elim (table_delete table entry.key) [
              | none ↦ none
              | some (found, table') ↦ remove_white is_marked rounds (i + 1) table'
            ]
            else skip
      ]

  -- `isMarked` is a bit of the object, read through `is_marked`.
  unfoldable pub table_remove_white : (Ptr → Bool) → Table → Option Table
  table_remove_white is_marked table = remove_white is_marked table.capacity 0 table
