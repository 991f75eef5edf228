-- ===== src/Tests/StringRuns.antt =====
-- src/object.c: the interning of a few strings.
use my_clox.Prelude.{◌≡◌, ◌≢◌, refl, arith, [], ◌∷◌, Option, some, none}
use my_clox.Value.{Ptr, null}
use my_clox.Table.{init_table}
use my_clox.Table.Slots.{view}
use my_clox.Table.Valid.{init_table-IsValid}
use my_clox.Strings.{
  ObjString, Strings, hash_loop, hash_string, hash_of, table_find_string, copy_string,
}
use my_clox.Strings.Find.{Finds, table_find_string-Finds}
use my_clox.Strings.Intern.{IsPool, Copies, copy_string-Copies}

-- FNV-1a of "a".
hash_of_a : hash_string (97 ∷ []) ≡ 3826002220
unfolding hash_string hash_loop
hash_of_a = refl

abbrev no_string : ObjString
no_string = record { length = 0; chars = []; hash = 0 }

abbrev empty : Strings
empty = record { object = λ p. no_string; table = init_table }

nothing_bound : (q : Ptr) → view init_table.entries q ≡ none
nothing_bound q = (init_table-IsValid (hash_of empty.object)).1 q

empty-IsPool : IsPool empty
empty-IsPool = record {
  valid = (init_table-IsValid (hash_of empty.object)).0;
  strings = λ q real bound. absurd (bound (nothing_bound q));
  distinct = λ p q (real, bound) _ _. absurd (bound (nothing_bound p));
}

five : 5 ≢ null
five e = omega arith

copy_string-Copies_example :
    (r : Ptr × Strings) × (copy_string empty 5 (97 ∷ []) ≡ some r) × Copies empty (97 ∷ []) r
copy_string-Copies_example =
    copy_string-Copies empty (97 ∷ []) 5 empty-IsPool (five, nothing_bound 5)
      (unfold init_table in omega arith)

abbrev pool : Strings
pool = copy_string-Copies_example.0.1

table_find_string-Finds_example :
    (o : Option Ptr) × (table_find_string pool.object pool.table (97 ∷ []) 1 (hash_string (97 ∷ []))
      ≡ some o)
    × Finds pool.object pool.table (97 ∷ []) o
table_find_string-Finds_example =
    table_find_string-Finds pool.object pool.table (97 ∷ []) copy_string-Copies_example.2.pool.valid
      copy_string-Copies_example.2.pool.strings
