-- ===== src/Table/Bulk.antt =====
-- `tableAddAll`: the loop over the slots of one table that sets into another.
use my_clox.Prelude.{
  ℕ, ◌+◌, ◌-◌, ◌*◌, ◌^◌, ◌<◌, ◌≤◌, ◌≡◌, ◌≢◌, refl, Bool, true, ◌==◌, arith, List, [], ◌∷◌, none,
  some, length, inl, inr, eq_cases, ◌∙◌,
}
use my_clox.Value.{Ptr, null}
use my_clox.Table.{Table, Entry, table_set, add_all, table_add_all}
use my_clox.Table.Slots.{count, view, IsUnique, view-eq-none}
use my_clox.Table.Grow.{or_else}
use my_clox.Table.Valid.{IsValid}
use my_clox.Table.Methods.{table_set-Sets}

tail_once : (e : Entry) (rest : List Entry) (q : Ptr) → count q (e ∷ rest) ≤ 1 → count q rest ≤ 1
unfolding count
tail_once e rest q h = omega arith

head_once :
    (e : Entry) (rest : List Entry) (q : Ptr)
    → count q (e ∷ rest) ≤ 1
    → (q == e.key) ≡ true
    → view rest q ≡ none
unfolding count
head_once e rest q h k = view-eq-none q rest (ground arith)

module _ (hash : Ptr → ℕ) where
  -- `m` more keys keep the capacity within an `int`: the array stays below 2 ^ 30 slots.
  pub record HasRoom (m : ℕ) (t : Table) : Type 0 where
    pub few : 8 * (t.count + 2 * m) ≤ 3 * (2 ^ 30 - 1)
    pub small : t.capacity < 2 ^ 30

  add_skip :
      (e : Entry) (rest : List Entry) (to : Table)
      → e.key ≡ null
      → add_all hash (e ∷ rest) to ≡ add_all hash rest to
  unfolding add_all
  add_skip e rest to dead = ground arith

  add_next :
      (e : Entry) (rest : List Entry) (to : Table) (r : Bool × Table)
      → e.key ≢ null
      → table_set hash to e.key e.value ≡ some r
      → add_all hash (e ∷ rest) to ≡ add_all hash rest r.1
  unfolding add_all
  add_next e rest to (is_new, to') real run = ground (arith, run)

  pub add_all-reads :
      (es : List Entry) (to : Table)
      → IsUnique es
      → IsValid hash to
      → HasRoom (length es) to
      → (to' : Table) × (add_all hash es to ≡ some to')
        × IsValid hash to'
        × ((q : Ptr) → q ≢ null → view to'.entries q ≡ or_else (view es q) (view to.entries q))
  unfolding add_all view
  add_all-reads [] to once v room = (to, refl, v, λ q h. refl)
  add_all-reads (e ∷ rest) to once v room = elim (eq_cases e.key null) [
    | inl dead ↦
        let (to', run, v', reads) =
          add_all-reads rest to (λ q h. tail_once e rest q (once q h)) v
            (record { few = omega (arith, room.few); small = room.small }) in
        (to', add_skip e rest to dead ∙ run, v', λ q h. ground (arith, reads q h, dead))
    | inr real ↦
        let (r, run, w) = table_set-Sets hash to e.key real e.value v room.small in
        let (to', rest_run, v', reads) =
          add_all-reads rest r.1 (λ q h. tail_once e rest q (once q h)) w.valid
            (record {
              few = omega (arith, room.few, w.count_le);
              small = omega (arith, w.capacity_le, room.few, room.small);
            }) in
        (
          to',
          add_next e rest to r real run ∙ rest_run,
          v',
          λ q h. ground (arith, reads q h, w.reads q h, head_once e rest q (once q h)),
        )
  ]

  -- With valid tables and room in `to`, adding all of `from` ends, keeps `to` valid, and gives
  -- `from`'s bindings, and `to`'s where `from` has none.
  pub table_add_all-reads :
      (from to : Table)
      → IsValid hash from
      → IsValid hash to
      → HasRoom from.capacity to
      → (to' : Table) × (table_add_all hash from to ≡ some to')
        × IsValid hash to'
        × ((q : Ptr)
            → q ≢ null
            → view to'.entries q ≡ or_else (view from.entries q) (view to.entries q))
  unfolding table_add_all
  table_add_all-reads from to vf vt room =
      add_all-reads from.entries to vf.placed.unique vt (rw vf.placed.width room)
