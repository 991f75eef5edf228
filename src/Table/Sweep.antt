-- ===== src/Table/Sweep.antt =====
-- `tableRemoveWhite`: the loop over the slots that deletes every key whose string is not marked.
use my_clox.Prelude.{
  ℕ, zero, suc, ◌+◌, ◌<◌, ◌≤◌, ◌≡◌, ◌≢◌, refl, Bool, true, false, not, ◌&&◌, ◌==◌, if◌then◌else◌,
  arith, List, Option, none, some, length, inl, inr, Bool-cases, eq_cases, sym, ap, ◌∙◌,
  get_elem?-get_or,
}
use my_clox.Value.{Value, Ptr, null}
use my_clox.Table.{Table, Entry, blank, table_delete, remove_white, table_remove_white}
use my_clox.Table.Slots.{at, count, view, count-at, at-view, view-eq-none, count-eq-zero}
use my_clox.Table.Valid.{IsValid}
use my_clox.Table.Methods.{Deletes, table_delete-Deletes}

module _ (hash : Ptr → ℕ) where
  module _ (is_marked : Ptr → Bool) where
    -- The keys in the slots that the loop has passed are marked.
    abbrev IsSwept : ℕ → Table → Type 0
    IsSwept i t =
        (j : ℕ) → j < i → (at t.entries j).key ≢ null → is_marked (at t.entries j).key ≡ true

    white_skip :
        (rounds i : ℕ) (t : Table)
        → i < length t.entries
        → not ((at t.entries i).key == null) && not (is_marked (at t.entries i).key) ≡ false
        → remove_white hash is_marked (suc rounds) i t
          ≡ remove_white hash is_marked rounds (i + 1) t
    unfolding remove_white
    white_skip rounds i t lt h = ground (arith, get_elem?-get_or t.entries i blank lt)

    white_next :
        (rounds i : ℕ) (t : Table) (r : Bool × Table)
        → i < length t.entries
        → not ((at t.entries i).key == null) && not (is_marked (at t.entries i).key) ≡ true
        → table_delete hash t (at t.entries i).key ≡ some r
        → remove_white hash is_marked (suc rounds) i t
          ≡ remove_white hash is_marked rounds (i + 1) r.1
    unfolding remove_white
    white_next rounds i t (found, t') lt h run =
        ground (arith, get_elem?-get_or t.entries i blank lt, run)

    IsSwept-skip :
        (i : ℕ) (t : Table)
        → not ((at t.entries i).key == null) && not (is_marked (at t.entries i).key) ≡ false
        → IsSwept i t
        → IsSwept (i + 1) t
    IsSwept-skip i t h old j lt real = elim (eq_cases j i) [
      | inl same ↦ rw same (ground (arith, ap (λ (x : ℕ). (at t.entries x).key) same))
      | inr other ↦ old j (omega arith) real
    ]

    -- A key that a write unbound stands in no slot.
    gone :
        (es es' : List Entry) (q : Ptr) (j : ℕ)
        → j < length es'
        → q ≡ (at es' j).key
        → view es' q ≡ (if q == q then none else view es q)
        → ⊥
    gone es es' q j lt same h =
        omega (arith, count-at q es' j lt same, count-eq-zero q es' (ground (arith, h)))

    IsSwept-next :
        (i : ℕ) (t : Table) (real : (at t.entries i).key ≢ null) (r : Bool × Table)
        → IsValid hash t
        → i + 1 ≤ t.capacity
        → Deletes hash t (at t.entries i).key real r
        → IsSwept i t
        → IsSwept (i + 1) r.1
    IsSwept-next i t real r v lt d old j h alive =
        let kept = d.slots j alive in
        rw kept (elim (eq_cases j i) [
          | inl same ↦
              let key_eq : (at r.1.entries j).key ≡ (at t.entries i).key =
                kept ∙ ap (λ (x : ℕ). (at t.entries x).key) same in
              absurd (
                gone t.entries r.1.entries (at t.entries i).key j
                  (rw (d.valid.placed.width, d.kept.1) (omega arith)) (sym key_eq) (d.reads _ real))
          | inr other ↦ old j (omega arith) (rw kept at alive)
        ])

    swept_all :
        (t : Table)
        → IsValid hash t
        → ((j : ℕ)
            → j < t.capacity
            → (at t.entries j).key ≢ null
            → is_marked (at t.entries j).key ≡ true)
        → (q : Ptr) → q ≢ null
        → view t.entries q ≡ (if is_marked q then view t.entries q else none)
    swept_all t v all q real = elim (Bool-cases (is_marked q)) [
      | inl m ↦ rw m
      | inr white ↦ rw white (elim (eq_cases (count q t.entries) 0) [
        | inl none_here ↦ view-eq-none q t.entries none_here
        | inr here ↦
            let (j, lt, same) = at-view q t.entries (omega arith) in
            let marked = all j (rw v.placed.width at lt) (λ z. real (same ∙ z)) in
            cc (ap is_marked same)
      ])
    ]

    white_real : (k : Ptr) → not (k == null) && not (is_marked k) ≡ true → k ≢ null
    white_real k h = ground arith

    white_reads :
        (k q : Ptr) (o o' o'' : Option Value)
        → not (k == null) && not (is_marked k) ≡ true
        → o' ≡ (if q == k then none else o)
        → o'' ≡ (if is_marked q then o' else none)
        → o'' ≡ (if is_marked q then o else none)
    white_reads k q o o' o'' white h h' = elim (eq_cases q k) [
      | inl same ↦ ground (arith, ap is_marked same)
      | inr other ↦ ground arith
    ]

    remove_white-reads :
        (rounds i : ℕ) (t : Table)
        → IsValid hash t
        → i + rounds ≡ t.capacity
        → IsSwept i t
        → (t' : Table) × (remove_white hash is_marked rounds i t ≡ some t')
          × IsValid hash t'
          × ((q : Ptr)
              → q ≢ null
              → view t'.entries q ≡ (if is_marked q then view t.entries q else none))
    remove_white-reads zero i t v e swept =
        (t, unfold remove_white in refl, v, swept_all t v (λ j lt. swept j (omega arith)))
    remove_white-reads (suc rounds) i t v e swept =
        let lt : i < length t.entries = rw v.placed.width (omega arith) in
        elim (Bool-cases
          (not ((at t.entries i).key == null) && not (is_marked (at t.entries i).key))) [
            | inr keep ↦
                let (t', run, w, reads) =
                  remove_white-reads rounds (i + 1) t v (omega arith)
                    (IsSwept-skip i t keep swept) in
                (t', white_skip rounds i t lt keep ∙ run, w, reads)
            | inl white ↦
                let real = white_real (at t.entries i).key white in
                let (r, del, d) = table_delete-Deletes hash t (at t.entries i).key real v in
                let (t', run, w, reads) =
                  remove_white-reads rounds (i + 1) r.1 d.valid (omega (arith, d.kept))
                    (IsSwept-next i t real r v (omega arith) d swept) in
                (
                  t',
                  white_next rounds i t r lt white del ∙ run,
                  w,
                  λ q h. white_reads (at t.entries i).key q _ _ _ white (d.reads q h) (reads q h),
                )
          ]

    -- The sweep of a valid string table ends, keeps the table valid, and unbinds exactly the
    -- keys that are not marked.
    pub table_remove_white-reads :
        (t : Table)
        → IsValid hash t
        → (t' : Table) × (table_remove_white hash is_marked t ≡ some t')
          × IsValid hash t'
          × ((q : Ptr)
              → q ≢ null
              → view t'.entries q ≡ (if is_marked q then view t.entries q else none))
    unfolding table_remove_white
    table_remove_white-reads t v =
        remove_white-reads t.capacity 0 t v (omega arith) (λ j lt. elim lt [ ])
