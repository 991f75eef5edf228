-- ===== src/Table/Grow.antt =====
-- `adjustCapacity` and the growth test of `tableSet`: every binding survives, tombstones do not.
use my_clox.Prelude.{
  ℕ, ◌+◌, ◌<◌, ◌≤◌, ◌≡◌, ◌≢◌, refl, arith, List, [], ◌∷◌, Option, none, some, set, inl, inr,
  eq_cases, sym, ◌∙◌,
}
use my_clox.Value.{Value, Ptr, null}
use my_clox.Table.{Entry, copy_entry, copy_entries}
use my_clox.Table.Slots.{count, used, live, view}
use my_clox.Table.Probe.{IsSize}
use my_clox.Table.Placed.{IsPlaced, find_entry-Found}
use my_clox.Table.Write.{bind-Written}

abbrev pub or_else : Option Value → Option Value → Option Value
or_else none o = o
or_else (some v) o = some v

module _ (hash : Ptr → ℕ) where
  -- The array and the count after the copying loop went from `before` through `rest`.
  pub record Copied (n : ℕ) (before rest : List Entry) (r : List Entry × ℕ) : Type 0 where
    pub placed : IsPlaced hash n r.0
    pub used_le : used r.0 ≤ r.1
    pub total : r.1 ≡ live r.0
    pub counted : live r.0 ≡ live before + live rest
    pub reads : (q : Ptr) → q ≢ null → view r.0 q ≡ or_else (view before q) (view rest q)

  module _ {n : ℕ} (s : IsSize n) where
    copy_one :
        (e : Entry) (fresh : List Entry)
        → e.key ≢ null
        → IsPlaced hash n fresh
        → used fresh ≤ live fresh
        → live fresh < n
        → view fresh e.key ≡ none
        → (r : List Entry × ℕ) × (copy_entry hash n e (fresh, live fresh) ≡ some r)
          × Copied n fresh (e ∷ []) r
    unfolding copy_entry live view
    copy_one e fresh real p u room gone =
        let (r, run, f) = find_entry-Found hash s p e.key real (omega arith) in
        let w = bind-Written hash p e.key real f e.value in
        let one : live (set fresh r e) ≡ live fresh + 1 = ground (arith, w.counted, gone) in
        (
          (set fresh r e, live fresh + 1),
          rw run (ground arith),
          record {
            placed = w.placed;
            used_le = omega (arith, w.used_le);
            total = sym one;
            counted = ground (arith, one);
            reads = λ q h. elim (eq_cases q e.key) [
              | inl same ↦ ground (arith, w.reads q h, gone)
              | inr other ↦ ground (arith, w.reads q h)
            ];
          },
        )

    copy_skip :
        (e : Entry) (state : List Entry × ℕ) → e.key ≡ null → copy_entry hash n e state ≡ some state
    unfolding copy_entry
    copy_skip e (fresh, c) dead = ground arith

    copy_next :
        (e : Entry) (rest : List Entry) (state r : List Entry × ℕ)
        → copy_entry hash n e state ≡ some r
        → r.1 ≡ live r.0
        → copy_entries hash n (e ∷ rest) state ≡ copy_entries hash n rest (r.0, live r.0)
    unfolding copy_entries
    copy_next e rest state (out, c) run total = rw (run, copy_entries) (rw total)

    pub copy_entries-Copied :
        (rest fresh : List Entry)
        → IsPlaced hash n fresh
        → used fresh ≤ live fresh
        → live fresh + live rest < n
        → ((q : Ptr) → q ≢ null → count q rest ≤ 1)
        → ((q : Ptr) → q ≢ null → 1 ≤ count q rest → view fresh q ≡ none)
        → (r : List Entry × ℕ) × (copy_entries hash n rest (fresh, live fresh) ≡ some r)
          × Copied n fresh rest r
    unfolding copy_entries live view count
    copy_entries-Copied [] fresh p u room once apart = (
      (fresh, live fresh),
      refl,
      record {
        placed = p;
        used_le = u;
        total = refl;
        counted = omega arith;
        reads = λ q h. ground arith;
      },
    )
    copy_entries-Copied (e ∷ rest) fresh p u room once apart = elim (eq_cases e.key null) [
      | inl dead ↦
          let (r, run, w) =
            copy_entries-Copied rest fresh p u (ground (arith, dead))
              (λ q h. ground (arith, once q h)) (λ q h k. apart q h (omega arith)) in
          (
            r,
            copy_next e rest (fresh, live fresh) (fresh, live fresh) (copy_skip e _ dead) refl
                ∙ run,
            record {
              placed = w.placed;
              used_le = w.used_le;
              total = w.total;
              counted = ground (arith, w.counted, dead);
              reads = λ q h. ground (arith, w.reads q h, dead);
            },
          )
      | inr real ↦
          let (one, first, t) =
            copy_one e fresh real p u (ground arith) (apart e.key real (ground arith)) in
          let (r, run, w) =
            copy_entries-Copied rest one.0 t.placed (omega (arith, t.used_le, t.total))
              (ground (arith, t.counted)) (λ q h. ground (arith, once q h))
              (λ q h k. ground (arith, t.reads q h, once q h, apart q h)) in
          (
            r,
            copy_next e rest (fresh, live fresh) one first t.total ∙ run,
            record {
              placed = w.placed;
              used_le = w.used_le;
              total = w.total;
              counted = ground (arith, w.counted, t.counted);
              reads = λ q h. ground (arith, w.reads q h, t.reads q h);
            },
          )
    ]
