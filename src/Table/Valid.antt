-- ===== src/Table/Valid.antt =====
-- The invariant of a table, and the growth step of `tableSet`.
use my_clox.Prelude.{
  ℕ, suc, ◌+◌, ◌*◌, ◌^◌, ◌/◌, ◌<◌, ◌≤◌, ◌≡◌, ◌≢◌, refl, true, false, arith, List, none, some,
  replicate, ◌⊎◌, inl, inr, Bool-cases, eq_cases, ap,
}
use Prim.Native.Nat.{max}
use native.Mathlib.Nat.{pow-succ'}
use my_clox.Value.{Ptr, null}
use my_clox.Table.{
  Table, Entry, blank, init_table, copy_entries, adjust_capacity, grow_capacity, is_loaded,
  make_room,
}
use my_clox.Table.Slots.{
  count, used, live, view, live-le-used, used-replicate, live-replicate, view-replicate,
}
use my_clox.Table.Probe.{IsSize}
use my_clox.Table.Placed.{IsPlaced, replicate-IsPlaced}
use my_clox.Table.Grow.{copy_entries-Copied}

-- No array yet, or 8 * 2 ^ k slots.
abbrev pub IsSized : ℕ → Type 0
IsSized n = (n ≡ 0) ⊎ (IsSize n × (8 ≤ n))

module _ (hash : Ptr → ℕ) where
  -- `count` is at least the number of slots in use, and at most three quarters of them are.
  pub record IsValid (t : Table) : Type 0 where
    pub sized : IsSized t.capacity
    pub placed : IsPlaced hash t.capacity t.entries
    pub counted : used t.entries ≤ t.count
    pub load : 4 * used t.entries ≤ 3 * t.capacity
    pub bare : t.capacity ≡ 0 → t.count ≡ 0

  -- A new table binds nothing and is valid.
  pub init_table-IsValid : IsValid init_table × ((q : Ptr) → view init_table.entries q ≡ none)
  unfolding init_table used view count
  init_table-IsValid = (
    record {
      sized = inl refl;
      placed = record {
        width = refl;
        reach = λ i lt real. elim lt [ ];
        unique = λ q h. omega arith;
      };
      counted = omega arith;
      load = omega arith;
      bare = λ e. refl;
    },
    λ q. refl,
  )

  double-IsSize : {n : ℕ} → IsSize n → n < 2 ^ 30 → IsSize (n * 2)
  double-IsSize s lt = record {
    log = suc s.log;
    log_le = below s.log s.log_le (rw s.pow at lt);
    pow = omega (arith, s.pow, pow-succ' 2 s.log);
  }
    where
      below : (k : ℕ) → k ≤ 30 → 2 ^ k < 2 ^ 30 → suc k ≤ 30
      below k le h = elim (eq_cases k 30) [
        | inl e ↦ absurd (omega (arith, ap (λ (t : ℕ). 2 ^ t) e))
        | inr ne ↦ omega arith
      ]

  eight-IsSize : IsSize 8
  eight-IsSize = record { log = 3; log_le = omega arith; pow = refl }

  -- The next capacity doubles the array, or makes the first one of eight slots.
  grown :
      (n : ℕ)
      → IsSized n
      → n < 2 ^ 30
      → IsSize (grow_capacity n)
        × (8 ≤ grow_capacity n)
        × (n * 2 ≤ grow_capacity n)
        × (grow_capacity n ≤ max 8 (n * 2))
  unfolding grow_capacity
  grown n (inl none_yet) lt = rw none_yet (eight-IsSize, omega arith, omega arith, omega arith)
  grown n (inr (s, big)) lt =
      let e : grow_capacity n ≡ n * 2 = ground arith in
      rw e (double-IsSize s lt, omega arith, omega arith, omega arith)

  -- The array after `adjustCapacity`: `count` is exact again, and every binding is kept.
  pub record Adjusted (t : Table) (capacity : ℕ) (t' : Table) : Type 0 where
    pub placed : IsPlaced hash capacity t'.entries
    pub width : t'.capacity ≡ capacity
    pub exact : t'.count ≡ live t'.entries
    pub used_le : used t'.entries ≤ t'.count
    pub counted : live t'.entries ≡ live t.entries
    pub reads : (q : Ptr) → q ≢ null → view t'.entries q ≡ view t.entries q

  adjusted : ℕ → List Entry × ℕ → Table
  adjusted capacity r = record { count = r.1; capacity = capacity; entries = r.0 }

  adjust_of_run :
      (t : Table) (capacity : ℕ) (r : List Entry × ℕ)
      → copy_entries hash capacity t.entries (replicate capacity blank, 0) ≡ some r
      → adjust_capacity hash t capacity ≡ some (adjusted capacity r)
  unfolding adjust_capacity adjusted
  adjust_of_run t capacity r run = rw (run, adjust_capacity)

  -- `adjustCapacity` ends for a capacity above the number of keys.
  pub adjust_capacity-Adjusted :
      (t : Table) (capacity : ℕ)
      → IsPlaced hash t.capacity t.entries
      → IsSize capacity
      → live t.entries < capacity
      → (t' : Table) × (adjust_capacity hash t capacity ≡ some t') × Adjusted t capacity t'
  unfolding adjusted
  adjust_capacity-Adjusted t capacity p s room =
      let fresh = replicate capacity blank in
      let (r, run, w) =
        copy_entries-Copied hash s t.entries fresh (replicate-IsPlaced hash capacity)
          (omega (arith, used-replicate capacity)) (omega (arith, live-replicate capacity)) p.unique
          (λ q h _. view-replicate q capacity h) in
      (
        adjusted capacity r,
        adjust_of_run t capacity r (rw live-replicate at run),
        record {
          placed = w.placed;
          width = refl;
          exact = w.total;
          used_le = w.used_le;
          counted = omega (arith, w.counted, live-replicate capacity);
          reads = λ q h. ground (arith, w.reads q h, view-replicate q capacity h);
        },
      )

  -- After the growth step one more key fits, and nothing that is bound has changed.
  pub record Roomy (t t' : Table) : Type 0 where
    pub valid : IsValid t'
    pub size : IsSize t'.capacity
    pub count_le : t'.count ≤ t.count
    pub capacity_le : t'.capacity ≤ max (max 8 t.capacity) (8 * (t.count + 1) / 3)
    pub spare : 4 * (t'.count + 1) ≤ 3 * t'.capacity
    pub counted : live t'.entries ≡ live t.entries
    pub reads : (q : Ptr) → q ≢ null → view t'.entries q ≡ view t.entries q

  grow-Roomy :
      (t : Table)
      → IsValid t
      → t.capacity < 2 ^ 30
      → 3 * t.capacity < 4 * (t.count + 1)
      → (t' : Table) × (adjust_capacity hash t (grow_capacity t.capacity) ≡ some t') × Roomy t t'
  grow-Roomy t v lt full =
      let (s, big, double, small) = grown t.capacity v.sized lt in
      let few = live-le-used t.entries in
      let (t', run, a) =
        adjust_capacity-Adjusted t (grow_capacity t.capacity) v.placed s (omega (arith, v.load)) in
      (
        t',
        run,
        record {
          valid = record {
            sized = rw a.width (inr (s, big));
            placed = rw a.width a.placed;
            counted = a.used_le;
            load = omega (arith, a.used_le, a.exact, a.counted, a.width, v.load);
            bare = λ e. absurd (omega (arith, a.width));
          };
          size = rw a.width s;
          count_le = omega (arith, a.exact, a.counted, v.counted);
          capacity_le = omega (arith, a.width);
          spare = omega (arith, a.exact, a.counted, a.width, v.load);
          counted = a.counted;
          reads = a.reads;
        },
      )

  pub spare_of : (t : Table) → is_loaded t ≡ false → 4 * (t.count + 1) ≤ 3 * t.capacity
  unfolding is_loaded
  spare_of t free = ground arith

  loaded_of : (t : Table) → is_loaded t ≡ true → 3 * t.capacity < 4 * (t.count + 1)
  unfolding is_loaded
  loaded_of t full = ground arith

  pub sized_of : (t : Table) → IsValid t → is_loaded t ≡ false → IsSize t.capacity
  sized_of t v free = elim v.sized [
    | inl none_yet ↦ absurd (omega (arith, spare_of t free))
    | inr (s, big) ↦ s
  ]

  -- The growth step of `tableSet` ends, and leaves room for one more key.
  pub make_room-Roomy :
      (t : Table)
      → IsValid t
      → t.capacity < 2 ^ 30
      → (t' : Table) × (make_room hash t ≡ some t') × Roomy t t'
  unfolding make_room
  make_room-Roomy t v lt = elim (Bool-cases (is_loaded t)) [
    | inl full ↦ rw full (grow-Roomy t v lt (loaded_of t full))
    | inr free ↦ (
      t,
      rw free,
      record {
        valid = v;
        size = sized_of t v free;
        count_le = omega arith;
        capacity_le = omega arith;
        spare = spare_of t free;
        counted = refl;
        reads = λ q h. refl;
      },
    )
  ]
