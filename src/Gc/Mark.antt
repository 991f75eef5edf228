-- ===== src/Gc/Mark.antt =====
-- What marking a list of addresses does to the marks, the gray stack and the white objects.
use my_clox.Prelude.{
  Elem, only, ℕ, ◌+◌, ◌≤◌, ◌<◌, ◌≡◌, ◌≢◌, refl, Bool, true, false, not, arith, List, [], ◌∷◌,
  Option, none, some, ◌∙◌, ap, sym, Bool-cases, inl, inr, ◌⊎◌, eq_cases, length, Option-cases,
}
use my_clox.Value.{Ptr, null}
use my_clox.Object.{Body, Obj, Heap, store}
use my_clox.Gc.{Marking, mark_object, mark_objects, mark_of, is_marked_in}

abbrev pub body_of : Option Obj → Option Body
body_of none = none
body_of (some o) = some o.body

abbrev pub body_at : Heap → Ptr → Option Body
body_at heap p = body_of (heap p)

abbrev pub to_nat : Bool → ℕ
to_nat true = 1
to_nat false = 0

-- How many of the objects are not marked.
unfoldable pub white : Heap → List Ptr → ℕ
white heap [] = 0
white heap (p ∷ ps) = to_nat (not (is_marked_in heap p)) + white heap ps

abbrev pub marked : Obj → Obj
marked o = record o { is_marked = true }

-- Marking the addresses `ps` took `m` to `m'`.
pub record Grows (ps : List Ptr) (m m' : Marking) : Type 0 where
  pub bodies : (q : Ptr) → body_at m'.heap q ≡ body_at m.heap q
  pub kept : (q : Ptr) → is_marked_in m.heap q ≡ true → is_marked_in m'.heap q ≡ true
  pub fresh :
      (q : Ptr)
      → is_marked_in m'.heap q ≡ true
      → (is_marked_in m.heap q ≡ true) ⊎ ((q ≢ null) × Elem q ps × Elem q m'.gray)
  pub all : (q : Ptr) → Elem q ps → q ≢ null → is_marked_in m'.heap q ≡ true
  pub gray_kept : (q : Ptr) → Elem q m.gray → Elem q m'.gray
  pub gray_fresh : (q : Ptr) → Elem q m'.gray → Elem q m.gray ⊎ (is_marked_in m'.heap q ≡ true)
  pub fewer :
      (objects : List Ptr)
      → ((q : Ptr) → Elem q ps → q ≢ null → Elem q objects)
      → white m'.heap objects + length m'.gray ≤ white m.heap objects + length m.gray

grow :
    (old new : Bool) {m n : ℕ}
    → (old ≡ true → new ≡ true)
    → m ≤ n
    → to_nat (not new) + m ≤ to_nat (not old) + n
grow old new keep le = ground (arith, keep)

grow_one :
    (old new : Bool) {m n : ℕ}
    → (old ≡ true → new ≡ true)
    → m < n
    → to_nat (not new) + m < to_nat (not old) + n
grow_one old new keep le = ground (arith, keep)

pub store_self : (h : Heap) (p : Ptr) (o : Option Obj) → store h p o p ≡ o
store_self h p o = ground arith

pub store-ne : (h : Heap) (p q : Ptr) (o : Option Obj) → q ≢ p → store h p o q ≡ h q
store-ne h p q o other = ground arith

module _ (h : Heap) (p : Ptr) (o : Obj) (here : h p ≡ some o) where
  body-store : (q : Ptr) → body_at (store h p (some (marked o))) q ≡ body_at h q
  body-store q = elim (eq_cases q p) [
    | inl same ↦ rw same (ap body_of (store_self h p (some (marked o))) ∙ ap body_of (sym here))
    | inr other ↦ ap body_of (store-ne h p q (some (marked o)) other)
  ]

  mark-store_self : is_marked_in (store h p (some (marked o))) p ≡ true
  mark-store_self = ap mark_of (store_self h p (some (marked o)))

  mark-store_ne :
      (q : Ptr) → q ≢ p → is_marked_in (store h p (some (marked o))) q ≡ is_marked_in h q
  mark-store_ne q other = ap mark_of (store-ne h p q (some (marked o)) other)

  mark-store_kept :
      (q : Ptr) → is_marked_in h q ≡ true → is_marked_in (store h p (some (marked o))) q ≡ true
  mark-store_kept q old = elim (eq_cases q p) [
    | inl same ↦ rw same mark-store_self
    | inr other ↦ mark-store_ne q other ∙ old
  ]

  mark-store_fresh :
      (q : Ptr)
      → is_marked_in (store h p (some (marked o))) q ≡ true
      → (q ≡ p) ⊎ (is_marked_in h q ≡ true)
  mark-store_fresh q now = elim (eq_cases q p) [
    | inl same ↦ inl same
    | inr other ↦ inr (sym (mark-store_ne q other) ∙ now)
  ]

  white-store_le :
      (objects : List Ptr) → white (store h p (some (marked o))) objects ≤ white h objects
  unfolding white
  white-store_le [] = omega arith
  white-store_le (x ∷ xs) =
      grow (is_marked_in h x) (is_marked_in (store h p (some (marked o))) x) (mark-store_kept x)
        (white-store_le xs)

  -- Marking an object of the list leaves one white object less.
  white-store :
      (objects : List Ptr)
      → o.is_marked ≡ false
      → Elem p objects
      → white (store h p (some (marked o))) objects < white h objects
  unfolding white
  white-store [] w e = elim e [ ]
  white-store (x ∷ xs) w (inl same) =
      let now = mark-store_self in
      let before : is_marked_in h p ≡ false = ap mark_of here ∙ w in
      rw (sym same) (rw (now, before) (omega (arith, white-store_le xs)))
  white-store (x ∷ xs) w (inr later) =
      grow_one (is_marked_in h x) (is_marked_in (store h p (some (marked o))) x) (mark-store_kept x)
        (white-store xs w later)

Grows-refl :
    (ps : List Ptr) (m : Marking)
    → ((q : Ptr) → Elem q ps → q ≢ null → is_marked_in m.heap q ≡ true)
    → Grows ps m m
Grows-refl ps m all = record {
  bodies = λ q. refl;
  kept = λ q h. h;
  fresh = λ q h. inl h;
  all = all;
  gray_kept = λ q h. h;
  gray_fresh = λ q h. inl h;
  fewer = λ objects h. omega arith;
}

-- An address that may be marked: null, or an allocated object.
abbrev pub IsLive : Heap → Ptr → Type 0
IsLive h p = p ≢ null → (b : Body) × (body_at h p ≡ some b)

pub object-live :
    (h : Heap) (p : Ptr) (b : Body)
    → body_at h p ≡ some b
    → (o : Obj) × (h p ≡ some o) × (o.body ≡ b)
object-live h p b e = elim (Option-cases (h p)) [
  | inl gone ↦ absurd (ground (arith, e, gone))
  | inr (o, here) ↦ (o, here, ground (arith, e, here))
]

pub mark_object-Grows :
    (p : Ptr) (m : Marking)
    → IsLive m.heap p
    → (m' : Marking) × (mark_object p m ≡ some m') × Grows (p ∷ []) m m'
unfolding mark_object
mark_object-Grows p m live = elim (eq_cases p null) [
  | inl is_null ↦
      (m, ground arith, Grows-refl (p ∷ []) m (λ q h real. absurd (real (only h ∙ is_null))))
  | inr real ↦
      let (b, alive) = live real in
      let (o, here, own) = object-live m.heap p b alive in
      elim (Bool-cases o.is_marked) [
        | inl old ↦ (
          m,
          ground (arith, here),
          Grows-refl (p ∷ []) m (λ q h q_real. rw (only h) (ap mark_of here ∙ old)),
        )
        | inr new ↦ (
          record { heap = store m.heap p (some (marked o)); gray = p ∷ m.gray },
          ground (arith, here),
          record {
            bodies = body-store m.heap p o here;
            kept = mark-store_kept m.heap p o here;
            fresh = λ q h. elim (mark-store_fresh m.heap p o here q h) [
              | inl same ↦ inr (rw same real, inl same, inl same)
              | inr old ↦ inl old
            ];
            all = λ q h q_real. rw (only h) (mark-store_self m.heap p o here);
            gray_kept = λ q h. inr h;
            gray_fresh = λ q h. elim h [
              | inl same ↦ inr (rw same (mark-store_self m.heap p o here))
              | inr later ↦ inl later
            ];
            fewer = λ objects h.
                omega (arith, white-store m.heap p o here objects new (h p (inl refl) real));
          },
        )
      ]
]

module _ (p : Ptr) (ps : List Ptr) (m m' m'' : Marking) where
  Grows-then : Grows (p ∷ []) m m' → Grows ps m' m'' → Grows (p ∷ ps) m m''
  Grows-then one rest = record {
    bodies = λ q. rest.bodies q ∙ one.bodies q;
    kept = λ q h. rest.kept q (one.kept q h);
    fresh = λ q h. elim (rest.fresh q h) [
      | inl earlier ↦ elim (one.fresh q earlier) [
        | inl old ↦ inl old
        | inr (real, here, on_gray) ↦ inr (real, inl (only here), rest.gray_kept q on_gray)
      ]
      | inr (real, here, on_gray) ↦ inr (real, inr here, on_gray)
    ];
    all = λ q h real. elim h [
      | inl same ↦ rest.kept q (one.all q (inl same) real)
      | inr later ↦ rest.all q later real
    ];
    gray_kept = λ q h. rest.gray_kept q (one.gray_kept q h);
    gray_fresh = λ q h. elim (rest.gray_fresh q h) [
      | inl earlier ↦ elim (one.gray_fresh q earlier) [
        | inl old ↦ inl old
        | inr now ↦ inr (rest.kept q now)
      ]
      | inr now ↦ inr now
    ];
    fewer = λ objects h. omega (
      arith,
      one.fewer objects (λ q e. h q (inl (only e))),
      rest.fewer objects (λ q e. h q (inr e)),
    );
  }

-- Marking a list of live addresses does not fail, and marks them.
pub mark_objects-Grows :
    (ps : List Ptr) (m : Marking)
    → ((q : Ptr) → Elem q ps → IsLive m.heap q)
    → (m' : Marking) × (mark_objects ps m ≡ some m') × Grows ps m m'
unfolding mark_objects
mark_objects-Grows [] m live = (m, refl, Grows-refl [] m (λ q h real. elim h [ ]))
mark_objects-Grows (p ∷ ps) m live =
    let (m', run, one) = mark_object-Grows p m (live p (inl refl)) in
    let (m'', run', rest) =
      mark_objects-Grows ps m'
        (λ q h real. let (b, alive) = live q (inr h) real in (b, one.bodies q ∙ alive)) in
    (m'', rw run run', Grows-then p ps m m' m'' one rest)
