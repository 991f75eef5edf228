-- ===== src/Gc/Trace.antt =====
-- Tracing: on a heap whose references are live, `traceReferences` ends with exactly the reachable
-- objects marked, and one round for each object is enough.
use my_clox.Prelude.{
  some_inj, Elem, ℕ, zero, suc, ◌+◌, ◌≤◌, ◌<◌, ◌≡◌, ◌≢◌, refl, true, arith, List, [], ◌∷◌, some,
  ◌∙◌, ap, sym, inl, inr, ◌⊎◌, length, eq_cases, subst,
}
use my_clox.Value.{Ptr, null}
use my_clox.Object.{Body, Heap}
use my_clox.Gc.{Marking, blacken_object, trace_references, is_marked_in}
use my_clox.Gc.Refs.{refs, blacken_body-refs}
use my_clox.Gc.Mark.{body_at, white, Grows, IsLive, object-live, mark_objects-Grows}

-- An object that the roots reach through references.
pub data Reach (heap : Heap) (roots : List Ptr) : Ptr → Type 0 where
  root : {p : Ptr} → Elem p roots → p ≢ null → Reach heap roots p
  via :
      {p q : Ptr} (b : Body)
      → Reach heap roots p
      → body_at heap p ≡ some b
      → Elem q (refs b)
      → q ≢ null
      → Reach heap roots q

-- Every object of the list is allocated, and refers to null or to objects of the list.
pub record IsClosed (heap : Heap) (objects : List Ptr) : Type 0 where
  pub allocated : (p : Ptr) → Elem p objects → (b : Body) × (body_at heap p ≡ some b)
  pub inside :
      (p : Ptr) (b : Body)
      → Elem p objects
      → body_at heap p ≡ some b
      → (q : Ptr) → Elem q (refs b)
      → q ≢ null
      → Elem q objects

List-cases : {A : Type 0} (xs : List A) → (xs ≡ []) ⊎ (x : A) × (ys : List A) × (xs ≡ x ∷ ys)
List-cases [] = inl refl
List-cases (x ∷ ys) = inr (x, ys, refl)

no_length : {A : Type 0} (xs : List A) → length xs ≡ 0 → xs ≡ []
no_length [] e = refl
no_length (x ∷ xs) e = absurd (omega (arith, e))

module _ (h : Heap) (roots objects : List Ptr) where
  -- What holds at the head of each round of tracing.
  pub record IsTracing (m : Marking) : Type 0 where
    pub bodies : (q : Ptr) → body_at m.heap q ≡ body_at h q
    pub sound : (q : Ptr) → is_marked_in m.heap q ≡ true → Reach h roots q × Elem q objects
    pub gray_marked : (q : Ptr) → Elem q m.gray → is_marked_in m.heap q ≡ true
    pub rooted : (q : Ptr) → Elem q roots → q ≢ null → is_marked_in m.heap q ≡ true
    pub black :
        (q : Ptr) (b : Body)
        → is_marked_in m.heap q ≡ true
        → body_at h q ≡ some b
        → Elem q m.gray ⊎ ((r : Ptr) → Elem r (refs b) → r ≢ null → is_marked_in m.heap r ≡ true)

  -- The marks are those of the reachable objects, and the objects are the same.
  pub record IsTraced (m : Marking) : Type 0 where
    pub bodies : (q : Ptr) → body_at m.heap q ≡ body_at h q
    pub sound : (q : Ptr) → is_marked_in m.heap q ≡ true → Reach h roots q
    pub complete : (q : Ptr) → Reach h roots q → is_marked_in m.heap q ≡ true

  traced : (m : Marking) → IsTracing m → m.gray ≡ [] → IsTraced m
  traced m t done = record {
    bodies = t.bodies;
    sound = λ q now. (t.sound q now).0;
    complete = reached;
  }
    where
      no_gray : (q : Ptr) → Elem q m.gray → ⊥
      no_gray q e = subst (Elem q) done e

      reached : (q : Ptr) → Reach h roots q → is_marked_in m.heap q ≡ true
      reached q (root here real) = t.rooted q here real
      reached q (via {p} b start at here real) = elim (t.black p b (reached p start) at) [
        | inl gray ↦ absurd (no_gray p gray)
        | inr children ↦ children q here real
      ]

  same_body : (p q : Ptr) (b c : Body) → q ≡ p → body_at h p ≡ some b → body_at h q ≡ some c → c ≡ b
  same_body p q b c same at q_at = some_inj (sym q_at ∙ ap (body_at h) same ∙ at)

  fewer :
      (m : Marking) (p : Ptr) (gray : List Ptr) (m' : Marking) (b : Body)
      → m.gray ≡ p ∷ gray
      → Grows (refs b) (record m { gray = gray }) m'
      → ((q : Ptr) → Elem q (refs b) → q ≢ null → Elem q objects)
      → white m'.heap objects + length m'.gray < white m.heap objects + length m.gray
  fewer m p gray m' b on_top g inside = omega (arith, ap length on_top, g.fewer objects inside)

  -- One round: the object taken off the gray stack turns black.
  blacken-IsTracing :
      IsClosed h objects
      → (m : Marking) (p : Ptr) (gray : List Ptr) → IsTracing m
      → m.gray ≡ p ∷ gray
      → (m' : Marking) × (blacken_object p (record m { gray = gray }) ≡ some m')
        × IsTracing m'
        × (white m'.heap objects + length m'.gray < white m.heap objects + length m.gray)
  unfolding blacken_object
  blacken-IsTracing closed m p gray t on_top =
      let p_gray : Elem p m.gray = subst (Elem p) (sym on_top) (inl refl) in
      let now = t.gray_marked p p_gray in
      let (reach, p_in) = t.sound p now in
      let (b, at) = closed.allocated p p_in in
      let (o, here, own) = object-live m.heap p b (t.bodies p ∙ at) in
      let live : (q : Ptr) → Elem q (refs b) → IsLive m.heap q = λ q e real.
        let (c, q_at) = closed.allocated q (closed.inside p b p_in at q e real) in
        (c, t.bodies q ∙ q_at) in
      let (m', run, g) = mark_objects-Grows (refs b) (record m { gray = gray }) live in
      (
        m',
        rw here (rw own (blacken_body-refs b (record m { gray = gray }) ∙ run)),
        record {
          bodies = λ q. g.bodies q ∙ t.bodies q;
          sound = λ q marked. elim (g.fresh q marked) [
            | inl old ↦ t.sound q old
            | inr (real, e, on_gray) ↦ (via b reach at e real, closed.inside p b p_in at q e real)
          ];
          gray_marked = λ q e. elim (g.gray_fresh q e) [
            | inl old ↦ g.kept q (t.gray_marked q (subst (Elem q) (sym on_top) (inr old)))
            | inr marked ↦ marked
          ];
          rooted = λ q e real. g.kept q (t.rooted q e real);
          black = λ q c marked q_at. elim (eq_cases q p) [
            | inl same ↦ inr (λ r e real.
                g.all r (subst (λ z. Elem r (refs z)) (same_body p q b c same at q_at) e) real)
            | inr other ↦ elim (g.fresh q marked) [
              | inl old ↦ elim (t.black q c old q_at) [
                | inl q_gray ↦ elim (subst (Elem q) on_top q_gray) [
                  | inl same ↦ absurd (other same)
                  | inr later ↦ inl (g.gray_kept q later)
                ]
                | inr children ↦ inr (λ r e real. g.kept r (children r e real))
              ]
              | inr (real, e, on_gray) ↦ inl on_gray
            ]
          ];
        },
        fewer m p gray m' b on_top g (closed.inside p b p_in at),
      )

  trace_done : (fuel : ℕ) (m : Marking) → m.gray ≡ [] → trace_references fuel m ≡ some m
  unfolding trace_references
  trace_done zero m done = rw done refl
  trace_done (suc fuel) m done = rw done refl

  trace_round :
      (fuel : ℕ) (m : Marking) (p : Ptr) (gray : List Ptr) (m' m'' : Marking)
      → m.gray ≡ p ∷ gray
      → blacken_object p (record m { gray = gray }) ≡ some m'
      → trace_references fuel m' ≡ some m''
      → trace_references (suc fuel) m ≡ some m''
  unfolding trace_references
  trace_round fuel m p gray m' m'' on_top run run' = rw (on_top, trace_references, run) run'

  -- Enough fuel for the white and the gray objects is enough for tracing.
  pub trace_references-IsTraced :
      IsClosed h objects
      → (fuel : ℕ) (m : Marking) → IsTracing m
      → white m.heap objects + length m.gray ≤ fuel
      → (m' : Marking) × (trace_references fuel m ≡ some m') × IsTraced m'
  trace_references-IsTraced closed zero m t enough =
      let done : m.gray ≡ [] = no_length m.gray (omega (arith, enough)) in
      (m, trace_done _ m done, traced m t done)
  trace_references-IsTraced closed (suc fuel) m t enough = elim (List-cases m.gray) [
    | inl done ↦ (m, trace_done _ m done, traced m t done)
    | inr (p, gray, on_top) ↦
        let (m', run, t', less) = blacken-IsTracing closed m p gray t on_top in
        let (m'', run', end) =
          trace_references-IsTraced closed fuel m' t' (omega (arith, less, enough)) in
        (m'', trace_round fuel m p gray m' m'' on_top run run', end)
  ]
