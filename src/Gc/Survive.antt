-- ===== src/Gc/Survive.antt =====
-- The objects of a heap that was traced and swept.
use my_clox.Prelude.{
  Elem, ℕ, ◌+◌, ◌≤◌, ◌≡◌, ◌≢◌, refl, Bool, true, false, arith, List, [], Option, none, some, ◌∙◌,
  ap, sym, inl, inr, length, Bool-cases, subst,
}
use mathlib.Core.Path.{fun_ext}
use my_clox.Value.{Ptr, null}
use my_clox.Object.{Body, Obj, Heap}
use my_clox.Gc.{Marking, Roots, mark_roots, mark_of, is_marked_in, body_hash, hash_of, hash_in}
use my_clox.Gc.Refs.{root_refs, mark_roots-refs}
use my_clox.Gc.Mark.{body_of, white, object-live, mark_objects-Grows}
use my_clox.Gc.Trace.{Reach, root, via, IsClosed, IsTracing, IsTraced}
use my_clox.Gc.Sweep.{Distinct, freed, swept, swept_black, swept_white, IsSweep}
use my_clox.Gc.Left.{Elem-cases, Elem-left, Elem-of_left, Distinct-left, white_le, swept-unmarked}

-- What a collection relies on: a list of allocated objects, each listed once and none marked, which
-- refer to null or to objects of the list, as the roots do.
pub record IsHeap (roots : Roots) (heap : Heap) (objects : List Ptr) : Type 0 where
  pub closed : IsClosed heap objects
  pub once : Distinct objects
  pub unmarked : (q : Ptr) → is_marked_in heap q ≡ false
  pub rooted : (q : Ptr) → Elem q (root_refs roots) → q ≢ null → Elem q objects

module _ (roots : Roots) (h : Heap) (objects : List Ptr) (w : IsHeap roots h objects) where
  pub Reach-Elem : (q : Ptr) → Reach h (root_refs roots) q → Elem q objects
  Reach-Elem q (root here real) = w.rooted q here real
  Reach-Elem q (via {p} b start at here real) =
      w.closed.inside p b (Reach-Elem p start) at q here real

  -- Marking the roots does not fail, and tracing can start.
  pub mark_roots-IsTracing :
      (m : Marking) × (mark_roots roots (record { heap = h; gray = [] }) ≡ some m)
      × IsTracing h (root_refs roots) objects m
      × (white m.heap objects + length m.gray ≤ length objects)
  mark_roots-IsTracing =
      let start : Marking = record { heap = h; gray = [] } in
      let (m, run, g) =
        mark_objects-Grows (root_refs roots) start
          (λ q e real. w.closed.allocated q (w.rooted q e real)) in
      (
        m,
        mark_roots-refs roots start ∙ run,
        record {
          bodies = g.bodies;
          sound = λ q now. elim (g.fresh q now) [
            | inl old ↦ absurd (both (w.unmarked q) old)
            | inr (real, here, gray) ↦ (root here real, w.rooted q here real)
          ];
          gray_marked = λ q e. elim (g.gray_fresh q e) [ inl old ↦ elim old [ ] | inr now ↦ now ];
          rooted = g.all;
          black = λ q b now at. elim (g.fresh q now) [
            | inl old ↦ absurd (both (w.unmarked q) old)
            | inr (real, here, gray) ↦ inl gray
          ];
        },
        omega (arith, g.fewer objects w.rooted, white_le h objects),
      )
    where
      both : {b : Bool} → b ≡ false → b ≡ true → ⊥
      both f t = ground (arith, f, t)

  module _ (m : Marking) (t : IsTraced h (root_refs roots) objects m) where
    -- The mark is all that tracing changes in an object.
    pub same_object :
        (q : Ptr) (o : Obj)
        → h q ≡ some o
        → (o' : Obj) × (m.heap q ≡ some o') × (o'.body ≡ o.body) × (o.is_marked ≡ false)
    same_object q o here =
        let (o', here', own) = object-live m.heap q o.body (t.bodies q ∙ ap body_of here) in
        (o', here', own, sym (ap mark_of here) ∙ w.unmarked q)

    pub same_hash : hash_in m.heap ≡ hash_in h
    same_hash = fun_ext (λ q. agree (m.heap q) (h q) (t.bodies q))
      where
        hash_body : Option Body → ℕ
        hash_body none = 0
        hash_body (some b) = body_hash b

        through : (o : Option Obj) → hash_of o ≡ hash_body (body_of o)
        through none = refl
        through (some o) = refl

        agree : (o o' : Option Obj) → body_of o ≡ body_of o' → hash_of o ≡ hash_of o'
        agree o o' e = through o ∙ ap hash_body e ∙ sym (through o')

    module _ (ys : List Ptr) (h' : Heap) (s : IsSweep objects m.heap ys h') where
      pub survivor : (q : Ptr) → Reach h (root_refs roots) q → h' q ≡ h q
      survivor q r =
          let e = Reach-Elem q r in
          let (b, at) = w.closed.allocated q e in
          let (o, here, _) = object-live h q b at in
          let (o', here', own, unmarked) = same_object q o here in
          let now : o'.is_marked ≡ true = sym (ap mark_of here') ∙ t.complete q r in
          s.visited q e
          ∙ (ap swept here'
              ∙ (swept_black o' now
                  ∙ ((λ i. some (record { is_marked = sym unmarked i; body = own i })) ∙ sym here)))

      pub listed_left : (q : Ptr) → Reach h (root_refs roots) q → Elem q ys
      listed_left q r =
          subst (Elem q) (sym s.left)
            (Elem-of_left m.heap q objects (Reach-Elem q r) (t.complete q r))

      pub left_listed : (q : Ptr) → Elem q ys → Reach h (root_refs roots) q × Elem q objects
      left_listed q e =
          let (here, now) = Elem-left m.heap q objects (subst (Elem q) s.left e) in
          (t.sound q now, here)

      pub not_marked : (q : Ptr) → (Reach h (root_refs roots) q → ⊥) → is_marked_in m.heap q ≡ false
      not_marked q gone = elim (Bool-cases (is_marked_in m.heap q)) [
        | inl now ↦ absurd (gone (t.sound q now))
        | inr free ↦ free
      ]

      pub dead :
          (q : Ptr) (o : Obj)
          → Elem q objects
          → (Reach h (root_refs roots) q → ⊥)
          → h q ≡ some o
          → h' q ≡ freed o
      dead q o e gone here =
          let (o', here', own, unmarked) = same_object q o here in
          let free : o'.is_marked ≡ false = sym (ap mark_of here') ∙ not_marked q gone in
          s.visited q e
          ∙ (ap swept here'
              ∙ (swept_white o' free
                  ∙ (λ i. freed (record { is_marked = (free ∙ sym unmarked) i; body = own i }))))

      unmarked_after : (q : Ptr) → is_marked_in h' q ≡ false
      unmarked_after q = elim (Elem-cases q objects) [
        | inl e ↦ ap mark_of (s.visited q e) ∙ swept-unmarked (m.heap q)
        | inr other ↦ ap mark_of (s.others q other) ∙ not_marked q (λ r. other (Reach-Elem q r))
      ]

      pub again : IsHeap roots h' ys
      again = record {
        closed = record {
          allocated = λ p e.
              let (r, here) = left_listed p e in
              let (b, at) = w.closed.allocated p here in (b, ap body_of (survivor p r) ∙ at);
          inside = λ p b e at q in_p real.
              let (r, here) = left_listed p e in
              listed_left q (via b r (sym (ap body_of (survivor p r)) ∙ at) in_p real);
        };
        once = subst Distinct (sym s.left) (Distinct-left m.heap objects w.once);
        unmarked = unmarked_after;
        rooted = λ q e real. listed_left q (root e real);
      }
