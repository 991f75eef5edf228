-- ===== src/Gc/Sweeping.antt =====
-- A sweep either ends, or its first free already starts a collection.
use my_clox.Prelude.{
  Elem, ℕ, ◌+◌, ◌≤◌, ◌<◌, ◌^◌, ◌≡◌, ◌≢◌, refl, true, false, arith, List, [], ◌∷◌, Option, some, ◌∙◌,
  ap, sym, inl, inr, ◌⊎◌, Bool-cases, subst,
}
use my_clox.Value.{Ptr}
use my_clox.Object.{Body, Obj, Heap, store}
use my_clox.Allocation.{Sizes, Counters, Outcome, collects, finished, and_then, blocks, free_blocks}
use my_clox.Allocation.Frees.{sum, less, free_blocks-cases}
use my_clox.Gc.{forget_object, free_object, sweep}
use my_clox.Gc.Mark.{body_at, body_of, store_self, store-ne, object-live}
use my_clox.Gc.Left.{Elem-left}
use my_clox.Gc.Sweep.{
  left_of, Distinct, swept, IsSweep, IsSweep-then, forget_object_self, forget_object-ne,
  swept_black, swept_white, size_of_body, total, total-agree,
}

-- The first block of the object is less than what exceeds `nextGC`.
abbrev pub Exceeds : Sizes → Body → Counters → Type 0
Exceeds sizes body c =
    (size : ℕ) × (rest : List ℕ) × (blocks sizes body ≡ size ∷ rest)
    × (c.next_gc + size < c.bytes_allocated)

-- The counters go down by the blocks of the objects that are not left.
pub record Counts (sizes : Sizes) (h : Heap) (objects left : List Ptr) (c c' : Counters)
    : Type 0 where
  pub bytes : c'.bytes_allocated + total sizes h objects ≡ c.bytes_allocated + total sizes h left
  pub threshold : c'.next_gc ≡ c.next_gc

module _ (sizes : Sizes) where
  abbrev pub Ends : List Ptr → Heap → Counters → Type 0
  Ends objects h c =
      (left : List Ptr) × (h' : Heap) × (c' : Counters) × (sweep sizes objects h c
        ≡ some (finished (left, h', c')))
      × IsSweep objects h left h'
      × Counts sizes h objects left c c'

  abbrev pub Reenters : List Ptr → Heap → Counters → Type 0
  Reenters objects h c =
      (sweep sizes objects h c ≡ some collects)
      × (q : Ptr) × (o : Obj) × Elem q objects
      × (h q ≡ some o)
      × (o.is_marked ≡ false)
      × Exceeds sizes o.body c

  module _ (x : Ptr) (xs : List Ptr) (h : Heap) (o : Obj) (c : Counters) (here : h x ≡ some o) where
    sweep_black :
        (r : Outcome (List Ptr × Heap × Counters))
        → o.is_marked ≡ true
        → sweep sizes xs (store h x (some (record o { is_marked = false }))) c ≡ some r
        → sweep sizes (x ∷ xs) h c
          ≡ some (and_then r (λ (left, h', c'). finished (x ∷ left, h', c')))
    unfolding sweep
    sweep_black r black run = ground (arith, here, black, run)

    sweep_white :
        (c' : Counters)
        → o.is_marked ≡ false
        → free_blocks (blocks sizes o.body) c ≡ finished c'
        → sweep sizes (x ∷ xs) h c ≡ sweep sizes xs (forget_object x o.body h) c'
    unfolding sweep free_object
    sweep_white c' white fits = ground (arith, here, white, fits)

    sweep_again :
        o.is_marked ≡ false
        → free_blocks (blocks sizes o.body) c ≡ collects
        → sweep sizes (x ∷ xs) h c ≡ some collects
    unfolding sweep free_object
    sweep_again white over = ground (arith, here, white, over)

    not_x : (Elem x xs → ⊥) → (q : Ptr) → Elem q xs → q ≢ x
    not_x fresh q e same = fresh (subst (λ z. Elem z xs) same e)

    module _ (h1 : Heap) (fresh : Elem x xs → ⊥) (elsewhere : (q : Ptr) → q ≢ x → h1 q ≡ h q) where
      tail_total : total sizes h1 xs ≡ total sizes h xs
      tail_total = total-agree sizes h h1 xs (λ q e. ap body_of (elsewhere q (not_x fresh q e)))

      left_total :
          (ys : List Ptr) (h' : Heap) → IsSweep xs h1 ys h' → total sizes h1 ys ≡ total sizes h ys
      left_total ys h' s = total-agree sizes h h1 ys (λ q e.
          ap body_of (elsewhere q (not_x fresh q (Elem-left h1 q xs (subst (Elem q) s.left e)).0)))

      later : (q : Ptr) (p : Obj) → Elem q xs → h1 q ≡ some p → h q ≡ some p
      later q p e at = sym (elsewhere q (not_x fresh q e)) ∙ at

    -- A survivor first.
    black_then :
        (Elem x xs → ⊥)
        → o.is_marked ≡ true
        → Ends xs (store h x (some (record o { is_marked = false }))) c
          ⊎ Reenters xs (store h x (some (record o { is_marked = false }))) c
        → Ends (x ∷ xs) h c ⊎ Reenters (x ∷ xs) h c
    unfolding total
    black_then fresh black (inl (ys, h', c', run, s, n)) = inl (
      x ∷ ys,
      h',
      c',
      sweep_black _ black run,
      IsSweep-then x xs h _ ys h' (x ∷ ys) fresh
          (store_self h x _ ∙ sym (ap swept here ∙ swept_black o black))
          (λ q other. store-ne h x q _ other) s (rw (here, black) refl),
      record {
        bytes = omega (
          arith,
          n.bytes,
          tail_total (store h x (some (record o { is_marked = false }))) fresh
              (λ q other. store-ne h x q (some (record o { is_marked = false })) other),
          left_total (store h x (some (record o { is_marked = false }))) fresh
              (λ q other. store-ne h x q (some (record o { is_marked = false })) other) ys h' s,
        );
        threshold = n.threshold;
      },
    )
    black_then fresh black (inr (run, q, p, e, at, white, over)) = inr (
      sweep_black _ black run,
      q,
      p,
      inr e,
      later (store h x (some (record o { is_marked = false }))) fresh
          (λ z other. store-ne h x z (some (record o { is_marked = false })) other) q p e at,
      white,
      over,
    )

    -- An object first whose blocks are freed.
    white_then :
        (Elem x xs → ⊥)
        → o.is_marked ≡ false
        → sum (blocks sizes o.body) ≤ c.bytes_allocated
        → free_blocks (blocks sizes o.body) c ≡ finished (less (sum (blocks sizes o.body)) c)
        → Ends xs (forget_object x o.body h) (less (sum (blocks sizes o.body)) c)
          ⊎ Reenters xs (forget_object x o.body h) (less (sum (blocks sizes o.body)) c)
        → Ends (x ∷ xs) h c ⊎ Reenters (x ∷ xs) h c
    unfolding total
    white_then fresh white le fits (inl (ys, h', c', run, s, n)) = inl (
      ys,
      h',
      c',
      sweep_white _ white fits ∙ run,
      IsSweep-then x xs h _ ys h' ys fresh
          (forget_object_self h x o.is_marked o.body here
            ∙ sym (ap swept here ∙ swept_white o white))
          (λ q other. forget_object-ne h x q o.body other) s (rw (here, white) refl),
      record {
        bytes = omega (
          arith,
          n.bytes,
          le,
          ap (λ (z : Option Obj). size_of_body sizes (body_of z)) here,
          tail_total (forget_object x o.body h) fresh
              (λ q other. forget_object-ne h x q o.body other),
          left_total (forget_object x o.body h) fresh
              (λ q other. forget_object-ne h x q o.body other) ys h' s,
        );
        threshold = n.threshold;
      },
    )
    white_then fresh white le fits (inr (run, q, p, e, at, unmarked, (size, rest, is, over))) =
        inr (
          sweep_white _ white fits ∙ run,
          q,
          p,
          inr e,
          later (forget_object x o.body h) fresh (λ q other. forget_object-ne h x q o.body other) q
              p e at,
          unmarked,
          (size, rest, is, omega (arith, over, le)),
        )

  -- On allocated objects, each listed once, whose blocks were counted, sweeping does not fail.
  pub sweep-cases :
      (objects : List Ptr) (h : Heap) (c : Counters)
      → Distinct objects
      → ((p : Ptr) → Elem p objects → (b : Body) × (body_at h p ≡ some b))
      → total sizes h objects ≤ c.bytes_allocated
      → c.bytes_allocated < 2 ^ 64
      → Ends objects h c ⊎ Reenters objects h c
  sweep-cases [] h c once alive counted lt = inl (
    [],
    h,
    c,
    (unfold sweep in refl),
    record {
      visited = λ q e. elim e [ ];
      others = λ q gone. refl;
      left = (unfold left_of in refl);
    },
    record { bytes = refl; threshold = refl },
  )
  sweep-cases (x ∷ xs) h c (fresh, once) alive counted lt =
      let (b, at) = alive x (inl refl) in
      let (o, here, own) = object-live h x b at in
      let first : total sizes h (x ∷ xs) ≡ sum (blocks sizes o.body) + total sizes h xs =
        unfold total in
        ap (λ (z : Option Obj). size_of_body sizes (body_of z) + total sizes h xs) here in
      elim (Bool-cases o.is_marked) [
        | inl black ↦ black_then x xs h o c here fresh black (
            sweep-cases xs _ c once
              (still x xs h _ fresh (λ q other. store-ne h x q _ other) (λ p e. alive p (inr e)))
              (omega (
                arith,
                counted,
                first,
                tail_total x xs h o c here _ fresh
                    (λ q other. store-ne h x q (some (record o { is_marked = false })) other),
              ))
              lt)
        | inr white ↦
            elim (free_blocks-cases (blocks sizes o.body) c (omega (arith, counted, first)) lt) [
              | inl fits ↦
                  white_then x xs h o c here fresh white (omega (arith, counted, first)) fits (
                    sweep-cases xs _ _ once
                      (still x xs h _ fresh (λ q other. forget_object-ne h x q o.body other)
                        (λ p e. alive p (inr e)))
                      (omega (
                        arith,
                        counted,
                        first,
                        tail_total x xs h o c here _ fresh
                            (λ q other. forget_object-ne h x q o.body other),
                      ))
                      (omega (arith, lt)))
              | inr (size, rest, is, again, over) ↦ inr (
                sweep_again x xs h o c here white again,
                x,
                o,
                inl refl,
                here,
                white,
                (size, rest, is, over),
              )
            ]
      ]
    where
      still :
          (x : Ptr) (xs : List Ptr) (h h1 : Heap)
          → (Elem x xs → ⊥)
          → ((q : Ptr) → q ≢ x → h1 q ≡ h q)
          → ((p : Ptr) → Elem p xs → (b : Body) × (body_at h p ≡ some b))
          → (p : Ptr) → Elem p xs
          → (b : Body) × (body_at h1 p ≡ some b)
      still x xs h h1 fresh same alive p e =
          let (b, at) = alive p e in
          (b, ap body_of (same p (λ is_x. fresh (subst (λ z. Elem z xs) is_x e))) ∙ at)
