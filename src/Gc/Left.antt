-- ===== src/Gc/Left.antt =====
-- What is left of the object list, and the marks after the sweep.
use my_clox.Prelude.{
  Elem, ◌≤◌, ◌≡◌, refl, Bool, true, false, if◌then◌else◌, arith, List, [], ◌∷◌, Option, none, some,
  ◌∙◌, ap, sym, inl, inr, ◌⊎◌, length, Bool-cases, eq_cases, subst,
}
use my_clox.Value.{Ptr}
use my_clox.Object.{
  Body, bound_method, klass, closure, function, native, text, upvalue, instance_of, Obj, Heap,
}
use my_clox.Gc.{mark_of, is_marked_in}
use my_clox.Gc.Mark.{white}
use my_clox.Gc.Sweep.{Distinct, left_of, freed, swept, swept_black, swept_white}

pub Elem-cases : (q : Ptr) (xs : List Ptr) → Elem q xs ⊎ (Elem q xs → ⊥)
Elem-cases q [] = inr (λ e. e)
Elem-cases q (x ∷ xs) = elim (eq_cases q x) [
  | inl same ↦ inl (inl same)
  | inr other ↦ elim (Elem-cases q xs) [
    | inl later ↦ inl (inr later)
    | inr gone ↦ inr (λ e. elim e [ inl same ↦ other same | inr later ↦ gone later ])
  ]
]

pub Elem-left :
    (h : Heap) (q : Ptr) (xs : List Ptr)
    → Elem q (left_of h xs)
    → Elem q xs × (is_marked_in h q ≡ true)
unfolding left_of
Elem-left h q [] e = elim e [ ]
Elem-left h q (x ∷ xs) e = elim (Bool-cases (is_marked_in h x)) [
  | inl black ↦ elim (subst (λ b. Elem q (if b then x ∷ left_of h xs else left_of h xs)) black e) [
    | inl same ↦ (inl same, ap (is_marked_in h) same ∙ black)
    | inr later ↦ let (here, now) = Elem-left h q xs later in (inr here, now)
  ]
  | inr free ↦
      let (here, now) =
        Elem-left h q xs
          (subst (λ b. Elem q (if b then x ∷ left_of h xs else left_of h xs)) free e) in
      (inr here, now)
]

pub Elem-of_left :
    (h : Heap) (q : Ptr) (xs : List Ptr)
    → Elem q xs
    → is_marked_in h q ≡ true
    → Elem q (left_of h xs)
unfolding left_of
Elem-of_left h q [] e now = elim e [ ]
Elem-of_left h q (x ∷ xs) (inl same) now = rw (sym same) (rw now (inl refl))
Elem-of_left h q (x ∷ xs) (inr later) now = skip (is_marked_in h x) (Elem-of_left h q xs later now)
  where
    skip :
        (b : Bool) → Elem q (left_of h xs) → Elem q (if b then x ∷ left_of h xs else left_of h xs)
    skip true e = inr e
    skip false e = e

pub Distinct-left : (h : Heap) (xs : List Ptr) → Distinct xs → Distinct (left_of h xs)
unfolding left_of
Distinct-left h [] once = tt
Distinct-left h (x ∷ xs) (fresh, once) = keep (is_marked_in h x) (Distinct-left h xs once)
  where
    keep :
        (b : Bool)
        → Distinct (left_of h xs)
        → Distinct (if b then x ∷ left_of h xs else left_of h xs)
    keep true d = (λ e. fresh (Elem-left h x xs e).0, d)
    keep false d = d

pub white_le : (h : Heap) (xs : List Ptr) → white h xs ≤ length xs
unfolding white
white_le h [] = omega arith
white_le h (x ∷ xs) = ground (arith, white_le h xs)

freed-unmarked :
    (marked : Bool) (b : Body)
    → marked ≡ false
    → mark_of (freed (record { is_marked = marked; body = b })) ≡ false
unfolding freed
freed-unmarked marked (bound_method b) w = w
freed-unmarked marked (klass k) w = refl
freed-unmarked marked (closure c) w = refl
freed-unmarked marked (function f) w = refl
freed-unmarked marked (native n) w = refl
freed-unmarked marked (text s) w = refl
freed-unmarked marked (upvalue u) w = refl
freed-unmarked marked (instance_of i) w = refl

pub swept-unmarked : (o : Option Obj) → mark_of (swept o) ≡ false
unfolding swept
swept-unmarked none = refl
swept-unmarked (some o) = elim (Bool-cases o.is_marked) [
  | inl black ↦ ap mark_of (swept_black o black)
  | inr free ↦ ap mark_of (swept_white o free) ∙ freed-unmarked o.is_marked o.body free
]
