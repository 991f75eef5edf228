-- ===== src/Gc/Sweep.antt =====
-- What `sweep` leaves of the object list and of the heap.
use my_clox.Prelude.{
  ℕ, ◌+◌, Elem, ◌≡◌, ◌≢◌, refl, Bool, true, false, if◌then◌else◌, List, [], ◌∷◌, Option, none, some,
  ◌∙◌, ap, inl, inr, eq_cases, subst,
}
use my_clox.Value.{Ptr}
use my_clox.Object.{
  Body, bound_method, klass, closure, function, native, text, upvalue, instance_of, Obj, Heap,
}
use my_clox.Allocation.{Sizes, blocks}
use my_clox.Allocation.Frees.{sum}
use my_clox.Gc.{mark_of, is_marked_in, forget_object}
use my_clox.Gc.Mark.{body_at, store_self, store-ne}

-- Every address stands in the list at most once.
abbrev pub Distinct : List Ptr → Type 0
Distinct [] = Unit {0}
Distinct (x ∷ xs) = (Elem x xs → ⊥) × Distinct xs

unfoldable pub left_of : Heap → List Ptr → List Ptr
left_of h [] = []
left_of h (x ∷ xs) = if is_marked_in h x then x ∷ left_of h xs else left_of h xs

-- What is left where an object that is not marked was.
unfoldable pub freed : Obj → Option Obj
freed o = elim o.body [
  | bound_method b ↦ some o
  | klass k ↦ none
  | closure c ↦ none
  | function f ↦ none
  | native n ↦ none
  | text s ↦ none
  | upvalue u ↦ none
  | instance_of i ↦ none
]

-- What the sweep makes of an object.
unfoldable pub swept : Option Obj → Option Obj
swept none = none
swept (some o) = if o.is_marked then some (record o { is_marked = false }) else freed o

pub record IsSweep (objects : List Ptr) (h : Heap) (objects' : List Ptr) (h' : Heap) : Type 0 where
  pub visited : (q : Ptr) → Elem q objects → h' q ≡ swept (h q)
  pub others : (q : Ptr) → (Elem q objects → ⊥) → h' q ≡ h q
  pub left : objects' ≡ left_of h objects

left_of-agree :
    (h h' : Heap) (xs : List Ptr)
    → ((q : Ptr) → Elem q xs → h' q ≡ h q)
    → left_of h' xs ≡ left_of h xs
unfolding left_of
left_of-agree h h' [] same = refl
left_of-agree h h' (x ∷ xs) same =
    let tail = left_of-agree h h' xs (λ q e. same q (inr e)) in
    let head : is_marked_in h' x ≡ is_marked_in h x = ap mark_of (same x (inl refl)) in
    λ i. if head i then x ∷ tail i else tail i

pub forget_object_self :
    (h : Heap) (x : Ptr) (marked : Bool) (b : Body)
    → h x ≡ some (record { is_marked = marked; body = b })
    → forget_object x b h x ≡ freed (record { is_marked = marked; body = b })
unfolding forget_object freed
forget_object_self h x marked (bound_method b) here = here
forget_object_self h x marked (klass k) here = store_self h x none
forget_object_self h x marked (closure c) here = store_self h x none
forget_object_self h x marked (function f) here = store_self h x none
forget_object_self h x marked (native n) here = store_self h x none
forget_object_self h x marked (text s) here = store_self h x none
forget_object_self h x marked (upvalue u) here = store_self h x none
forget_object_self h x marked (instance_of i) here = store_self h x none

pub forget_object-ne : (h : Heap) (x q : Ptr) (b : Body) → q ≢ x → forget_object x b h q ≡ h q
unfolding forget_object
forget_object-ne h x q (bound_method b) other = refl
forget_object-ne h x q (klass k) other = store-ne h x q none other
forget_object-ne h x q (closure c) other = store-ne h x q none other
forget_object-ne h x q (function f) other = store-ne h x q none other
forget_object-ne h x q (native n) other = store-ne h x q none other
forget_object-ne h x q (text s) other = store-ne h x q none other
forget_object-ne h x q (upvalue u) other = store-ne h x q none other
forget_object-ne h x q (instance_of i) other = store-ne h x q none other

-- One object more: `h1` is the heap after the first round.
pub IsSweep-then :
    (x : Ptr) (xs : List Ptr) (h h1 : Heap) (ys : List Ptr) (h' : Heap) (zs : List Ptr)
    → (Elem x xs → ⊥)
    → h1 x ≡ swept (h x)
    → ((q : Ptr) → q ≢ x → h1 q ≡ h q)
    → IsSweep xs h1 ys h'
    → zs ≡ (if is_marked_in h x then x ∷ ys else ys)
    → IsSweep (x ∷ xs) h zs h'
unfolding left_of
IsSweep-then x xs h h1 ys h' zs once here elsewhere s zs_is = record {
  visited = λ q e. elim (eq_cases q x) [
    | inl same ↦ (rw same (s.others x once ∙ here))
    | inr other ↦ elim e [
      | inl same ↦ absurd (other same)
      | inr later ↦ s.visited q later ∙ ap swept (elsewhere q other)
    ]
  ];
  others = λ q gone. s.others q (λ e. gone (inr e)) ∙ elsewhere q (λ same. gone (inl same));
  left = zs_is ∙ (λ i. if is_marked_in h x then x ∷ tail i else tail i);
}
  where
    tail : ys ≡ left_of h xs
    tail =
        s.left
        ∙ left_of-agree h h1 xs (λ q e. elsewhere q (λ same. once (subst (λ z. Elem z xs) same e)))

pub swept_black :
    (o : Obj) → o.is_marked ≡ true → swept (some o) ≡ some (record o { is_marked = false })
unfolding swept
swept_black o black = λ i. if black i then some (record o { is_marked = false }) else freed o

pub swept_white : (o : Obj) → o.is_marked ≡ false → swept (some o) ≡ freed o
unfolding swept
swept_white o white = λ i. if white i then some (record o { is_marked = false }) else freed o

-- The sizes of an object's blocks, and of all objects of a list.
abbrev pub size_of_body : Sizes → Option Body → ℕ
size_of_body sizes none = 0
size_of_body sizes (some b) = sum (blocks sizes b)

unfoldable pub total : Sizes → Heap → List Ptr → ℕ
total sizes h [] = 0
total sizes h (x ∷ xs) = size_of_body sizes (body_at h x) + total sizes h xs

pub total-agree :
    (sizes : Sizes) (h h' : Heap) (xs : List Ptr)
    → ((q : Ptr) → Elem q xs → body_at h' q ≡ body_at h q)
    → total sizes h' xs ≡ total sizes h xs
unfolding total
total-agree sizes h h' [] same = refl
total-agree sizes h h' (x ∷ xs) same =
    let tail = total-agree sizes h h' xs (λ q e. same q (inr e)) in
    λ i. size_of_body sizes (same x (inl refl) i) + tail i
