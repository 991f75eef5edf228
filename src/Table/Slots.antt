-- ===== src/Table/Slots.antt =====
-- The array of a table as a list of slots: how often a key stands in it, what it is bound to, how
-- many slots are in use, and how one write changes each of these.
use my_clox.Prelude.{
  ℕ, zero, suc, ◌+◌, ◌<◌, ◌≤◌, ◌≡◌, ◌≢◌, refl, Bool, true, false, not, ◌&&◌, ◌==◌, if◌then◌else◌,
  arith, List, [], ◌∷◌, Option, none, some, length, get_or, set, replicate, inl, inr, Bool-cases,
  ==_iff, ap,
}
use my_clox.Value.{Value, Ptr, null, is_nil}
use my_clox.Table.{Entry, blank}

abbrev pub at : List Entry → ℕ → Entry
at es i = get_or es i blank

abbrev pub to_nat : Bool → ℕ
to_nat true = 1
to_nat false = 0

-- A slot that was never used: a null key with a nil value. A tombstone is no such slot.
unfoldable pub is_empty : Entry → Bool
unfolding is_nil
is_empty e = e.key == null && is_nil e.value

unfoldable pub count : Ptr → List Entry → ℕ
count q [] = 0
count q (e ∷ es) = to_nat (q == e.key) + count q es

-- The slots that are in use, tombstones included.
unfoldable pub used : List Entry → ℕ
used [] = 0
used (e ∷ es) = to_nat (not (is_empty e)) + used es

-- The slots that hold a key.
unfoldable pub live : List Entry → ℕ
live [] = 0
live (e ∷ es) = to_nat (not (e.key == null)) + live es

-- What the array binds a key to.
unfoldable pub view : List Entry → Ptr → Option Value
view [] q = none
view (e ∷ es) q = if q == e.key then some e.value else view es q

-- No key stands twice.
abbrev pub IsUnique : List Entry → Type 0
IsUnique es = (q : Ptr) → q ≢ null → count q es ≤ 1

pub count-set :
    (q : Ptr) (es : List Entry) (i : ℕ) (e : Entry)
    → i < length es
    → count q (set es i e) + to_nat (q == (at es i).key) ≡ count q es + to_nat (q == e.key)
unfolding count
count-set q [] i e h = absurd (omega arith)
count-set q (x ∷ es) zero e h = omega arith
count-set q (x ∷ es) (suc i) e h = omega (arith, count-set q es i e (omega arith))

pub used-set :
    (es : List Entry) (i : ℕ) (e : Entry)
    → i < length es
    → used (set es i e) + to_nat (not (is_empty (at es i))) ≡ used es + to_nat (not (is_empty e))
unfolding used
used-set [] i e h = absurd (omega arith)
used-set (x ∷ es) zero e h = omega arith
used-set (x ∷ es) (suc i) e h = omega (arith, used-set es i e (omega arith))

pub live-set :
    (es : List Entry) (i : ℕ) (e : Entry)
    → i < length es
    → live (set es i e) + to_nat (not ((at es i).key == null))
      ≡ live es + to_nat (not (e.key == null))
unfolding live
live-set [] i e h = absurd (omega arith)
live-set (x ∷ es) zero e h = omega arith
live-set (x ∷ es) (suc i) e h = omega (arith, live-set es i e (omega arith))

pub live-le-used : (es : List Entry) → live es ≤ used es
unfolding live used is_empty
live-le-used [] = omega arith
live-le-used (e ∷ es) = ground (arith, live-le-used es)

pub used-le-length : (es : List Entry) → used es ≤ length es
unfolding used
used-le-length [] = omega arith
used-le-length (e ∷ es) = ground (arith, used-le-length es)

-- While a slot is left, there is an empty one.
pub empty_slot :
    (es : List Entry)
    → used es < length es
    → (i : ℕ) × (i < length es) × (is_empty (at es i) ≡ true)
unfolding used
empty_slot [] h = absurd (omega arith)
empty_slot (e ∷ es) h = elim (Bool-cases (is_empty e)) [
  | inl here ↦ (0, omega arith, here)
  | inr full ↦
      let (i, lt, later) = empty_slot es (omega (arith, ap (λ b. to_nat (not b)) full)) in
      (suc i, omega arith, later)
]

pub count-at :
    (q : Ptr) (es : List Entry) (i : ℕ) → i < length es → q ≡ (at es i).key → 1 ≤ count q es
unfolding count
count-at q [] i h p = absurd (omega arith)
count-at q (x ∷ es) zero h p = ground arith
count-at q (x ∷ es) (suc i) h p = omega (arith, count-at q es i (omega arith) p)

pub view-eq-none : (q : Ptr) (es : List Entry) → count q es ≡ 0 → view es q ≡ none
unfolding count view
view-eq-none q [] h = refl
view-eq-none q (e ∷ es) h = ground (arith, view-eq-none q es)

pub count-eq-zero : (q : Ptr) (es : List Entry) → view es q ≡ none → count q es ≡ 0
unfolding count view
count-eq-zero q [] h = refl
count-eq-zero q (e ∷ es) h = ground (arith, count-eq-zero q es)

pub view-at :
    (q : Ptr) (es : List Entry) (i : ℕ)
    → i < length es
    → count q es ≤ 1
    → q ≡ (at es i).key
    → view es q ≡ some (at es i).value
unfolding count view
view-at q [] i h u p = absurd (omega arith)
view-at q (x ∷ es) zero h u p = ground arith
view-at q (x ∷ es) (suc i) h u p =
    ground (arith, view-at q es i (omega arith), count-at q es i (omega arith) p)

-- A key that is bound stands in a slot.
pub at-view :
    (q : Ptr) (es : List Entry) → 1 ≤ count q es → (i : ℕ) × (i < length es) × (q ≡ (at es i).key)
unfolding count
at-view q [] h = absurd (omega arith)
at-view q (x ∷ es) h = elim (Bool-cases (q == x.key)) [
  | inl here ↦ (0, omega arith, (==_iff _ _).0 here)
  | inr other ↦
      let (i, lt, later) = at-view q es (omega (arith, ap to_nat other)) in
      (suc i, omega arith, later)
]

-- One write, read back through the view.
pub view-set :
    (q : Ptr) (es : List Entry) (i : ℕ) (e : Entry)
    → i < length es
    → count q es ≤ 1
    → count q (set es i e) ≤ 1
    → view (set es i e) q
      ≡ (if q == e.key then some e.value else if q == (at es i).key then none else view es q)
unfolding count view
view-set q [] i e h u v = absurd (omega arith)
view-set q (x ∷ es) zero e h u v = ground (arith, view-eq-none q es)
view-set q (x ∷ es) (suc i) e h u v =
    ground
      (arith, view-set q es i e (omega arith), count-at q es i (omega arith), count-set q es i e)

pub count-replicate : (q : Ptr) (n : ℕ) → q ≢ null → count q (replicate n blank) ≡ 0
unfolding count
count-replicate q zero h = refl
count-replicate q (suc n) h = ground (arith, count-replicate q n h)

pub used-replicate : (n : ℕ) → used (replicate n blank) ≡ 0
unfolding used is_empty
used-replicate zero = refl
used-replicate (suc n) = omega (arith, used-replicate n)

pub live-replicate : (n : ℕ) → live (replicate n blank) ≡ 0
unfolding live
live-replicate zero = refl
live-replicate (suc n) = omega (arith, live-replicate n)

pub view-replicate : (q : Ptr) (n : ℕ) → q ≢ null → view (replicate n blank) q ≡ none
view-replicate q n h = view-eq-none q (replicate n blank) (count-replicate q n h)

pub count-le-live : (q : Ptr) (es : List Entry) → q ≢ null → count q es ≤ live es
unfolding count live
count-le-live q [] h = omega arith
count-le-live q (e ∷ es) h = ground (arith, count-le-live q es h)
