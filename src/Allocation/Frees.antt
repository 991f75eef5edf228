-- ===== src/Allocation/Frees.antt =====
-- Freeing blocks one after the other: either the first already starts a collection, or none does.
use my_clox.Prelude.{
  ℕ, ◌+◌, ◌-◌, ◌%◌, ◌≤◌, ◌<◌, ◌≡◌, ◌^◌, refl, ltb, arith, List, [], ◌∷◌, Bool-cases, inl, inr, ◌⊎◌,
  ◌∙◌, ap,
}
use my_clox.Allocation.{Counters, collects, finished, reallocate, free_blocks}

abbrev pub sum : List ℕ → ℕ
sum [] = 0
sum (n ∷ ns) = n + sum ns

abbrev pub less : ℕ → Counters → Counters
less size c = record c { bytes_allocated = c.bytes_allocated - size }

nothing_less : (c : Counters) → c ≡ less 0 c
nothing_less c = ap (λ (n : ℕ). record c { bytes_allocated = n }) (omega arith)

less_twice : (a b : ℕ) (c : Counters) → less b (less a c) ≡ less (a + b) c
less_twice a b c = ap (λ (n : ℕ). record c { bytes_allocated = n }) (omega arith)

bytes_left :
    (size bytes : ℕ)
    → size ≤ bytes
    → bytes < 2 ^ 64
    → (bytes + 0 + (2 ^ 64 - size)) % 2 ^ 64 ≡ bytes - size
bytes_left size bytes le lt = omega arith

module _ (size : ℕ) (c : Counters) (le : size ≤ c.bytes_allocated)
    (lt : c.bytes_allocated < 2 ^ 64) where
  free_fits : c.bytes_allocated ≤ c.next_gc + size → reallocate size 0 c ≡ finished (less size c)
  unfolding reallocate
  free_fits room = rw (bytes_left size c.bytes_allocated le lt) (ground arith)

  free_collects : c.next_gc + size < c.bytes_allocated → reallocate size 0 c ≡ collects
  unfolding reallocate
  free_collects over = rw (bytes_left size c.bytes_allocated le lt) (ground arith)

all_fit :
    (sizes : List ℕ) (c : Counters)
    → sum sizes ≤ c.bytes_allocated
    → c.bytes_allocated < 2 ^ 64
    → c.bytes_allocated ≤ c.next_gc
    → free_blocks sizes c ≡ finished (less (sum sizes) c)
unfolding free_blocks
all_fit [] c le lt room = ap finished (nothing_less c)
all_fit (size ∷ sizes) c le lt room = rw (free_fits size c (omega arith) lt (omega arith)) (
    all_fit sizes (less size c) (omega arith) (omega arith) (omega arith)
    ∙ ap finished (less_twice size (sum sizes) c))

-- The first block decides.
pub free_blocks-cases :
    (sizes : List ℕ) (c : Counters)
    → sum sizes ≤ c.bytes_allocated
    → c.bytes_allocated < 2 ^ 64
    → (free_blocks sizes c ≡ finished (less (sum sizes) c))
      ⊎ ((size : ℕ) × (rest : List ℕ) × (sizes ≡ size ∷ rest)
          × (free_blocks sizes c ≡ collects)
          × (c.next_gc + size < c.bytes_allocated))
unfolding free_blocks
free_blocks-cases [] c le lt = inl (ap finished (nothing_less c))
free_blocks-cases (size ∷ rest) c le lt =
    elim (Bool-cases (ltb (c.next_gc + size) c.bytes_allocated)) [
      | inl over ↦ inr (
        size,
        rest,
        refl,
        rw (free_collects size c (omega arith) lt (ground (arith, over))) refl,
        ground (arith, over),
      )
      | inr room ↦ inl (
          rw (free_fits size c (omega arith) lt (ground (arith, room))) (
            all_fit rest (less size c) (omega arith) (omega arith) (ground (arith, room))
            ∙ ap finished (less_twice size (sum rest) c)))
    ]
