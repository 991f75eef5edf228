-- ===== src/Chunk/Growth.antt =====
-- A growing array stands for the list of its written cells: a write at the end appends to it.
use my_clox.Prelude.{
  take, ℕ, zero, suc, ◌+◌, ◌-◌, ◌≤◌, ◌<◌, ◌≡◌, refl, arith, List, [], ◌∷◌, ◌++◌, length, set,
  replicate, get_elem?, some, length-append, length-set, length-replicate, ap, ◌∙◌,
}
use my_clox.Table.{grow_capacity}

module _ {ℓ} {A : Type ℓ} where
  -- `cells` has `capacity` cells, of which the first `count` are `xs`.
  pub record Holds (xs : List A) (count capacity : ℕ) (cells : List A) : Type ℓ where
    pub size : length cells ≡ capacity
    pub count_eq : count ≡ length xs
    pub fits : count ≤ capacity
    pub written : take count cells ≡ xs

  take-append : (n : ℕ) (xs ys : List A) → n ≤ length xs → take n (xs ++ ys) ≡ take n xs
  take-append zero xs ys h = refl
  take-append (suc n) [] ys h = absurd (omega arith)
  take-append (suc n) (x ∷ xs) ys h = ap (λ l. x ∷ l) (take-append n xs ys (omega arith))

  take-suc-set :
      (n : ℕ) (xs : List A) (v : A)
      → n < length xs
      → take (suc n) (set xs n v) ≡ take n xs ++ v ∷ []
  take-suc-set zero [] v h = absurd (omega arith)
  take-suc-set zero (x ∷ xs) v h = refl
  take-suc-set (suc n) [] v h = absurd (omega arith)
  take-suc-set (suc n) (x ∷ xs) v h = ap (λ l. x ∷ l) (take-suc-set n xs v (omega arith))

  pub get_elem?-take : (n i : ℕ) (xs : List A) → i < n → get_elem? (take n xs) i ≡ get_elem? xs i
  get_elem?-take zero i xs h = absurd (omega arith)
  get_elem?-take (suc n) i [] h = refl
  get_elem?-take (suc n) zero (x ∷ xs) h = refl
  get_elem?-take (suc n) (suc i) (x ∷ xs) h = get_elem?-take n i xs (omega arith)

  pub get_elem?-snoc : (xs : List A) (v : A) → get_elem? (xs ++ v ∷ []) (length xs) ≡ some v
  get_elem?-snoc [] v = refl
  get_elem?-snoc (x ∷ xs) v = get_elem?-snoc xs v

  -- Growing keeps what is written and makes room.
  pub grow-Holds :
      (xs : List A) (count capacity : ℕ) (cells : List A) (junk : A)
      → Holds xs count capacity cells
      → Holds xs count
          (grow_capacity capacity)
          (cells ++ replicate (grow_capacity capacity - capacity) junk)
        × (capacity < grow_capacity capacity)
  grow-Holds xs count capacity cells junk h =
      let bigger = grows capacity in
      (
        record {
          size = omega (
            arith,
            length-append cells (replicate (grow_capacity capacity - capacity) junk),
            length-replicate (grow_capacity capacity - capacity) junk,
            h.size,
          );
          count_eq = h.count_eq;
          fits = omega (arith, h.fits);
          written = take-append count cells _ (omega (arith, h.size, h.fits)) ∙ h.written;
        },
        bigger,
      )
    where
      grows : (n : ℕ) → n < grow_capacity n
      grows n = unfold grow_capacity in ground arith

  pub write-Holds :
      (xs : List A) (count capacity : ℕ) (cells : List A) (v : A)
      → Holds xs count capacity cells
      → count < capacity
      → Holds (xs ++ v ∷ []) (count + 1) capacity (set cells count v)
  write-Holds xs count capacity cells v h lt = record {
    size = length-set cells count v ∙ h.size;
    count_eq = omega (arith, length-append xs (v ∷ []), h.count_eq);
    fits = omega arith;
    written =
        (let next : count + 1 ≡ suc count = omega arith in
          ap (λ (k : ℕ). take k (set cells count v)) next)
        ∙ take-suc-set count cells v (omega (arith, h.size))
        ∙ ap (λ l. l ++ v ∷ []) h.written;
  }
