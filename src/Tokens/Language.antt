-- ===== src/Tokens/Language.antt =====
-- The language of a regular expression, and that `lengths` lists the prefixes in it.
use my_clox.Prelude.{
  ℕ, zero, suc, ◌+◌, ◌≤◌, ◌≡◌, refl, true, if◌then◌else◌, arith, List, [], ◌∷◌, ◌++◌, map, ◌∙◌, ap,
  sym, subst, inl, inr, Bool-cases, length, take, drop, Elem, only, length-append, Elem-append_left,
  Elem-append_right, Elem-append_cases,
}
use mathlib.Core.List.{append_assoc}
use my_clox.Tokens.{
  Class, Regex, symbol, many, optional, seq, class_has, run, up_to, after, lengths,
}

-- The texts that an expression matches.
pub data Matches : Regex → List ℕ → Type 0 where
  one : (c : Class) (x : ℕ) → class_has c x ≡ true → Matches (symbol c) (x ∷ [])
  done : (c : Class) → Matches (many c) []
  more :
      (c : Class) (x : ℕ) (w : List ℕ)
      → class_has c x ≡ true
      → Matches (many c) w
      → Matches (many c) (x ∷ w)
  absent : (r : Regex) → Matches (optional r) []
  present : (r : Regex) (w : List ℕ) → Matches r w → Matches (optional r) w
  both : (a b : Regex) (v w : List ℕ) → Matches a v → Matches b w → Matches (seq a b) (v ++ w)

Elem-up_to : (n k : ℕ) → k ≤ n → Elem k (up_to n)
Elem-up_to zero k h = inl (omega arith)
Elem-up_to (suc n) k h = ground (arith, Elem-up_to n k)

up_to-Elem : (n k : ℕ) → Elem k (up_to n) → k ≤ n
up_to-Elem zero k (inl e) = omega arith
up_to-Elem zero k (inr later) = elim later [ ]
up_to-Elem (suc n) k (inl e) = omega arith
up_to-Elem (suc n) k (inr later) = omega (arith, up_to-Elem n k later)

Elem-map : (n j : ℕ) (ks : List ℕ) → Elem j ks → Elem (n + j) (map (λ i. n + i) ks)
Elem-map n j (k ∷ ks) (inl same) = inl (ap (λ i. n + i) same)
Elem-map n j (k ∷ ks) (inr later) = inr (Elem-map n j ks later)
Elem-map n j [] e = elim e [ ]

map-Elem :
    (n m : ℕ) (ks : List ℕ) → Elem m (map (λ i. n + i) ks) → (j : ℕ) × Elem j ks × (m ≡ n + j)
map-Elem n m [] e = elim e [ ]
map-Elem n m (k ∷ ks) (inl same) = (k, inl refl, same)
map-Elem n m (k ∷ ks) (inr later) = let (j, here, e) = map-Elem n m ks later in (j, inr here, e)

Elem-after :
    (f : ℕ → List ℕ) (k j : ℕ) (ks : List ℕ) → Elem k ks → Elem j (f k) → Elem (k + j) (after f ks)
Elem-after f k j [] e here = elim e [ ]
Elem-after f k j (x ∷ ks) (inl same) here =
    Elem-append_left (k + j) _ _
      (subst (λ z. Elem (k + j) (map (λ i. z + i) (f z))) same (Elem-map k j (f k) here))
Elem-after f k j (x ∷ ks) (inr later) here =
    Elem-append_right (k + j) _ _ (Elem-after f k j ks later here)

after-Elem :
    (f : ℕ → List ℕ) (m : ℕ) (ks : List ℕ)
    → Elem m (after f ks)
    → (k : ℕ) × (j : ℕ) × Elem k ks × Elem j (f k) × (m ≡ k + j)
after-Elem f m [] e = elim e [ ]
after-Elem f m (k ∷ ks) e = elim (Elem-append_cases m (map (λ i. k + i) (f k)) (after f ks) e) [
  | inl here ↦ let (j, in_f, same) = map-Elem k m (f k) here in (k, j, inl refl, in_f, same)
  | inr later ↦
      let (k', j, in_ks, in_f, same) = after-Elem f m ks later in (k', j, inr in_ks, in_f, same)
]

take-run :
    (c : Class) (s : List ℕ) (k : ℕ) → k ≤ run c s → Matches (many c) (take k s) × (k ≤ length s)
take-run c s zero h = (done c, omega arith)
take-run c [] (suc k) h = absurd (omega arith)
take-run c (x ∷ s) (suc k) h = elim (Bool-cases (class_has c x)) [
  | inl has ↦
      let (m, fits) = take-run c s k (ground (arith, h, has)) in
      (more c x (take k s) has m, omega arith)
  | inr other ↦ absurd (ground (arith, h, other))
]

take-nil : (k : ℕ) → take {A = ℕ} k [] ≡ []
take-nil zero = refl
take-nil (suc k) = refl

take-plus : (k j : ℕ) (s : List ℕ) → take (k + j) s ≡ take k s ++ take j (drop k s)
take-plus zero j s = let e : 0 + j ≡ j = omega arith in ap (λ (n : ℕ). take n s) e
take-plus (suc k) j [] = take-nil (suc k + j) ∙ sym (take-nil j)
take-plus (suc k) j (x ∷ s) =
    let e : suc k + j ≡ suc (k + j) = omega arith in
    ap (λ (n : ℕ). take n (x ∷ s)) e ∙ ap (λ t. x ∷ t) (take-plus k j s)

length-drop : (k : ℕ) (s : List ℕ) → k ≤ length s → length (drop k s) + k ≡ length s
length-drop zero s h = omega arith
length-drop (suc k) [] h = absurd (omega arith)
length-drop (suc k) (x ∷ s) h = omega (arith, length-drop k s)

-- Each length that is listed is that of a prefix in the language.
pub lengths-Matches :
    (r : Regex) (s : List ℕ) (k : ℕ) → Elem k (lengths r s) → Matches r (take k s) × (k ≤ length s)
unfolding lengths
lengths-Matches (symbol c) [] k e = elim e [ ]
lengths-Matches (symbol c) (x ∷ s) k e = elim (Bool-cases (class_has c x)) [
  | inl has ↦
      let one_long : k ≡ 1 = only (subst (λ b. Elem k (if b then 1 ∷ [] else [])) has e) in
      rw one_long (one c x has, omega arith)
  | inr other ↦ elim (subst (λ b. Elem k (if b then 1 ∷ [] else [])) other e) [ ]
]
lengths-Matches (many c) s k e = take-run c s k (up_to-Elem (run c s) k e)
lengths-Matches (optional r) s k (inl same) = rw same (absent r, omega arith)
lengths-Matches (optional r) s k (inr later) =
    let (m, fits) = lengths-Matches r s k later in (present r (take k s) m, fits)
lengths-Matches (seq a b) s m e =
    let (k, j, in_a, in_b, same) = after-Elem (λ i. lengths b (drop i s)) m (lengths a s) e in
    let (first, fits) = lengths-Matches a s k in_a in
    let (second, fits') = lengths-Matches b (drop k s) j in_b in
    (
      subst (Matches (seq a b)) (sym (ap (λ (i : ℕ). take i s) same ∙ take-plus k j s))
          (both a b (take k s) (take j (drop k s)) first second),
      omega (arith, length-drop k s fits),
    )

drop-append : (v w : List ℕ) → drop (length v) (v ++ w) ≡ w
drop-append [] w = refl
drop-append (x ∷ v) w = drop-append v w

-- Each prefix in the language is listed.
pub Matches-lengths :
    (r : Regex) (w t : List ℕ) → Matches r w → Elem (length w) (lengths r (w ++ t))
unfolding lengths
Matches-lengths _ _ t (one c x has) = rw has (inl refl)
Matches-lengths _ _ t (done c) = Elem-up_to (run c t) 0 (omega arith)
Matches-lengths _ _ t (more c x w has m) = Elem-up_to (run c (x ∷ (w ++ t))) (suc (length w)) (
    rw has (omega (arith, up_to-Elem (run c (w ++ t)) (length w) (Matches-lengths (many c) w t m))))
Matches-lengths _ _ t (absent r) = inl refl
Matches-lengths _ _ t (present r w m) = inr (Matches-lengths r w t m)
Matches-lengths _ _ t (both a b v w m n) =
    let s = v ++ (w ++ t) in
    let tail : Elem (length w) (lengths b (drop (length v) s)) =
      subst (λ z. Elem (length w) (lengths b z)) (sym (drop-append v (w ++ t)))
        (Matches-lengths b w t n) in
    let here : Elem (length v + length w) (lengths (seq a b) s) =
      Elem-after (λ k. lengths b (drop k s)) (length v) (length w) (lengths a s)
        (Matches-lengths a v (w ++ t) m) tail in
    subst (λ z. Elem z (lengths (seq a b) ((v ++ w) ++ t))) (sym (length-append v w))
      (subst (λ z. Elem (length v + length w) (lengths (seq a b) z)) (sym (append_assoc v w t))
        here)

take-drop : (k : ℕ) (s : List ℕ) → take k s ++ drop k s ≡ s
take-drop zero s = refl
take-drop (suc k) [] = refl
take-drop (suc k) (x ∷ s) = ap (λ l. x ∷ l) (take-drop k s)

pub length-take : (k : ℕ) (s : List ℕ) → k ≤ length s → length (take k s) ≡ k
length-take zero s h = refl
length-take (suc k) [] h = absurd (omega arith)
length-take (suc k) (x ∷ s) h = omega (arith, length-take k s)

-- A prefix in the language is listed with its length.
pub take-lengths :
    (r : Regex) (s : List ℕ) (k : ℕ) → k ≤ length s → Matches r (take k s) → Elem k (lengths r s)
take-lengths r s k h m =
    subst (λ z. Elem z (lengths r s)) (length-take k s h)
      (subst (λ z. Elem (length (take k s)) (lengths r z)) (take-drop k s)
        (Matches-lengths r (take k s) (drop k s) m))
