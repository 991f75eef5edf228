-- ===== src/Table/Write.antt =====
-- One write at the slot that `findEntry` returned: what it keeps and what it changes.
use my_clox.Prelude.{
  ℕ, ◌+◌, ◌<◌, ◌≤◌, ◌≡◌, ◌≢◌, refl, Bool, true, false, not, ◌==◌, if◌then◌else◌, arith, List,
  Option, none, some, set, length, inl, inr, sym, ◌∙◌,
}
use my_clox.Value.{Value, Ptr, null, is_nil, true_val}
use my_clox.Table.{Entry, entry}
use my_clox.Table.Slots.{
  at, to_nat, is_empty, count, used, live, view, used-set, live-set, view-set, count-eq-zero,
}
use my_clox.Table.Placed.{IsPlaced, Found, set-IsPlaced}

abbrev pub is_some : Option Value → Bool
is_some none = false
is_some (some v) = true

-- A slot with a key is in use.
pub is_empty-real : (e : Entry) → e.key ≢ null → is_empty e ≡ false
unfolding is_empty
is_empty-real e h = ground arith

pub is_empty-tombstone : is_empty (entry null true_val) ≡ false
unfolding is_empty is_nil
is_empty-tombstone = refl

module _ (hash : Ptr → ℕ) {n : ℕ} {es : List Entry} (p : IsPlaced hash n es) (key : Ptr)
    (real : key ≢ null) {r : ℕ} (f : Found hash n es key r) where
  -- The array after `key` was bound to `value` at the slot.
  pub record Written (value : Value) (es' : List Entry) : Type 0 where
    pub placed : IsPlaced hash n es'
    pub used_le : used es' ≤ used es + 1
    pub used : used es' + to_nat (not (is_empty (at es r))) ≡ used es + 1
    pub counted : live es' + to_nat (is_some (view es key)) ≡ live es + 1
    pub reads : (q : Ptr) → q ≢ null → view es' q ≡ (if q == key then some value else view es q)

  fits_count : (at es r).key ≢ key → count key es ≡ 0
  fits_count ne = elim f.fits [
    | inl (same, v) ↦ absurd (ne same)
    | inr (k, v) ↦ count-eq-zero key es v
  ]

  pub bind-Written : (value : Value) → Written value (set es r (entry key value))
  bind-Written value =
      let e = entry key value in
      let full = is_empty-real e real in
      let lt : r < length es = rw p.width f.inside in
      let placed = set-IsPlaced hash r e p f.inside full (λ _. (f.path, fits_count)) in
      record {
        placed = placed;
        used_le = ground (arith, used-set es r e lt, full);
        used = ground (arith, used-set es r e lt, full);
        counted = elim f.fits [
          | inl (same, v) ↦ ground (arith, live-set es r e lt, v, same)
          | inr (k, v) ↦ ground (arith, live-set es r e lt, v, k)
        ];
        reads = λ q h. elim f.fits [
          | inl (same, v) ↦
              ground (arith, view-set q es r e lt (p.unique q h) (placed.unique q h), same)
          | inr (k, v) ↦ ground (arith, view-set q es r e lt (p.unique q h) (placed.unique q h), k)
        ];
      }

  -- A tombstone over the entry of `key`.
  pub record Cleared (es' : List Entry) : Type 0 where
    pub placed : IsPlaced hash n es'
    pub used : used es' ≡ used es
    pub counted : live es' + 1 ≡ live es
    pub reads : (q : Ptr) → q ≢ null → view es' q ≡ (if q == key then none else view es q)

  pub bury-Cleared : (at es r).key ≡ key → Cleared (set es r (entry null true_val))
  bury-Cleared same =
      let e = entry null true_val in
      let lt : r < length es = rw p.width f.inside in
      let placed = set-IsPlaced hash r e p f.inside is_empty-tombstone (λ h. absurd (h refl)) in
      let full = is_empty-real (at es r) (λ z. real (sym same ∙ z)) in
      record {
        placed = placed;
        used = ground (arith, used-set es r e lt, full, is_empty-tombstone);
        counted = ground (arith, live-set es r e lt, same);
        reads =
            λ q h. ground (arith, view-set q es r e lt (p.unique q h) (placed.unique q h), same);
      }
