-- ===== src/Table/Probe.antt =====
-- `findEntry`: the probe sequence of a key, and what the loop returns when a slot stops it.
use my_clox.Prelude.{
  ℕ, zero, suc, ◌+◌, ◌-◌, ◌%◌, ◌^◌, ◌<◌, ◌≤◌, ◌≡◌, ◌≢◌, refl, true, false, arith, List, Option,
  none, some, length, get_elem?, ◌⊎◌, inl, inr, Bool-cases, eq_cases, bit_and, sym, ap, ◌∙◌,
  get_elem?-get_or,
}
use my_clox.Prelude.Bits.{bit_and_mask}
use native.Mathlib.Decide.{dec_lt}
use native.Mathlib.Nat.{
  one-le-pow, pow-le-pow_right, mod-add-mod, add-mod-mod, mod-lt, mod-eq_of_lt, mod-eq-sub-mod,
}
use my_clox.Value.{Ptr, null}
use my_clox.Table.{Entry, blank, mask, next_index, find_loop, or_tombstone, first_tombstone}
use my_clox.Table.Slots.{at, is_empty}

-- The sizes that an array can have.
pub record IsSize (n : ℕ) : Type 0 where
  pub log : ℕ
  pub log_le : log ≤ 30
  pub pow : n ≡ 2 ^ log

pub IsSize-bounds : {n : ℕ} → IsSize n → (1 ≤ n) × (n ≤ 2 ^ 30)
IsSize-bounds s = (
  omega (arith, s.pow, one-le-pow s.log 2 (omega arith)),
  omega (arith, s.pow, pow-le-pow_right {n = 2} (omega arith) {i = s.log} {j = 30} s.log_le),
)

-- Masking by `capacity - 1` is the remainder by `capacity`.
pub bit_and-mask : {n : ℕ} → IsSize n → (x : ℕ) → bit_and x (mask n) ≡ x % n
bit_and-mask {n} s x =
    ap (bit_and x) (ones n (IsSize-bounds s) ∙ ap (λ (t : ℕ). t - 1) s.pow)
    ∙ bit_and_mask s.log x
    ∙ ap (λ (t : ℕ). x % t) (sym s.pow)
  where
    ones : (n : ℕ) → (1 ≤ n) × (n ≤ 2 ^ 30) → mask n ≡ n - 1
    ones n h = omega arith

-- The slot that the probe sequence from `h` reaches after `d` steps.
abbrev pub slot : ℕ → ℕ → ℕ → ℕ
slot n h d = (h + d) % n

pub slot-lt : (n h d : ℕ) → 1 ≤ n → slot n h d < n
slot-lt n h d p = mod-lt (h + d) p

pub next_index-slot : {n : ℕ} → IsSize n → (h d : ℕ) → next_index n (slot n h d) ≡ slot n h (suc d)
unfolding next_index
next_index-slot {n} s h d =
    let small : ((h + d) % n + 1) % 2 ^ 32 ≡ (h + d) % n + 1 =
      omega (arith, IsSize-bounds s, mod-lt (h + d) {m = n} (IsSize-bounds s).0) in
    rw (bit_and-mask s, small, mod-add-mod) (ap (λ (t : ℕ). t % n) (omega arith))

-- Every slot is reached within one round.
pub slot_onto : (n h i : ℕ) → i < n → (d : ℕ) × (d < n) × (slot n h d ≡ i)
slot_onto n h i lt =
    let below = mod-lt h {m = n} (omega arith) in
    let total : h % n + (i + n - h % n) ≡ i + n = omega arith in
    let wrapped : (i + n) % n ≡ i =
      mod-eq-sub-mod {n = i + n} {m = n} (omega arith)
      ∙ ap (λ (t : ℕ). t % n) (omega arith)
      ∙ mod-eq_of_lt lt in
    (
      (i + n - h % n) % n,
      mod-lt _ (omega arith),
      rw (add-mod-mod, ← mod-add-mod) (ap (λ (t : ℕ). t % n) total ∙ wrapped),
    )

-- Slot `i` of the sequence does not stop a search for `key`.
abbrev pub Passes : List Entry → Ptr → ℕ → Type 0
Passes es key i = (is_empty (at es i) ≡ false) × ((at es i).key ≢ key)

-- A search for `key` from `h` ended at slot `r`: after `steps` slots that do not stop it there is
-- the key, or an empty slot, and then `r` is that slot or a tombstone passed on the way.
pub record Stops (es : List Entry) (n h : ℕ) (key : Ptr) (r : ℕ) : Type 0 where
  pub steps : ℕ
  pub before : (j : ℕ) → j < steps → Passes es key (slot n h j)
  pub ends :
      ((at es (slot n h steps)).key ≡ key) × (r ≡ slot n h steps)
      ⊎ ((is_empty (at es (slot n h steps)) ≡ true)
          × ((j : ℕ) × (j ≤ steps) × (r ≡ slot n h j) × ((at es r).key ≡ null)))

pub is_empty-key : (e : Entry) → is_empty e ≡ true → e.key ≡ null
unfolding is_empty
is_empty-key e h = ground arith

module _ {n : ℕ} (s : IsSize n) (es : List Entry) (width : length es ≡ n) (h : ℕ) (key : Ptr)
    (real : key ≢ null) where
  -- The tombstone that the loop carries was passed on the way.
  abbrev IsPassed : ℕ → Option ℕ → Type 0
  IsPassed d none = Unit {0}
  IsPassed d (some t) = (j : ℕ) × (j < d) × (t ≡ slot n h j) × ((at es t).key ≡ null)

  abbrev DoesStop : ℕ → Type 0
  DoesStop d = (is_empty (at es (slot n h d)) ≡ true) ⊎ ((at es (slot n h d)).key ≡ key)

  IsPassed-suc : (d : ℕ) (t : Option ℕ) → IsPassed d t → IsPassed (suc d) t
  IsPassed-suc d none p = tt
  IsPassed-suc d (some t) (j, lt, e, k) = (j, omega arith, e, k)

  IsPassed-first :
      (d : ℕ) (t : Option ℕ)
      → (at es (slot n h d)).key ≡ null
      → IsPassed d t
      → IsPassed (suc d) (first_tombstone t (slot n h d))
  IsPassed-first d none k p = (d, omega arith, refl, k)
  IsPassed-first d (some t) k p = IsPassed-suc d (some t) p

  Passes-suc :
      (d : ℕ)
      → ((j : ℕ) → j < d → Passes es key (slot n h j))
      → Passes es key (slot n h d)
      → (j : ℕ) → j < suc d
      → Passes es key (slot n h j)
  Passes-suc d old new j lt = elim (dec_lt j d) [
    | yes p ↦ old j p
    | no p ↦ let e : d ≡ j = omega arith in rw e at new
  ]

  ends_empty :
      (d : ℕ) (t : Option ℕ)
      → is_empty (at es (slot n h d)) ≡ true
      → IsPassed d t
      → (j : ℕ) × (j ≤ d)
        × (or_tombstone t (slot n h d) ≡ slot n h j)
        × ((at es (or_tombstone t (slot n h d))).key ≡ null)
  ends_empty d none k p = (d, omega arith, refl, is_empty-key _ k)
  ends_empty d (some t) k (j, lt, e, key) = (j, omega arith, e, key)

  not_stop : (d e : ℕ) → d ≡ e → Passes es key (slot n h d) → DoesStop e → ⊥
  not_stop d e p (taken, other) (inl free) = cc
  not_stop d e p (taken, other) (inr same) =
      other (ap (λ (x : ℕ). (at es (slot n h x)).key) p ∙ same)

  module _ (fuel i : ℕ) (t : Option ℕ) (lt : i < n) where
    read : get_elem? es i ≡ some (at es i)
    read = get_elem?-get_or es i blank (rw width lt)

    step_empty :
        is_empty (at es i) ≡ true → find_loop (suc fuel) es n key i t ≡ some (or_tombstone t i)
    unfolding find_loop is_empty
    step_empty h = ground (arith, read)

    step_key : (at es i).key ≡ key → find_loop (suc fuel) es n key i t ≡ some i
    unfolding find_loop
    step_key h = ground (arith, read)

    step_tombstone :
        is_empty (at es i) ≡ false
        → (at es i).key ≡ null
        → find_loop (suc fuel) es n key i t
          ≡ find_loop fuel es n key (next_index n i) (first_tombstone t i)
    unfolding find_loop is_empty
    step_tombstone h k = ground (arith, read)

    step_other :
        (at es i).key ≢ null
        → (at es i).key ≢ key
        → find_loop (suc fuel) es n key i t ≡ find_loop fuel es n key (next_index n i) t
    unfolding find_loop
    step_other h k = ground (arith, read)

  -- The loop ends, where some slot of the rounds that are left stops it.
  pub find_loop-Stops :
      (fuel d : ℕ) (t : Option ℕ)
      → IsPassed d t
      → ((j : ℕ) → j < d → Passes es key (slot n h j))
      → (e : ℕ) → d ≤ e
      → e < d + fuel
      → DoesStop e
      → (r : ℕ) × (find_loop fuel es n key (slot n h d) t ≡ some r) × Stops es n h key r
  find_loop-Stops zero d t pt before e le lt stop = absurd (omega arith)
  find_loop-Stops (suc fuel) d t pt before e le lt stop =
      let i = slot n h d in
      let inside = slot-lt n h d (IsSize-bounds s).0 in
      let on : (d ≡ e → ⊥) → suc d ≤ e = λ ne. omega arith in
      elim (Bool-cases (is_empty (at es i))) [
        | inl free ↦ (
          or_tombstone t i,
          step_empty fuel i t inside free,
          record { steps = d; before = before; ends = inr (free, ends_empty d t free pt) },
        )
        | inr taken ↦ elim (eq_cases (at es i).key key) [
          | inl same ↦ (
            i,
            step_key fuel i t inside same,
            record { steps = d; before = before; ends = inl (same, refl) },
          )
          | inr other ↦
              let before' = Passes-suc d before (taken, other) in
              let later : suc d ≤ e = on (λ p. not_stop d e p (taken, other) stop) in
              elim (eq_cases (at es i).key null) [
                | inl tomb ↦
                    rw (step_tombstone fuel i t inside taken tomb, next_index-slot s h d)
                      (find_loop-Stops fuel (suc d) (first_tombstone t i)
                        (IsPassed-first d t tomb pt) before' e later (omega arith) stop)
                | inr alive ↦
                    rw (step_other fuel i t inside alive other, next_index-slot s h d)
                      (find_loop-Stops fuel (suc d) t (IsPassed-suc d t pt) before' e later
                        (omega arith) stop)
              ]
        ]
      ]
