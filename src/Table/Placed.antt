-- ===== src/Table/Placed.antt =====
-- Where keys may stand: every slot of a key's probe sequence before it is in use. `findEntry` then
-- finds the key, or a slot where it may be put.
use my_clox.Prelude.{
  ℕ, ◌%◌, ◌<◌, ◌≡◌, ◌≢◌, true, false, arith, List, none, some, length, set, replicate, ◌⊎◌, inl,
  inr, eq_cases, sym, ap, subst, ◌∙◌, get_or-set_self, get_or-set_ne, length-set, get_or-replicate,
  length-replicate,
}
use mathlib.Core.Bool.{true≢false}
use native.Mathlib.Decide.{dec_lt}
use my_clox.Value.{Ptr, null}
use my_clox.Table.{Entry, blank, find_entry}
use my_clox.Table.Slots.{
  at, is_empty, count, used, view, IsUnique, empty_slot, count-set, at-view, count-replicate,
  view-eq-none, view-at,
}
use my_clox.Table.Probe.{
  IsSize, IsSize-bounds, bit_and-mask, slot, slot-lt, slot_onto, Passes, Stops, find_loop-Stops,
  is_empty-key,
}

pub at-set_self : (es : List Entry) (r : ℕ) (e : Entry) → r < length es → at (set es r e) r ≡ e
at-set_self es r e lt = get_or-set_self es r e blank lt

pub at-set_ne : (es : List Entry) (r i : ℕ) (e : Entry) → r ≢ i → at (set es r e) i ≡ at es i
at-set_ne es r i e ne = get_or-set_ne es r i e blank ne

pub start_slot : (n h : ℕ) → h % n ≡ slot n h 0
start_slot n h = ap (λ (t : ℕ). t % n) (omega arith)

module _ (hash : Ptr → ℕ) where
  -- Slot `i` is reached in the sequence of `key` over slots that are all in use.
  pub record Reaches (n : ℕ) (es : List Entry) (key : Ptr) (i : ℕ) : Type 0 where
    pub steps : ℕ
    pub lands : slot n (hash key) steps ≡ i
    pub busy : (j : ℕ) → j < steps → is_empty (at es (slot n (hash key) j)) ≡ false

  -- An array of `n` slots in which every key can be found, and none stands twice.
  pub record IsPlaced (n : ℕ) (es : List Entry) : Type 0 where
    pub width : length es ≡ n
    pub reach : (i : ℕ) → i < n → (at es i).key ≢ null → Reaches n es (at es i).key i
    pub unique : IsUnique es

  -- What `findEntry` returns for `key`.
  pub record Found (n : ℕ) (es : List Entry) (key : Ptr) (r : ℕ) : Type 0 where
    pub inside : r < n
    pub fits :
        ((at es r).key ≡ key) × (view es key ≡ some (at es r).value)
        ⊎ ((at es r).key ≡ null) × (view es key ≡ none)
    pub path : Reaches n es key r

  module _ {n : ℕ} (s : IsSize n) {es : List Entry} (p : IsPlaced n es) (key : Ptr)
      (real : key ≢ null) where
    absent :
        (m : ℕ)
        → ((j : ℕ) → j < m → Passes es key (slot n (hash key) j))
        → is_empty (at es (slot n (hash key) m)) ≡ true
        → (i : ℕ) → i < n
        → key ≡ (at es i).key
        → ⊥
    absent m before free i lt same =
        let real' : (at es i).key ≢ null = λ e. real (same ∙ e) in
        let t = subst (λ k. Reaches n es k i) (sym same) (p.reach i lt real') in
        elim (dec_lt t.steps m) [
          | yes h ↦ (before t.steps h).1 (ap (λ (x : ℕ). (at es x).key) t.lands ∙ sym same)
          | no h ↦ elim (dec_lt m t.steps) [
            | yes k ↦ true≢false (sym free ∙ t.busy m k)
            | no k ↦
                let e : m ≡ t.steps = omega arith in
                real' (
                  ap (λ (x : ℕ). (at es x).key) (sym t.lands ∙ ap (slot n (hash key)) (sym e))
                  ∙ is_empty-key _ free)
          ]
        ]

    count_absent :
        (m : ℕ)
        → ((j : ℕ) → j < m → Passes es key (slot n (hash key) j))
        → is_empty (at es (slot n (hash key) m)) ≡ true
        → count key es ≡ 0
    count_absent m before free = elim (eq_cases (count key es) 0) [
      | inl gone ↦ gone
      | inr more ↦
          let (i, lt, same) = at-view key es (omega arith) in
          absurd (absent m before free i (rw p.width at lt) same)
    ]

    Found-of_Stops : (r : ℕ) → Stops es n (hash key) key r → Found n es key r
    Found-of_Stops r t = elim t.ends [
      | inl (same, e) ↦
          let same' : (at es r).key ≡ key = ap (λ (x : ℕ). (at es x).key) e ∙ same in
          let inside : r < n = rw e (slot-lt n (hash key) t.steps (IsSize-bounds s).0) in
          record {
            inside = inside;
            fits =
                inl (same', view-at key es r (rw p.width inside) (p.unique key real) (sym same'));
            path = record { steps = t.steps; lands = sym e; busy = λ j lt. (t.before j lt).0 };
          }
      | inr (free, (j, le, e, k)) ↦ record {
        inside = rw e (slot-lt n (hash key) j (IsSize-bounds s).0);
        fits = inr (k, view-eq-none key es (count_absent t.steps t.before free));
        path = record { steps = j; lands = sym e; busy = λ i lt. (t.before i (omega arith)).0 };
      }
    ]

    pub find_entry-Found :
        used es < n → (r : ℕ) × (find_entry hash es n key ≡ some r) × Found n es key r
    unfolding find_entry
    find_entry-Found roomy =
        let (i, lt, free) = empty_slot es (rw p.width roomy) in
        let (e, inside, lands) = slot_onto n (hash key) i (rw p.width at lt) in
        let (r, run, t) =
          find_loop-Stops s es p.width (hash key) key real (length es) 0 none tt (λ j h. elim h [ ])
            e (omega arith) (omega (arith, p.width)) (inl (rw lands free)) in
        (r, rw (bit_and-mask s, start_slot n (hash key)) run, Found-of_Stops r t)

  is_empty-set :
      (es : List Entry) (r i : ℕ) (e : Entry)
      → r < length es
      → is_empty e ≡ false
      → is_empty (at es i) ≡ false
      → is_empty (at (set es r e) i) ≡ false
  is_empty-set es r i e lt full old = elim (eq_cases r i) [
    | inl same ↦ rw (← same, at-set_self es r e lt) full
    | inr other ↦ rw (at-set_ne es r i e other) old
  ]

  Reaches-set :
      {n : ℕ} {es : List Entry} {key : Ptr} {i : ℕ} (r : ℕ) (e : Entry)
      → r < length es
      → is_empty e ≡ false
      → Reaches n es key i
      → Reaches n (set es r e) key i
  Reaches-set {n} {es} {key} {i} r e lt full t = record {
    steps = t.steps;
    lands = t.lands;
    busy = λ j h. is_empty-set es r (slot n (hash key) j) e lt full (t.busy j h);
  }

  -- A write of an entry that is in use, under a key that may stand there or under none.
  pub set-IsPlaced :
      {n : ℕ} {es : List Entry} (r : ℕ) (e : Entry)
      → IsPlaced n es
      → r < n
      → is_empty e ≡ false
      → (e.key ≢ null → Reaches n es e.key r × ((at es r).key ≢ e.key → count e.key es ≡ 0))
      → IsPlaced n (set es r e)
  set-IsPlaced {n} {es} r e p lt full fits = record {
    width = length-set es r e ∙ p.width;
    reach = λ i inside real. elim (eq_cases r i) [
      | inl same ↦
          let self : (at (set es r e) i).key ≡ e.key =
            ap (λ (x : Entry). x.key)
              (ap (at (set es r e)) (sym same) ∙ at-set_self es r e (rw p.width lt)) in
          rw (self, ← same) (Reaches-set r e (rw p.width lt) full (fits (λ z. real (self ∙ z))).0)
      | inr other ↦
          let self : (at (set es r e) i).key ≡ (at es i).key =
            ap (λ (x : Entry). x.key) (at-set_ne es r i e other) in
          rw self (Reaches-set r e (rw p.width lt) full (p.reach i inside (λ z. real (self ∙ z))))
    ];
    unique = λ q real. elim (eq_cases q e.key) [
      | inl same ↦
          let new = (fits (λ z. real (same ∙ z))).1 in
          elim (eq_cases (at es r).key e.key) [
            | inl kept ↦ ground (arith, count-set q es r e, p.unique q real, p.width)
            | inr fresh ↦ ground (arith, count-set q es r e, new fresh, p.width)
          ]
      | inr other ↦ ground (arith, count-set q es r e, p.unique q real, p.width)
    ];
  }

  pub replicate-IsPlaced : (n : ℕ) → IsPlaced n (replicate n blank)
  replicate-IsPlaced n = record {
    width = length-replicate n blank;
    reach = λ i lt real. absurd (real (ap (λ (e : Entry). e.key) (get_or-replicate n i blank)));
    unique = λ q real. omega (arith, count-replicate q n real);
  }
