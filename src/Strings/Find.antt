-- ===== src/Strings/Find.antt =====
-- `tableFindString` ends, and finds the interned string that has a text, if there is one.
use my_clox.Prelude.{
  ℕ, zero, suc, ◌+◌, ◌<◌, ◌≤◌, ◌≡◌, ◌≢◌, refl, Bool, true, false, not, ◌&&◌, ◌==◌, arith, List,
  Option, none, some, length, get_elem?-get_or, ◌⊎◌, inl, inr, Bool-cases, eq_cases, sym, ap, subst,
  ◌∙◌, bit_and,
}
use mathlib.Core.Bool.{true≢false}
use native.Mathlib.Decide.{dec_lt}
use my_clox.Value.{Ptr, null}
use my_clox.Table.{Table, Entry, blank, mask, next_index}
use my_clox.Table.Slots.{at, is_empty, view, empty_slot, at-view, count, view-at, view-eq-none}
use my_clox.Table.Probe.{
  IsSize, IsSize-bounds, bit_and-mask, slot, slot-lt, slot_onto, next_index-slot, is_empty-key,
}
use my_clox.Table.Placed.{Reaches, start_slot}
use my_clox.Table.Valid.{IsValid}
use my_clox.Table.Methods.{lookup_at_zero, IsSize-of}
use my_clox.Strings.{ObjString, hash_string, is_text, find_string_loop, table_find_string, hash_of}
use my_clox.Strings.Bytes.{IsString, is_text_sound, is_text_complete}

module _ (object : Ptr → ObjString) (t : Table) (chars : List ℕ) where
  abbrev hash : ℕ
  hash = hash_string chars

  -- The entry's key has the text.
  abbrev matches : Entry → Bool
  matches e = not (e.key == null) && is_text (object e.key) chars (length chars) hash

  abbrev PassesText : ℕ → Type 0
  PassesText i = (is_empty (at t.entries i) ≡ false) × (matches (at t.entries i) ≡ false)

  abbrev DoesStop : ℕ → Type 0
  DoesStop i = (is_empty (at t.entries i) ≡ true) ⊎ (matches (at t.entries i) ≡ true)

  -- The search ended with `o` at the first slot that stops it.
  record Ends (o : Option Ptr) : Type 0 where
    steps : ℕ
    before : (j : ℕ) → j < steps → PassesText (slot t.capacity hash j)
    ends :
        (matches (at t.entries (slot t.capacity hash steps)) ≡ true)
          × (o ≡ some (at t.entries (slot t.capacity hash steps)).key)
        ⊎ (is_empty (at t.entries (slot t.capacity hash steps)) ≡ true) × (o ≡ none)

  not_stop : (i j : ℕ) → i ≡ j → PassesText i → DoesStop j → ⊥
  not_stop i j p (full, other) (inl free) =
      true≢false (sym free ∙ ap (λ (x : ℕ). is_empty (at t.entries x)) (sym p) ∙ full)
  not_stop i j p (full, other) (inr same) =
      true≢false (sym same ∙ ap (λ (x : ℕ). matches (at t.entries x)) (sym p) ∙ other)

  before_suc :
      (d : ℕ)
      → ((j : ℕ) → j < d → PassesText (slot t.capacity hash j))
      → PassesText (slot t.capacity hash d)
      → (j : ℕ) → j < suc d
      → PassesText (slot t.capacity hash j)
  before_suc d old new j lt = elim (eq_cases d j) [
    | inl e ↦ rw e at new
    | inr ne ↦ old j (omega arith)
  ]

  module _ (fuel i : ℕ) (lt : i < length t.entries) where
    text_empty :
        is_empty (at t.entries i) ≡ true
        → find_string_loop (suc fuel) object t chars (length chars) hash i ≡ some none
    unfolding find_string_loop is_empty
    text_empty h = ground (arith, get_elem?-get_or t.entries i blank lt)

    text_match :
        matches (at t.entries i) ≡ true
        → find_string_loop (suc fuel) object t chars (length chars) hash i
          ≡ some (some (at t.entries i).key)
    unfolding find_string_loop
    text_match h = ground (arith, get_elem?-get_or t.entries i blank lt)

    text_next :
        PassesText i
        → find_string_loop (suc fuel) object t chars (length chars) hash i
          ≡ find_string_loop fuel object t chars (length chars) hash (next_index t.capacity i)
    unfolding find_string_loop is_empty
    text_next h = ground (arith, get_elem?-get_or t.entries i blank lt)

  find_string_loop-Ends :
      IsSize t.capacity
      → length t.entries ≡ t.capacity
      → (fuel d : ℕ) → ((j : ℕ) → j < d → PassesText (slot t.capacity hash j))
      → (e : ℕ) → d ≤ e
      → e < d + fuel
      → DoesStop (slot t.capacity hash e)
      → (o : Option Ptr) × (find_string_loop fuel object t chars
            (length chars)
            hash
            (slot t.capacity hash d)
          ≡ some o)
        × Ends o
  find_string_loop-Ends s width zero d before e le lt stop = absurd (omega arith)
  find_string_loop-Ends s width (suc fuel) d before e le lt stop =
      let n = t.capacity in
      let i = slot n hash d in
      let inside : i < length t.entries = rw width (slot-lt n hash d (IsSize-bounds s).0) in
      elim (Bool-cases (is_empty (at t.entries i))) [
        | inl free ↦ (
          none,
          text_empty fuel i inside free,
          record { steps = d; before = before; ends = inr (free, refl) },
        )
        | inr full ↦ elim (Bool-cases (matches (at t.entries i))) [
          | inl same ↦ (
            some (at t.entries i).key,
            text_match fuel i inside same,
            record { steps = d; before = before; ends = inl (same, refl) },
          )
          | inr other ↦
              let ne : d ≢ e = λ p. not_stop i _ (ap (slot n hash) p) (full, other) stop in
              rw (text_next fuel i inside (full, other), next_index-slot s hash d)
                (find_string_loop-Ends s width fuel (suc d) (before_suc d before (full, other)) e
                  (omega arith) (omega arith) stop)
        ]
      ]

  one_real : 1 ≢ null
  one_real e = omega arith

  ran :
      (o : Option Ptr)
      → t.count ≢ 0
      → find_string_loop
          (length t.entries)
          object
          t
          chars
          (length chars)
          hash
          (bit_and hash (mask t.capacity))
        ≡ some o
      → table_find_string object t chars (length chars) hash ≡ some o
  unfolding table_find_string
  ran o some_key run = ground (arith, run)

  -- What a search for the text may return.
  abbrev pub Finds : Option Ptr → Type 0
  Finds none = (q : Ptr) → q ≢ null → view t.entries q ≢ none → (object q).chars ≢ chars
  Finds (some p) = (p ≢ null) × (view t.entries p ≢ none) × ((object p).chars ≡ chars)

  module _ (v : IsValid (hash_of object) t)
      (strings : (q : Ptr) → q ≢ null → view t.entries q ≢ none → IsString (object q)) where
    bound_slot :
        (q : Ptr)
        → view t.entries q ≢ none
        → (i : ℕ) × (i < length t.entries) × (q ≡ (at t.entries i).key)
    bound_slot q bound = elim (eq_cases (count q t.entries) 0) [
      | inl gone ↦ absurd (bound (view-eq-none q t.entries gone))
      | inr here ↦ at-view q t.entries (omega arith)
    ]

    matches_key :
        (q : Ptr) (e : Entry)
        → q ≢ null
        → q ≡ e.key
        → is_text (object q) chars (length chars) hash ≡ true
        → matches e ≡ true
    matches_key q e real key text =
        ground (arith, ap (λ (k : Ptr). is_text (object k) chars (length chars) hash) key)

    not_found :
        (m : ℕ)
        → ((j : ℕ) → j < m → PassesText (slot t.capacity hash j))
        → is_empty (at t.entries (slot t.capacity hash m)) ≡ true
        → Finds none
    not_found m before free q real bound same =
        let n = t.capacity in
        let es = t.entries in
        let w = strings q real bound in
        let (i, lt, key) = bound_slot q bound in
        let text = matches_key q (at es i) real key (is_text_complete (object q) chars w same) in
        let r =
          subst (λ k. Reaches (hash_of object) n es k i) (sym key)
            (v.placed.reach i (rw v.placed.width at lt) (λ z. real (key ∙ z))) in
        let home : hash_of object q ≡ hash = w.hash_eq ∙ ap hash_string same in
        let lands : slot n hash r.steps ≡ i =
          ap (λ (h : ℕ). slot n h r.steps) (sym home) ∙ r.lands in
        elim (dec_lt r.steps m) [
          | yes early ↦
              true≢false (
                sym text ∙ ap (λ (x : ℕ). matches (at es x)) (sym lands) ∙ (before r.steps early).1)
          | no late ↦ elim (dec_lt m r.steps) [
            | yes early ↦ true≢false (
                sym free
                ∙ ap (λ (h : ℕ). is_empty (at es (slot n h m))) (sym home)
                ∙ r.busy m early)
            | no later ↦
                let e : m ≡ r.steps = omega arith in
                let there : slot n hash m ≡ i = ap (slot n hash) e ∙ lands in
                real (key ∙ ap (λ (x : ℕ). (at es x).key) (sym there) ∙ is_empty-key _ free)
          ]
        ]

    found :
        (i : ℕ)
        → i < length t.entries
        → matches (at t.entries i) ≡ true
        → Finds (some (at t.entries i).key)
    found i lt m =
        let q = (at t.entries i).key in
        let real : q ≢ null = ground arith in
        let bound = view-at q t.entries i lt (v.placed.unique q real) refl in
        let there : view t.entries q ≢ none = λ z. cc in
        (real, there, is_text_sound (object q) chars (strings q real there) (ground arith))

    Finds-of_Ends : IsSize t.capacity → (o : Option Ptr) → Ends o → Finds o
    Finds-of_Ends s o x = elim x.ends [
      | inl (m, e) ↦
          rw e (found _ (rw v.placed.width (slot-lt t.capacity hash x.steps (IsSize-bounds s).0)) m)
      | inr (free, e) ↦ rw e (not_found x.steps x.before free)
    ]

    -- The search ends on every valid table of well-formed strings. It returns a bound key that
    -- has the text, or null where no bound key has it.
    pub table_find_string-Finds :
        (o : Option Ptr) × (table_find_string object t chars (length chars) (hash_string chars)
          ≡ some o)
        × Finds o
    unfolding table_find_string
    table_find_string-Finds = elim (eq_cases t.count 0) [
      | inl none_yet ↦ (
        none,
        ground arith,
        λ q real bound _. bound (lookup_at_zero (hash_of object) t q real v none_yet),
      )
      | inr some_key ↦
          let n = t.capacity in
          let s = IsSize-of (hash_of object) t 1 one_real v some_key in
          let (i, lt, free) =
            empty_slot t.entries (omega (arith, v.load, v.placed.width, IsSize-bounds s)) in
          let (e, inside, lands) = slot_onto n hash i (rw v.placed.width at lt) in
          let (o, run, x) =
            find_string_loop-Ends s v.placed.width (length t.entries) 0 (λ j h. elim h [ ]) e
              (omega arith) (omega (arith, v.placed.width)) (inl (rw lands free)) in
          (o, ran o some_key (rw (bit_and-mask s, start_slot n hash) run), Finds-of_Ends s o x)
    ]
