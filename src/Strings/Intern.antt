-- ===== src/Strings/Intern.antt =====
-- `copyString`: a text has one string object, and asking again gives the same address.
use my_clox.Prelude.{
  ℕ, ◌<◌, ◌^◌, ◌≡◌, ◌≢◌, refl, Bool, ◌==◌, if◌then◌else◌, arith, List, Option, none, some, length,
  ◌⊎◌, inl, inr, eq_cases, sym, ap, ◌∙◌,
}
use my_clox.Value.{Ptr, null, nil_val}
use my_clox.Table.{Table, table_set}
use my_clox.Table.Slots.{at, is_empty, view, count-at, count-eq-zero}
use my_clox.Table.Probe.{slot}
use my_clox.Table.Valid.{IsValid}
use my_clox.Table.Methods.{Sets, table_set-Sets}
use my_clox.Strings.{
  ObjString, Strings, hash_string, table_find_string, hash_of, update, allocate_string, copy_string,
}
use my_clox.Strings.Bytes.{IsString}
use my_clox.Strings.Find.{Finds, table_find_string-Finds}

abbrev pub IsInterned : Strings → Ptr → Type 0
IsInterned s q = (q ≢ null) × (view s.table.entries q ≢ none)

-- The table is valid, its keys are well-formed strings, and no two have the same bytes.
pub record IsPool (s : Strings) : Type 0 where
  pub valid : IsValid (hash_of s.object) s.table
  pub strings : (q : Ptr) → q ≢ null → view s.table.entries q ≢ none → IsString (s.object q)
  pub distinct :
      (p q : Ptr)
      → IsInterned s p
      → IsInterned s q
      → (s.object p).chars ≡ (s.object q).chars
      → p ≡ q

-- The address that the allocator returns is not null and holds no interned string.
abbrev pub IsFresh : Strings → Ptr → Type 0
IsFresh s p = (p ≢ null) × (view s.table.entries p ≡ none)

-- A table stays valid where the hashes of its keys stay.
IsValid-congr :
    (hash hash' : Ptr → ℕ) (t : Table)
    → ((q : Ptr) → q ≢ null → view t.entries q ≢ none → hash q ≡ hash' q)
    → IsValid hash t
    → IsValid hash' t
IsValid-congr hash hash' t same v = record {
  sized = v.sized;
  placed = record {
    width = v.placed.width;
    reach = λ i lt real.
        let r = v.placed.reach i lt real in
        let e = same _ real (bound i (rw v.placed.width lt) real) in
        record {
          steps = r.steps;
          lands = ap (λ (h : ℕ). slot t.capacity h r.steps) (sym e) ∙ r.lands;
          busy = λ j h.
              ap (λ (k : ℕ). is_empty (at t.entries (slot t.capacity k j))) (sym e) ∙ r.busy j h;
        };
    unique = v.placed.unique;
  };
  counted = v.counted;
  load = v.load;
  bare = v.bare;
}
  where
    bound :
        (i : ℕ)
        → i < length t.entries
        → (at t.entries i).key ≢ null
        → view t.entries (at t.entries i).key ≢ none
    bound i lt real z = omega (
      arith,
      count-at (at t.entries i).key t.entries i lt refl,
      count-eq-zero (at t.entries i).key t.entries z,
    )

-- What `copyString` returned for the text.
pub record Copies (s : Strings) (chars : List ℕ) (r : Ptr × Strings) : Type 0 where
  pub pool : IsPool r.1
  pub interned : IsInterned r.1 r.0
  pub text : (r.1.object r.0).chars ≡ chars
  pub kept : (q : Ptr) → IsInterned s q → IsInterned r.1 q × (r.1.object q ≡ s.object q)
  pub shared : (q : Ptr) → IsInterned s q → (s.object q).chars ≡ chars → r ≡ (q, s)

module _ (s : Strings) (chars : List ℕ) (fresh : Ptr) (pool : IsPool s) where
  copy_of_found :
      (p : Ptr)
      → table_find_string s.object s.table chars (length chars) (hash_string chars) ≡ some (some p)
      → copy_string s fresh chars ≡ some (p, s)
  unfolding copy_string
  copy_of_found p run = ground (arith, run)

  found-Copies : (p : Ptr) → Finds s.object s.table chars (some p) → Copies s chars (p, s)
  found-Copies p (real, bound, text) = record {
    pool = pool;
    interned = (real, bound);
    text = text;
    kept = λ q h. (h, refl);
    shared = λ q h e. ap (λ (x : Ptr). (x, s)) (pool.distinct p q (real, bound) h (text ∙ sym e));
  }

  module _ (free : IsFresh s fresh) (small : s.table.capacity < 2 ^ 30) where
    made : ObjString
    made = record { length = length chars; chars = chars; hash = hash_string chars }

    stays : (q : Ptr) → view s.table.entries q ≢ none → update s.object fresh made q ≡ s.object q
    stays q bound = elim (eq_cases q fresh) [
      | inl same ↦ absurd (bound (ap (view s.table.entries) same ∙ free.1))
      | inr other ↦ ground arith
    ]

    made_self : update s.object fresh made fresh ≡ made
    made_self = ground arith

    object' : Ptr → ObjString
    object' = update s.object fresh made

    object'-IsValid : IsValid (hash_of object') s.table
    unfolding object'
    object'-IsValid =
        IsValid-congr (hash_of s.object) (hash_of object') s.table
          (λ q real bound. ap (λ (x : ObjString). x.hash) (sym (stays q bound))) pool.valid

    module _ (r : Bool × Table) (w : Sets (hash_of object') s.table fresh nil_val r)
        (absent : Finds s.object s.table chars none) where
      abbrev s' : Strings
      s' = record { object = object'; table = r.1 }

      -- An interned string of the new state is the new one, or an old one with its old contents.
      split :
          (q : Ptr)
          → IsInterned s' q
          → (q ≡ fresh) × (object' q ≡ made) ⊎ IsInterned s q × (object' q ≡ s.object q)
      unfolding object'
      split q (real, bound) = elim (eq_cases q fresh) [
        | inl same ↦ inl (same, ap (update s.object fresh made) same ∙ made_self)
        | inr other ↦
            let e : view r.1.entries q ≡ view s.table.entries q = ground (arith, w.reads q real) in
            let old : view s.table.entries q ≢ none = λ z. bound (e ∙ z) in
            inr ((real, old), stays q old)
      ]

      new-IsString : (q : Ptr) → IsInterned s' q → IsString (object' q)
      unfolding made
      new-IsString q h = elim (split q h) [
        | inl (same, e) ↦ rw e (record { length_eq = refl; hash_eq = refl })
        | inr (old, e) ↦ rw e (pool.strings q old.0 old.1)
      ]

      chars_made : made.chars ≡ chars
      unfolding made
      chars_made = refl

      text_of : {a b : ObjString} → a ≡ b → a.chars ≡ b.chars
      text_of e = ap (λ (x : ObjString). x.chars) e

      new-distinct :
          (p q : Ptr)
          → IsInterned s' p
          → IsInterned s' q
          → (object' p).chars ≡ (object' q).chars
          → p ≡ q
      new-distinct p q hp hq e = elim (split p hp) [
        | inl (p_new, ep) ↦ elim (split q hq) [
          | inl (q_new, eq) ↦ p_new ∙ sym q_new
          | inr (q_old, eq) ↦
              absurd (absent q q_old.0 q_old.1 (sym (text_of eq) ∙ sym e ∙ text_of ep ∙ chars_made))
        ]
        | inr (p_old, ep) ↦ elim (split q hq) [
          | inl (q_new, eq) ↦
              absurd (absent p p_old.0 p_old.1 (sym (text_of ep) ∙ e ∙ text_of eq ∙ chars_made))
          | inr (q_old, eq) ↦ pool.distinct p q p_old q_old (sym (text_of ep) ∙ e ∙ text_of eq)
        ]
      ]

      new_bound : (q : Ptr) → IsInterned s q → IsInterned s' q × (object' q ≡ s.object q)
      unfolding object'
      new_bound q (real, bound) =
          ((real, λ z. bound (sym (reads_old q real bound) ∙ z)), stays q bound)
        where
          reads_old :
              (q : Ptr)
              → q ≢ null
              → view s.table.entries q ≢ none
              → view r.1.entries q ≡ view s.table.entries q
          reads_old q real bound = elim (eq_cases q fresh) [
            | inl same ↦ absurd (bound (ap (view s.table.entries) same ∙ free.1))
            | inr other ↦ ground (arith, w.reads q real)
          ]

      new-Copies : Copies s chars (fresh, s')
      unfolding object'
      new-Copies = record {
        pool = record {
          valid = w.valid;
          strings = λ q real bound. new-IsString q (real, bound);
          distinct = new-distinct;
        };
        interned = (free.0, λ z. fresh_bound (w.reads fresh free.0) z);
        text = text_of made_self ∙ chars_made;
        kept = new_bound;
        shared = λ q h e. absurd (absent q h.0 h.1 e);
      }
        where
          fresh_bound :
              view r.1.entries fresh
                ≡ (if fresh == fresh then some nil_val else view s.table.entries fresh)
              → view r.1.entries fresh ≡ none
              → ⊥
          fresh_bound e z = ground arith

    copy_of_new :
        (r : Bool × Table)
        → table_find_string s.object s.table chars (length chars) (hash_string chars) ≡ some none
        → table_set (hash_of object') s.table fresh nil_val ≡ some r
        → copy_string s fresh chars ≡ some (fresh, record { object = object'; table = r.1 })
    unfolding copy_string allocate_string object' made
    copy_of_new (is_new, table) run set = ground (arith, run, set)

    -- Interning ends on every pool of strings with room for one more key. It returns an interned
    -- string with the text, keeps the pool and every string of it, and makes nothing where a
    -- string with the text was interned: that one is returned.
    pub copy_string-Copies :
        (r : Ptr × Strings) × (copy_string s fresh chars ≡ some r) × Copies s chars r
    copy_string-Copies =
        finish (table_find_string-Finds s.object s.table chars pool.valid pool.strings)
      where
        finish :
            ((o : Option Ptr) × (table_find_string s.object s.table chars
                  (length chars)
                  (hash_string chars)
                ≡ some o)
              × Finds s.object s.table chars o)
            → (r : Ptr × Strings) × (copy_string s fresh chars ≡ some r) × Copies s chars r
        finish (some p, run, f) = ((p, s), copy_of_found p run, found-Copies p f)
        finish (none, run, f) =
            let (r, set, w) =
              table_set-Sets (hash_of object') s.table fresh free.0 nil_val object'-IsValid small in
            (
              (fresh, record { object = object'; table = r.1 }),
              copy_of_new r run set,
              new-Copies r w f,
            )
