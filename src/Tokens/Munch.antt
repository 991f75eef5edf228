-- ===== src/Tokens/Munch.antt =====
-- `matchRegexes` takes the longest match, and a keyword before an identifier of the same length.
use my_clox.Prelude.{
  ℕ, ◌≤◌, ◌<◌, ◌≡◌, refl, Bool, true, false, ◌&&◌, ◌||◌, ltb, ◌==◌, if◌then◌else◌, arith, List, [],
  ◌∷◌, none, some, ◌∙◌, ap, sym, inl, inr, ◌⊎◌, Bool-cases, Option-cases, eq_cases, Elem, some_inj,
}
use my_clox.Tokens.{
  TokenType, token_error, token_identifier, regex_types, match_at, is_identifier, try_type,
  try_types, match_regexes,
}

record IsBest (source : List ℕ) (Seen : TokenType → Type 0) (t : TokenType × ℕ) : Type 0 where
  own : (t.1 ≡ 0) ⊎ (match_at t.0 source ≡ some t.1)
  most : (u : TokenType) → Seen u → (n : ℕ) → match_at u source ≡ some n → n ≤ t.1
  keyword :
      0 < t.1
      → is_identifier t.0 ≡ true
      → (u : TokenType) → Seen u
      → match_at u source ≡ some t.1
      → is_identifier u ≡ true

missed_found :
    (type u : TokenType) (source : List ℕ) (n : ℕ)
    → match_at type source ≡ none
    → u ≡ type
    → match_at u source ≡ some n
    → ⊥
missed_found type u source n missed same e =
    let both : none ≡ some n = sym missed ∙ ap (λ z. match_at z source) (sym same) ∙ e in
    ground (arith, both)

found_same :
    (type u : TokenType) (source : List ℕ) (n k : ℕ)
    → match_at type source ≡ some n
    → u ≡ type
    → match_at u source ≡ some k
    → k ≡ n
found_same type u source n k found same e =
    some_inj (sym e ∙ ap (λ z. match_at z source) same ∙ found)

module _ (source : List ℕ) (type best : TokenType) (len : ℕ) where
  stays_missed : match_at type source ≡ none → try_type source type (best, len) ≡ (best, len)
  unfolding try_type
  stays_missed missed = rw (try_type, missed) refl

  stays :
      (n : ℕ)
      → match_at type source ≡ some n
      → (ltb len n || is_identifier best && n == len) ≡ false
      → try_type source type (best, len) ≡ (best, len)
  unfolding try_type
  stays n found loses = rw (try_type, found, loses) refl

  moves :
      (n : ℕ)
      → match_at type source ≡ some n
      → (ltb len n || is_identifier best && n == len) ≡ true
      → try_type source type (best, len) ≡ (type, n)
  unfolding try_type
  moves n found wins = rw (try_type, found, wins) refl

-- A token that wins over an old one no longer than itself wins over an identifier.
tie :
    (ident : Bool) (n len : ℕ)
    → (ltb len n || ident && n == len) ≡ true
    → n ≤ len
    → (n ≡ len) × (ident ≡ true)
tie true n len wins le = (ground (arith, wins), refl)
tie false n len wins le = absurd (ground (arith, wins))

by_tie :
    (source : List ℕ) (Seen : TokenType → Type 0) (best : TokenType) (len : ℕ)
    → IsBest source Seen (best, len)
    → (n : ℕ) → (ltb len n || is_identifier best && n == len) ≡ true
    → 0 < n
    → (u : TokenType) → Seen u
    → match_at u source ≡ some n
    → is_identifier u ≡ true
by_tie source Seen best len b n wins pos u earlier e =
    let (same, ident) = tie (is_identifier best) n len wins (b.most u earlier n e) in
    b.keyword (omega (arith, same)) ident u earlier (e ∙ ap some same)

try_type-IsBest :
    (source : List ℕ) (Seen : TokenType → Type 0) (type best : TokenType) (len : ℕ)
    → IsBest source Seen (best, len)
    → IsBest source (λ u. (u ≡ type) ⊎ Seen u) (try_type source type (best, len))
try_type-IsBest source Seen type best len b = elim (Option-cases (match_at type source)) [
  | inl missed ↦ rw (stays_missed source type best len missed) (record {
    own = b.own;
    most = λ u seen n e. elim seen [
      | inl same ↦ absurd (missed_found type u source n missed same e)
      | inr earlier ↦ b.most u earlier n e
    ];
    keyword = λ pos ident u seen e. elim seen [
      | inl same ↦ absurd (missed_found type u source len missed same e)
      | inr earlier ↦ b.keyword pos ident u earlier e
    ];
  })
  | inr (n, found) ↦ elim (Bool-cases (ltb len n || is_identifier best && n == len)) [
    | inl wins ↦ rw (moves source type best len n found wins) (record {
      own = inr found;
      most = λ u seen k e. elim seen [
        | inl same ↦ omega (arith, found_same type u source n k found same e)
        | inr earlier ↦ ground (arith, wins, b.most u earlier k e)
      ];
      keyword = λ pos ident u seen e. elim seen [
        | inl same ↦ rw same ident
        | inr earlier ↦ by_tie source Seen best len b n wins pos u earlier e
      ];
    })
    | inr loses ↦ rw (stays source type best len n found loses) (record {
      own = b.own;
      most = λ u seen k e. elim seen [
        | inl same ↦ ground (arith, loses, found_same type u source n k found same e)
        | inr earlier ↦ b.most u earlier k e
      ];
      keyword = λ pos ident u seen e. elim seen [
        | inl same ↦
            absurd (ground (arith, loses, ident, found_same type u source n len found same e))
        | inr earlier ↦ b.keyword pos ident u earlier e
      ];
    })
  ]
]

IsBest-wider :
    (source : List ℕ) (Seen Seen' : TokenType → Type 0) (t : TokenType × ℕ)
    → ((u : TokenType) → Seen' u → Seen u)
    → IsBest source Seen t
    → IsBest source Seen' t
IsBest-wider source Seen Seen' t less b = record {
  own = b.own;
  most = λ u seen. b.most u (less u seen);
  keyword = λ pos ident u seen. b.keyword pos ident u (less u seen);
}

try_types-IsBest :
    (source : List ℕ) (types : List TokenType) (Seen : TokenType → Type 0) (t : TokenType × ℕ)
    → IsBest source Seen t
    → IsBest source (λ u. Elem u types ⊎ Seen u) (try_types source types t)
unfolding try_types
try_types-IsBest source [] Seen t b =
    IsBest-wider source Seen (λ u. ⊥ ⊎ Seen u) t
      (λ u seen. elim seen [ inl gone ↦ elim gone [ ] | inr here ↦ here ]) b
try_types-IsBest source (type ∷ types) Seen t b =
    IsBest-wider source (λ u. Elem u types ⊎ ((u ≡ type) ⊎ Seen u))
      (λ u. ((u ≡ type) ⊎ Elem u types) ⊎ Seen u) (try_types source types (try_type source type t))
      (λ u seen. elim seen [
        | inl (inl same) ↦ inr (inl same)
        | inl (inr later) ↦ inl later
        | inr earlier ↦ inr (inr earlier)
      ])
      (try_types-IsBest source types (λ u. (u ≡ type) ⊎ Seen u) (try_type source type t)
        (try_type-IsBest source Seen type t.0 t.1 b))

match_regexes-error :
    (junk : TokenType) (source : List ℕ) (t : TokenType × ℕ)
    → try_types source regex_types (junk, 0) ≡ t
    → t.1 ≡ 0
    → match_regexes junk source ≡ (token_error, 0)
unfolding match_regexes
match_regexes-error junk source t e zero_long =
    ap (λ (z : TokenType × ℕ). if z.1 == 0 then (token_error, z.1) else z) e
    ∙ ap (λ (n : ℕ). if n == 0 then (token_error, n) else (t.0, n)) zero_long

match_regexes-best :
    (junk : TokenType) (source : List ℕ) (t : TokenType × ℕ)
    → try_types source regex_types (junk, 0) ≡ t
    → (t.1 ≡ 0 → ⊥)
    → match_regexes junk source ≡ t
unfolding match_regexes
match_regexes-best junk source t e some_long =
    ap (λ (z : TokenType × ℕ). if z.1 == 0 then (token_error, z.1) else z) e
    ∙ ap (λ b. if b then (token_error, t.1) else t) (differs t.1 some_long)
  where
    differs : (n : ℕ) → (n ≡ 0 → ⊥) → (n == 0) ≡ false
    differs n h = ground arith

false≢true : false ≡ true → ⊥
false≢true e = ground (arith, e)

-- The result of `matchRegexes`: an error where no expression matches a character, or the longest
-- match.
pub record Munches (source : List ℕ) (t : TokenType × ℕ) : Type 0 where
  pub own : ((t.0 ≡ token_error) × (t.1 ≡ 0)) ⊎ ((match_at t.0 source ≡ some t.1) × (0 < t.1))
  pub most : (u : TokenType) → Elem u regex_types → (n : ℕ) → match_at u source ≡ some n → n ≤ t.1
  pub keyword :
      t.0 ≡ token_identifier
      → (u : TokenType) → Elem u regex_types
      → match_at u source ≡ some t.1
      → is_identifier u ≡ true

-- `matchRegexes` returns an error of length 0 where no expression matches a character; otherwise a
-- type whose expression matches that many characters, which is no less than any other expression
-- matches; an identifier only where no other expression matches as many. What `token.type` holds
-- before the loop does not matter.
pub match_regexes-Munches :
    (junk : TokenType) (source : List ℕ) → Munches source (match_regexes junk source)
match_regexes-Munches junk source = finish (try_types source regex_types (junk, 0)) refl (
    try_types-IsBest source regex_types (λ u. ⊥) (junk, 0)
      (record {
        own = inl refl;
        most = λ u gone. elim gone [ ];
        keyword = λ pos ident u gone. elim gone [ ];
      }))
  where
    finish :
        (t : TokenType × ℕ)
        → try_types source regex_types (junk, 0) ≡ t
        → IsBest source (λ u. Elem u regex_types ⊎ ⊥) t
        → Munches source (match_regexes junk source)
    finish t e b = elim (eq_cases t.1 0) [
      | inl zero_long ↦ rw (match_regexes-error junk source t e zero_long) (record {
        own = inl (refl, refl);
        most = λ u seen n found. omega (arith, zero_long, b.most u (inl seen) n found);
        keyword = λ ident. absurd (false≢true (ap is_identifier ident));
      })
      | inr some_long ↦ rw (match_regexes-best junk source t e some_long) (record {
        own = elim b.own [
          | inl zero_long ↦ absurd (some_long zero_long)
          | inr found ↦ inr (found, omega (arith, some_long))
        ];
        most = λ u seen. b.most u (inl seen);
        keyword = λ ident u seen.
            b.keyword (omega (arith, some_long)) (ap is_identifier ident) u (inl seen);
      })
    ]
