-- ===== src/Scanner/Scan.antt =====
-- `scanToken`: one call, from the white space that it skips to the token that it makes.
use my_clox.Prelude.{
  ℕ, suc, ◌+◌, ◌-◌, ◌≤◌, ◌<◌, ◌≡◌, ◌≢◌, refl, Bool, true, false, ◌==◌, if◌then◌else◌, arith, List,
  [], ◌∷◌, none, some, length, take, drop, sym, ◌∙◌, inl, inr, ◌⊎◌, subst, Bool-cases, Option-cases,
}
use my_clox.Chunk.{Position}
use my_clox.Tokens.{
  TokenType, token_error, token_semicolon, token_eof, regex_of, match_at, match_regexes,
}
use my_clox.Tokens.Search.{match_at-Finds}
use my_clox.Tokens.Munch.{match_regexes-Munches}
use my_clox.Scanner.{
  Scanner, Token, is_error, is_at_end, make_token, advance, error_token, unexpected,
  skip_whitespace, scan_here, scan_token, step,
}
use my_clox.Scanner.Moves.{
  IsSource, drop-IsSource, moved, position_after, advance_n-moved, scanner_at, drop_plus,
  position_after-plus, length-drop,
}
use my_clox.Scanner.Skip.{Skips, skip_whitespace-Skips}

-- What a call makes of the text after white space: the kind and length of the token, how much is
-- consumed, and repl mode afterwards.
pub data Outcome (junk : TokenType) (rest : List ℕ) (repl : Bool)
    : TokenType → ℕ → ℕ → Bool → Type 0 where
  ended : rest ≡ [] → Outcome junk rest repl (if repl then token_semicolon else token_eof) 0 0 false
  refused :
      0 < length rest
      → match_regexes junk rest ≡ (token_error, 0)
      → Outcome junk rest repl token_error (length unexpected) 1 repl
  scanned :
      (type : TokenType) (n : ℕ)
      → match_regexes junk rest ≡ (type, n)
      → 0 < n
      → n ≤ length rest
      → Outcome junk rest repl type n n repl

pub record Scans (junk : TokenType) (s : Scanner) (r : Token × Scanner) : Type 0 where
  pub skipped : ℕ
  pub consumed : ℕ
  pub skips : Skips s.current skipped
  pub outcome :
      Outcome junk (drop skipped s.current) s.repl_mode r.0.type r.0.length consumed r.1.repl_mode
  pub text :
      ((r.0.type ≡ token_error) × (r.0.start ≡ unexpected)) ⊎ (r.0.start ≡ drop skipped s.current)
  pub left : r.1.current ≡ drop (skipped + consumed) s.current
  pub position : r.1.position ≡ position_after (take (skipped + consumed) s.current) s.position

-- The same from where white space ends.
record Here (junk : TokenType) (rest : List ℕ) (p : Position) (repl : Bool) (r : Token × Scanner)
    : Type 0 where
  consumed : ℕ
  outcome : Outcome junk rest repl r.0.type r.0.length consumed r.1.repl_mode
  text : ((r.0.type ≡ token_error) × (r.0.start ≡ unexpected)) ⊎ (r.0.start ≡ rest)
  left : r.1.current ≡ drop consumed rest
  position : r.1.position ≡ position_after (take consumed rest) p

no_regex : (type : TokenType) → is_error type ≡ true → regex_of type ≡ none
unfolding regex_of
no_regex token_error e = refl
no_regex _ e = absurd (ground (arith, e))

match_at-none :
    (type : TokenType) (rest : List ℕ) → regex_of type ≡ none → match_at type rest ≡ none
unfolding match_at
match_at-none type rest missing = rw (match_at, missing) refl

-- An expression that matches is not the error's, and its match is within the text.
matched_real :
    (type : TokenType) (rest : List ℕ) (n : ℕ)
    → match_at type rest ≡ some n
    → (is_error type ≡ false) × (n ≤ length rest)
matched_real type rest n found = (
  elim (Bool-cases (is_error type)) [
    | inl error ↦ absurd (impossible (no_regex type error))
    | inr fine ↦ fine
  ],
  elim (Option-cases (regex_of type)) [
    | inl missing ↦ absurd (impossible missing)
    | inr (r, is_r) ↦ ((match_at-Finds type r rest is_r).found n found).1
  ],
)
  where
    impossible : regex_of type ≡ none → ⊥
    impossible missing =
        let both : none ≡ some n = sym (match_at-none type rest missing) ∙ found in
        ground (arith, both)

from_end :
    (junk : TokenType) (p : Position) (repl : Bool)
    → (r : Token × Scanner) × (scan_here junk (scanner_at [] [] p repl) ≡ some r)
      × Here junk [] p repl r
unfolding scan_here is_at_end make_token position_after
from_end junk p true = (
  (
    record { type = token_semicolon; start = []; length = 0; position = p },
    scanner_at [] [] p false,
  ),
  refl,
  record { consumed = 0; outcome = ended refl; text = inr refl; left = refl; position = refl },
)
from_end junk p false = (
  (record { type = token_eof; start = []; length = 0; position = p }, scanner_at [] [] p false),
  refl,
  record { consumed = 0; outcome = ended refl; text = inr refl; left = refl; position = refl },
)

module _ (junk : TokenType) (c : ℕ) (w : List ℕ) (p : Position) (repl : Bool) (real : c ≢ 0) where
  run_error :
      match_regexes junk (c ∷ w) ≡ (token_error, 0)
      → scan_here junk (scanner_at (c ∷ w) (c ∷ w) p repl)
        ≡ some (
          record {
            type = token_error;
            start = unexpected;
            length = length unexpected;
            position = p;
          },
          scanner_at (c ∷ w) w (step c p) repl,
        )
  unfolding scan_here is_at_end error_token advance
  run_error matched = let live : (c == 0) ≡ false = ground (arith, real) in rw (live, matched) refl

  run_token :
      (type : TokenType) (n : ℕ)
      → match_regexes junk (c ∷ w) ≡ (type, n)
      → is_error type ≡ false
      → n ≤ length (c ∷ w)
      → let s = moved n (scanner_at (c ∷ w) (c ∷ w) p repl) in
        scan_here junk (scanner_at (c ∷ w) (c ∷ w) p repl) ≡ some (make_token type s, s)
  unfolding scan_here is_at_end
  run_token type n matched fine le =
      let live : (c == 0) ≡ false = ground (arith, real) in
      rw (live, matched, fine, advance_n-moved n (c ∷ w) (c ∷ w) p repl le) refl

  from_error :
      match_regexes junk (c ∷ w) ≡ (token_error, 0)
      → (r : Token × Scanner) × (scan_here junk (scanner_at (c ∷ w) (c ∷ w) p repl) ≡ some r)
        × Here junk (c ∷ w) p repl r
  unfolding position_after
  from_error matched = (
    _,
    run_error matched,
    record {
      consumed = 1;
      outcome = refused (omega arith) matched;
      text = inl (refl, refl);
      left = refl;
      position = refl;
    },
  )

  from_token :
      (type : TokenType) (n : ℕ)
      → match_regexes junk (c ∷ w) ≡ (type, n)
      → is_error type ≡ false
      → 0 < n
      → n ≤ length (c ∷ w)
      → (r : Token × Scanner) × (scan_here junk (scanner_at (c ∷ w) (c ∷ w) p repl) ≡ some r)
        × Here junk (c ∷ w) p repl r
  unfolding moved make_token
  from_token type n matched fine pos le = (
    _,
    run_token type n matched fine le,
    record {
      consumed = n;
      outcome =
          (let long : length (c ∷ w) - length (drop n (c ∷ w)) ≡ n =
              omega (arith, length-drop n (c ∷ w) le) in
            subst (λ l. Outcome junk (c ∷ w) repl type l n repl) (sym long)
              (scanned type n matched pos le));
      text = inr refl;
      left = refl;
      position = refl;
    },
  )

  from_more :
      (r : Token × Scanner) × (scan_here junk (scanner_at (c ∷ w) (c ∷ w) p repl) ≡ some r)
      × Here junk (c ∷ w) p repl r
  from_more = elim (match_regexes-Munches junk (c ∷ w)).own [
    | inl (error, empty) ↦ from_error (λ i. (error i, empty i))
    | inr (found, pos) ↦
        let matched = match_regexes junk (c ∷ w) in
        let (fine, le) = matched_real matched.0 (c ∷ w) matched.1 found in
        from_token matched.0 matched.1 refl fine pos le
  ]

from_any :
    (junk : TokenType) (rest : List ℕ) (p : Position) (repl : Bool)
    → IsSource rest
    → (r : Token × Scanner) × (scan_here junk (scanner_at rest rest p repl) ≡ some r)
      × Here junk rest p repl r
from_any junk [] p repl ok = from_end junk p repl
from_any junk (c ∷ w) p repl (real, ok) = from_more junk c w p repl real

scan_run :
    (junk : TokenType) (s s' : Scanner)
    → skip_whitespace (suc (length s.current)) s ≡ some s'
    → scan_token junk s ≡ scan_here junk (scanner_at s'.current s'.current s'.position s'.repl_mode)
unfolding scan_token
scan_run junk s s' run = rw run refl

-- A call of `scanToken` returns on every source without a zero byte. It skips all white space
-- and comments; at the end it makes the end of file, or once in repl mode a semicolon; where no
-- token matches it makes an error and consumes one character; otherwise it consumes the longest
-- match, which is the token's text, and is not empty. The position is moved over what is skipped
-- and consumed.
pub scan_token-Scans :
    (junk : TokenType) (s : Scanner)
    → IsSource s.current
    → (r : Token × Scanner) × (scan_token junk s ≡ some r) × Scans junk s r
unfolding moved
scan_token-Scans junk s ok =
    let (k, skips, le, run) =
      skip_whitespace-Skips (suc (length s.current)) s.start s.current s.position s.repl_mode ok
        (omega arith) in
    let rest = drop k s.current in
    let p = position_after (take k s.current) s.position in
    let (r, run', h) = from_any junk rest p s.repl_mode (drop-IsSource k s.current ok) in
    (
      r,
      scan_run junk s (moved k s) run ∙ run',
      record {
        skipped = k;
        consumed = h.consumed;
        skips = skips;
        outcome = h.outcome;
        text = h.text;
        left = h.left ∙ drop_plus k h.consumed s.current;
        position = h.position ∙ position_after-plus k h.consumed s.current s.position;
      },
    )
