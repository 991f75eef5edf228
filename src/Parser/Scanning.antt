-- ===== src/Parser/Scanning.antt =====
-- One call of `scanToken` from the parser.
use my_clox.Prelude.{
  ℕ, zero, suc, ◌+◌, ◌≤◌, ◌<◌, ◌≡◌, ◌≢◌, refl, ap, sym, subst, ◌∙◌, Bool, true, false, arith, List,
  [], ◌∷◌, drop, length, none, some, inl, inr,
}
use my_clox.Tokens.{TokenType, token_eof, match_regexes, match_at, regex_of}
use my_clox.Tokens.Munch.{Munches, match_regexes-Munches}
use my_clox.Tokens.Numbers.{type_number}
use my_clox.Scanner.{Token, Scanner, scan_token}
use my_clox.Scanner.Moves.{IsSource, drop-IsSource, length-drop, drop_plus}
use my_clox.Scanner.Scan.{
  Outcome, Outcome.ended, Outcome.refused, Outcome.scanned, scan_token-Scans,
}
use my_clox.Parser.{Host, State, scan}
use my_clox.Parser.Steps.{left, left_of, waiting, Sound, Kept, Returns}

no_match : (type : TokenType) (rest : List ℕ) → type_number type ≡ 38 → match_at type rest ≡ none
unfolding match_at regex_of
no_match token_eof rest e = refl
no_match _ rest e = absurd (omega arith)

matched_token :
    (junk : TokenType) (rest : List ℕ) (type : TokenType) (n : ℕ)
    → match_regexes junk rest ≡ (type, n)
    → 0 < n
    → type_number type ≢ 38
matched_token junk rest type n run pos e =
    elim (subst (λ t. Munches rest t) run (match_regexes-Munches junk rest)).own [
      | inl (_, none_long) ↦ omega arith
      | inr (found, _) ↦
          let both : none ≡ some n = sym (no_match type rest e) ∙ found in
          absurd (ground (arith, both))
    ]

length-drop-le : (k : ℕ) (w : List ℕ) → length (drop k w) ≤ length w
length-drop-le zero w = omega arith
length-drop-le (suc k) [] = omega arith
length-drop-le (suc k) (c ∷ w) = omega (arith, length-drop-le k w)

-- What a call of `scanToken` leaves, with the token that it makes.
outcome-left :
    (junk : TokenType) (rest : List ℕ) (repl : Bool) (type : TokenType) (n consumed : ℕ)
    (repl' : Bool)
    → Outcome junk rest repl type n consumed repl'
    → (left_of (drop consumed rest) repl' + waiting (type_number type) ≤ left_of rest repl)
      × (type_number type ≡ 38 → left_of (drop consumed rest) repl' ≡ 0)
outcome-left junk rest true _ _ _ _ (ended e) = rw e (omega arith, λ t. refl)
outcome-left junk rest false _ _ _ _ (ended e) = rw e (omega arith, λ t. refl)
outcome-left junk rest repl _ _ _ _ (refused pos run) =
    (ground (arith, length-drop 1 rest), λ t. absurd (ground (arith, t)))
outcome-left junk rest repl _ _ _ _ (scanned type n run pos le) =
    (ground (arith, length-drop n rest), λ t. absurd (matched_token junk rest type n run pos t))

pub record Scanned (s : State) (token : Token) (s' : State) : Type 0 where
  pub current : s'.current ≡ token
  pub previous : s'.previous ≡ s.previous
  pub kept : Kept s s'
  pub sound : Sound s'
  pub le : left s' + waiting (type_number token.type) ≤ left s
  pub ended : type_number token.type ≡ 38 → left s' ≡ 0

scan_run :
    (host : Host) (s : State) (token : Token) (scanner : Scanner)
    → scan_token host.junk_type s.scanner ≡ some (token, scanner)
    → scan host s ≡ some (token, record s { current = token; scanner = scanner })
unfolding scan
scan_run host s token scanner run = rw (run, scan) refl

pub scan-Scanned : (host : Host) (s : State) → Sound s → Returns host scan s (Scanned s)
scan-Scanned host s h =
    let ((token, scanner), run, scans) = scan_token-Scans host.junk_type s.scanner h.source in
    let text = s.scanner.current in
    let same = scans.left ∙ sym (drop_plus scans.skipped scans.consumed text) in
    let (le, at_end) =
      outcome-left host.junk_type (drop scans.skipped text) s.scanner.repl_mode token.type
        token.length scans.consumed scanner.repl_mode scans.outcome in
    (
      token,
      record s { current = token; scanner = scanner },
      scan_run host s token scanner run,
      record {
        current = refl;
        previous = refl;
        kept = record { errors = λ e. e; frames = refl; classes = refl };
        sound = record {
          source = subst IsSource (sym scans.left) (drop-IsSource _ text h.source);
          panic = h.panic;
          chained = h.chained;
          compiling = h.compiling;
        };
        le = omega (arith, ap length same, length-drop-le scans.skipped text, le);
        ended = λ e. omega (arith, ap length same, at_end e);
      },
    )
