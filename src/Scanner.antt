-- ===== src/Scanner.antt =====
-- src/scanner.c: the scanner on a source of bytes, without the final zero: `start` and `current` are
-- what is left from there. The file's name is left out. `none` is a step past the final zero, or a
-- loop that runs out of rounds; the loops get one for each character, and one to stop.
pub mod Moves
pub mod Skip
pub mod Scan
use my_clox.Prelude.{
  ◌>>=◌, ℕ, zero, suc, ◌+◌, ◌-◌, Bool, true, false, not, ◌&&◌, ◌||◌, leb, ◌==◌, if◌then◌else◌, List,
  [], ◌∷◌, Option, none, some, length,
}
use my_clox.Chunk.{Position}
use my_clox.Tokens.{TokenType, token_semicolon, token_eof, token_error, match_regexes}

pub record Scanner : Type 0 where
  pub start : List ℕ
  pub current : List ℕ
  pub position : Position
  pub repl_mode : Bool

pub record Token : Type 0 where
  pub type : TokenType
  pub start : List ℕ
  pub length : ℕ
  pub position : Position

unfoldable pub init_scanner : List ℕ → Bool → Scanner
init_scanner source repl_mode = record {
  start = source;
  current = source;
  position = record { line = 1; column = 1 };
  repl_mode = repl_mode;
}

-- The read of `*current`, which is 0 at the end.
abbrev pub first : List ℕ → ℕ
first [] = 0
first (c ∷ rest) = c

-- A zero byte ends the source.
unfoldable pub is_at_end : Scanner → Bool
is_at_end s = first s.current == 0

unfoldable pub make_token : TokenType → Scanner → Token
make_token type s = record {
  type = type;
  start = s.start;
  length = length s.start - length s.current;
  position = s.position;
}

abbrev pub step : ℕ → Position → Position
step c position = if c == 10 then record { line = position.line + 1; column = 0 } else position

unfoldable pub advance : Scanner → Option Scanner
advance s = elim s.current [
  | [] ↦ none
  | c ∷ rest ↦ some (record s { current = rest; position = step c s.position })
]

unfoldable pub advance_n : ℕ → Scanner → Option Scanner
advance_n zero s = some s
advance_n (suc n) s = advance s >>= advance_n n

unfoldable pub error_token : List ℕ → Scanner → Option (Token × Scanner)
error_token message s = advance s >>= (λ s'. some (
  record {
    type = token_error;
    start = message;
    length = my_clox.Prelude.length message;
    position = s.position;
  },
  s',
))

unfoldable pub peek : Scanner → ℕ
peek s = first s.current

unfoldable pub peek_next : Scanner → ℕ
peek_next s = elim s.current [ [] ↦ 0 | c ∷ rest ↦ if is_at_end s then 0 else first rest ]

-- `isspace` of the C locale
abbrev pub is_space : ℕ → Bool
is_space c = leb 9 c && leb c 13 || c == 32

unfoldable pub skip_line : ℕ → Scanner → Option Scanner
skip_line zero s = none
skip_line (suc fuel) s =
    if not (peek s == 10) && not (is_at_end s) then advance s >>= skip_line fuel else some s

unfoldable pub skip_whitespace : ℕ → Scanner → Option Scanner
skip_whitespace zero s = none
skip_whitespace (suc fuel) s =
    if is_space (peek s)
    then advance s >>= skip_whitespace fuel
    else if peek s == 47 && peek_next s == 47
    then skip_line (suc (length s.current)) s >>= skip_whitespace fuel
    else some s

-- "Unexpected character."
abbrev pub unexpected : List ℕ
unexpected =
    85 ∷ 110 ∷ 101 ∷ 120 ∷ 112 ∷ 101 ∷ 99 ∷ 116 ∷ 101 ∷ 100 ∷ 32 ∷ 99 ∷ 104 ∷ 97 ∷ 114 ∷ 97 ∷ 99
    ∷ 116 ∷ 101 ∷ 114 ∷ 46 ∷ []

abbrev pub is_error : TokenType → Bool
is_error token_error = true
is_error _ = false

-- `junk` is what the uninitialised `token.type` of `matchRegexes` holds.
unfoldable pub scan_here : TokenType → Scanner → Option (Token × Scanner)
scan_here junk s =
    if is_at_end s
    then (if s.repl_mode
        then some (make_token token_semicolon s, record s { repl_mode = false })
        else some (make_token token_eof s, s))
    else let matched = match_regexes junk s.current in
      if is_error matched.0
      then error_token unexpected s
      else advance_n matched.1 s >>= (λ s'. some (make_token matched.0 s', s'))

unfoldable pub scan_token : TokenType → Scanner → Option (Token × Scanner)
scan_token junk s =
    skip_whitespace (suc (length s.current)) s
    >>= (λ s'. scan_here junk (record s' { start = s'.current }))
