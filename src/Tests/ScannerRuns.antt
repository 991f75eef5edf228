-- ===== src/Tests/ScannerRuns.antt =====
-- src/tokens_regexes.c and src/scanner.c on short sources.
use my_clox.Prelude.{
  none, length, if◌then◌else◌, ℕ, ◌≡◌, ◌≢◌, ◌+◌, refl, true, false, ◌==◌, if◌then◌else◌, arith,
  List, [], ◌∷◌, some, ◌≤◌,
}
use my_clox.Chunk.{Position}
use my_clox.Tokens.{
  token_error, token_identifier, token_and, token_number, regex_of, lengths, longest, regexec,
  from_start, match_at, try_type, try_types, match_regexes,
}
use my_clox.Tokens.Spelling.{codes, starts_with, match_at-spelling}
use my_clox.Tokens.Munch.{Munches, match_regexes-Munches}
use my_clox.Scanner.{
  Scanner, Token, init_scanner, is_at_end, make_token, advance, advance_n, error_token, peek,
  peek_next, skip_line, skip_whitespace, scan_here, scan_token,
}
use my_clox.Scanner.Moves.{
  IsSource, position_after, newlines, position_after-newlines, moved, scanner_at,
}
use my_clox.Scanner.Skip.{Skips, skip_whitespace-Skips}
use my_clox.Scanner.Scan.{Scans, scan_token-Scans}

program : Unit {0}
unfolding regex_of lengths longest regexec from_start match_at try_type try_types match_regexes
    init_scanner is_at_end make_token advance advance_n error_token peek peek_next skip_line
    skip_whitespace scan_here scan_token position_after newlines
program = tt

-- "and" is the keyword, "andy" an identifier.
keyword : match_regexes token_error (97 ∷ 110 ∷ 100 ∷ []) ≡ (token_and, 3)
unfolding program
keyword = refl

longer : match_regexes token_error (97 ∷ 110 ∷ 100 ∷ 121 ∷ []) ≡ (token_identifier, 4)
unfolding program
longer = refl

abbrev start : Position
start = record { line = 1; column = 1 }

-- "12.5.": the second point is not of the number.
abbrev decimal : List ℕ
decimal = 49 ∷ 50 ∷ 46 ∷ 53 ∷ 46 ∷ []

number : match_at token_number decimal ≡ some 4
unfolding program
number = refl

-- A match that starts later is none of the token's.
number_later : match_at token_number (97 ∷ decimal) ≡ none
unfolding program
number_later = refl

match_at-spelling_example : match_at token_and (97 ∷ 110 ∷ 100 ∷ 121 ∷ []) ≡ (
    if starts_with (codes "and") (97 ∷ 110 ∷ 100 ∷ 121 ∷ [])
    then some (length (codes "and"))
    else none)
match_at-spelling_example = match_at-spelling token_and "and" (97 ∷ 110 ∷ 100 ∷ 121 ∷ []) refl

match_regexes-Munches_example : Munches decimal (match_regexes token_error decimal)
match_regexes-Munches_example = match_regexes-Munches token_error decimal

-- A comment, a new line, and "or".
abbrev source : List ℕ
source = 47 ∷ 47 ∷ 120 ∷ 10 ∷ 111 ∷ 114 ∷ []

real : (c : ℕ) → (c == 0) ≡ false → c ≢ 0
real c h e = ground arith

source-IsSource : IsSource source
source-IsSource = (
  real 47 refl,
  (real 47 refl, (real 120 refl, (real 10 refl, (real 111 refl, (real 114 refl, tt))))),
)

skip_whitespace-Skips_example :
    (k : ℕ) × Skips source k
    × (k ≤ 6)
    × (skip_whitespace 7 (scanner_at source source start false)
        ≡ some (moved k (scanner_at source source start false)))
skip_whitespace-Skips_example =
    skip_whitespace-Skips 7 source source start false source-IsSource (omega arith)

scan_token-Scans_example :
    (r : Token × Scanner) × (scan_token token_error (scanner_at source source start true) ≡ some r)
    × Scans token_error (scanner_at source source start true) r
scan_token-Scans_example =
    scan_token-Scans token_error (scanner_at source source start true) source-IsSource

position_after-newlines_example :
    ((position_after source start).line ≡ start.line + newlines source)
    × ((position_after source start).column ≡ (if newlines source == 0 then start.column else 0))
position_after-newlines_example = position_after-newlines source start
