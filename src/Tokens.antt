-- ===== src/Tokens.antt =====
-- src/scanner.h and src/tokens_regexes.c: the kinds of token, their regular expressions, and the
-- longest match among them. Characters are bytes; `regexec` is POSIX's: the leftmost match, and of
-- those the longest, so a match that starts at 0 is the longest one that does.
pub mod Language
pub mod Search
pub mod Munch
pub mod Numbers
pub mod Spelling
use my_clox.Prelude.{
  ℕ, zero, suc, ◌+◌, Bool, true, false, not, ◌&&◌, ◌||◌, ltb, leb, ◌==◌, if◌then◌else◌, List, [],
  ◌∷◌, ◌++◌, map, Option, none, some, drop, ◌>>=◌, ◌-◌,
}

pub data TokenType : Type 0 where
  token_left_paren : TokenType
  token_right_paren : TokenType
  token_left_brace : TokenType
  token_right_brace : TokenType
  token_comma : TokenType
  token_dot : TokenType
  token_minus : TokenType
  token_plus : TokenType
  token_semicolon : TokenType
  token_slash : TokenType
  token_star : TokenType
  token_bang : TokenType
  token_bang_equal : TokenType
  token_equal : TokenType
  token_equal_equal : TokenType
  token_greater : TokenType
  token_greater_equal : TokenType
  token_less : TokenType
  token_less_equal : TokenType
  token_identifier : TokenType
  token_string : TokenType
  token_number : TokenType
  token_and : TokenType
  token_class : TokenType
  token_else : TokenType
  token_false : TokenType
  token_for : TokenType
  token_fun : TokenType
  token_if : TokenType
  token_nil : TokenType
  token_or : TokenType
  token_print : TokenType
  token_return : TokenType
  token_super : TokenType
  token_this : TokenType
  token_true : TokenType
  token_var : TokenType
  token_while : TokenType
  token_eof : TokenType
  token_error : TokenType

-- A bracket expression over ranges, or its complement.
pub data Class : Type 0 where
  within : List (ℕ × ℕ) → Class
  outside : List (ℕ × ℕ) → Class

-- The parts of extended regular expressions that the tokens use: `many` is `[…]*`, `optional` is
-- `(…)?`.
pub data Regex : Type 0 where
  symbol : Class → Regex
  many : Class → Regex
  optional : Regex → Regex
  seq : Regex → Regex → Regex

abbrev pub in_ranges : List (ℕ × ℕ) → ℕ → Bool
in_ranges [] c = false
in_ranges ((low, high) ∷ ranges) c = leb low c && leb c high || in_ranges ranges c

abbrev pub class_has : Class → ℕ → Bool
class_has (within ranges) c = in_ranges ranges c
class_has (outside ranges) c = not (in_ranges ranges c)

abbrev pub just : ℕ → Regex
just c = symbol (within ((c, c) ∷ []))

abbrev pub word : ℕ → List ℕ → Regex
word c [] = just c
word c (d ∷ ds) = seq (just c) (word d ds)

abbrev pub letter : List (ℕ × ℕ)
letter = (95, 95) ∷ (97, 122) ∷ (65, 90) ∷ []

abbrev pub digit : List (ℕ × ℕ)
digit = (48, 57) ∷ []

abbrev pub digits : Regex
digits = seq (symbol (within digit)) (many (within digit))

-- The end of file and the error have no expression.
unfoldable pub regex_of : TokenType → Option Regex
regex_of token_left_paren = some (word 40 [])
regex_of token_right_paren = some (word 41 [])
regex_of token_left_brace = some (word 123 [])
regex_of token_right_brace = some (word 125 [])
regex_of token_comma = some (word 44 [])
regex_of token_dot = some (word 46 [])
regex_of token_minus = some (word 45 [])
regex_of token_plus = some (word 43 [])
regex_of token_semicolon = some (word 59 [])
regex_of token_slash = some (word 47 [])
regex_of token_star = some (word 42 [])
regex_of token_bang = some (word 33 [])
regex_of token_bang_equal = some (word 33 (61 ∷ []))
regex_of token_equal = some (word 61 [])
regex_of token_equal_equal = some (word 61 (61 ∷ []))
regex_of token_greater = some (word 62 [])
regex_of token_greater_equal = some (word 62 (61 ∷ []))
regex_of token_less = some (word 60 [])
regex_of token_less_equal = some (word 60 (61 ∷ []))
regex_of token_identifier =
    some (
      seq (symbol (within letter))
        (many (within ((95, 95) ∷ (97, 122) ∷ (65, 90) ∷ (48, 57) ∷ []))))
regex_of token_string = some (seq (just 34) (seq (many (outside ((34, 34) ∷ []))) (just 34)))
regex_of token_number = some (seq digits (optional (seq (just 46) digits)))
regex_of token_and = some (word 97 (110 ∷ 100 ∷ []))
regex_of token_class = some (word 99 (108 ∷ 97 ∷ 115 ∷ 115 ∷ []))
regex_of token_else = some (word 101 (108 ∷ 115 ∷ 101 ∷ []))
regex_of token_false = some (word 102 (97 ∷ 108 ∷ 115 ∷ 101 ∷ []))
regex_of token_for = some (word 102 (111 ∷ 114 ∷ []))
regex_of token_fun = some (word 102 (117 ∷ 110 ∷ []))
regex_of token_if = some (word 105 (102 ∷ []))
regex_of token_nil = some (word 110 (105 ∷ 108 ∷ []))
regex_of token_or = some (word 111 (114 ∷ []))
regex_of token_print = some (word 112 (114 ∷ 105 ∷ 110 ∷ 116 ∷ []))
regex_of token_return = some (word 114 (101 ∷ 116 ∷ 117 ∷ 114 ∷ 110 ∷ []))
regex_of token_super = some (word 115 (117 ∷ 112 ∷ 101 ∷ 114 ∷ []))
regex_of token_this = some (word 116 (104 ∷ 105 ∷ 115 ∷ []))
regex_of token_true = some (word 116 (114 ∷ 117 ∷ 101 ∷ []))
regex_of token_var = some (word 118 (97 ∷ 114 ∷ []))
regex_of token_while = some (word 119 (104 ∷ 105 ∷ 108 ∷ 101 ∷ []))
regex_of token_eof = none
regex_of token_error = none

-- The types with a number below `REGEX_COUNT`, in their order.
abbrev pub regex_types : List TokenType
regex_types =
    token_left_paren ∷ token_right_paren ∷ token_left_brace ∷ token_right_brace ∷ token_comma
    ∷ token_dot ∷ token_minus ∷ token_plus ∷ token_semicolon ∷ token_slash ∷ token_star ∷ token_bang
    ∷ token_bang_equal ∷ token_equal ∷ token_equal_equal ∷ token_greater ∷ token_greater_equal
    ∷ token_less ∷ token_less_equal ∷ token_identifier ∷ token_string ∷ token_number ∷ token_and
    ∷ token_class ∷ token_else ∷ token_false ∷ token_for ∷ token_fun ∷ token_if ∷ token_nil
    ∷ token_or ∷ token_print ∷ token_return ∷ token_super ∷ token_this ∷ token_true ∷ token_var
    ∷ token_while ∷ []

-- How many characters at the head are of the class.
abbrev pub run : Class → List ℕ → ℕ
run c [] = 0
run c (x ∷ s) = if class_has c x then suc (run c s) else 0

abbrev pub up_to : ℕ → List ℕ
up_to zero = 0 ∷ []
up_to (suc n) = suc n ∷ up_to n

abbrev pub after : (ℕ → List ℕ) → List ℕ → List ℕ
after f [] = []
after f (k ∷ ks) = map (λ j. k + j) (f k) ++ after f ks

-- The lengths of the prefixes that an expression matches.
unfoldable pub lengths : Regex → List ℕ → List ℕ
lengths (symbol c) [] = []
lengths (symbol c) (x ∷ s) = if class_has c x then 1 ∷ [] else []
lengths (many c) s = up_to (run c s)
lengths (optional r) s = 0 ∷ lengths r s
lengths (seq a b) s = after (λ k. lengths b (drop k s)) (lengths a s)

unfoldable pub longest : List ℕ → Option ℕ
longest [] = none
longest (k ∷ ks) = elim (longest ks) [ none ↦ some k | some n ↦ some (if ltb k n then n else k) ]

-- `regexec`: where the leftmost match starts and where the longest one from there ends.
unfoldable pub regexec : Regex → List ℕ → Option (ℕ × ℕ)
regexec r [] = elim (longest (lengths r [])) [ none ↦ none | some n ↦ some (0, n) ]
regexec r (c ∷ source) =
    let later = regexec r source in
    elim (longest (lengths r (c ∷ source))) [
      | some n ↦ some (0, n)
      | none ↦ later >>= (λ (so, eo). some (suc so, suc eo))
    ]

-- `rm_eo - rm_so`, or `none` where `rm_so` is not 0 and the loop continues.
unfoldable pub from_start : Option (ℕ × ℕ) → Option ℕ
from_start none = none
from_start (some (so, eo)) = if so == 0 then some (eo - so) else none

-- The length that the loop of `matchRegexes` considers for a type.
unfoldable pub match_at : TokenType → List ℕ → Option ℕ
match_at type source = elim (regex_of type) [ none ↦ none | some r ↦ from_start (regexec r source) ]

abbrev pub is_identifier : TokenType → Bool
is_identifier token_identifier = true
is_identifier _ = false

-- One round of the loop of `matchRegexes`, on the token's type and length.
unfoldable pub try_type : List ℕ → TokenType → TokenType × ℕ → TokenType × ℕ
try_type source type (best, length) = elim (match_at type source) [
  | none ↦ (best, length)
  | some n ↦ if ltb length n || is_identifier best && n == length then (type, n) else (best, length)
]

unfoldable pub try_types : List ℕ → List TokenType → TokenType × ℕ → TokenType × ℕ
try_types source [] token = token
try_types source (type ∷ types) token = try_types source types (try_type source type token)

-- `token.type` is not initialised: `junk` is what it holds.
unfoldable pub match_regexes : TokenType → List ℕ → TokenType × ℕ
match_regexes junk source =
    let token = try_types source regex_types (junk, 0) in
    if token.1 == 0 then (token_error, token.1) else token
