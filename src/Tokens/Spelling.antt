-- ===== src/Tokens/Spelling.antt =====
-- The operators and keywords of Lox: each is matched where the source starts with its spelling.
use Prim.Native.String.{String}
use Prim.Native.Char.{code}
use my_clox.Prelude.{
  ℕ, suc, ◌+◌, ◌≡◌, refl, Bool, true, false, ◌&&◌, ◌==◌, if◌then◌else◌, arith, List, [], ◌∷◌, ◌++◌,
  map, Option, none, some, length, Bool-cases, inl, inr, ◌∙◌, ap, subst,
}
use my_clox.Tokens.{
  TokenType, token_left_paren, token_right_paren, token_left_brace, token_right_brace, token_comma,
  token_dot, token_minus, token_plus, token_semicolon, token_slash, token_star, token_bang,
  token_bang_equal, token_equal, token_equal_equal, token_greater, token_greater_equal, token_less,
  token_less_equal, token_identifier, token_string, token_number, token_and, token_class,
  token_else, token_false, token_for, token_fun, token_if, token_nil, token_or, token_print,
  token_return, token_super, token_this, token_true, token_var, token_while, token_eof, token_error,
  Regex, word, class_has, within, regex_of, lengths, longest, match_at,
}
use my_clox.Tokens.Search.{match_at-longest}

abbrev pub codes : String → List ℕ
codes String.[] = []
codes (String.◌∷◌ c s) = code c ∷ codes s

-- The tokens of the language that are always written alike.
abbrev pub spelling : TokenType → Option String
spelling token_left_paren = some "("
spelling token_right_paren = some ")"
spelling token_left_brace = some "{"
spelling token_right_brace = some "}"
spelling token_comma = some ","
spelling token_dot = some "."
spelling token_minus = some "-"
spelling token_plus = some "+"
spelling token_semicolon = some ";"
spelling token_slash = some "/"
spelling token_star = some "*"
spelling token_bang = some "!"
spelling token_bang_equal = some "!="
spelling token_equal = some "="
spelling token_equal_equal = some "=="
spelling token_greater = some ">"
spelling token_greater_equal = some ">="
spelling token_less = some "<"
spelling token_less_equal = some "<="
spelling token_identifier = none
spelling token_string = none
spelling token_number = none
spelling token_and = some "and"
spelling token_class = some "class"
spelling token_else = some "else"
spelling token_false = some "false"
spelling token_for = some "for"
spelling token_fun = some "fun"
spelling token_if = some "if"
spelling token_nil = some "nil"
spelling token_or = some "or"
spelling token_print = some "print"
spelling token_return = some "return"
spelling token_super = some "super"
spelling token_this = some "this"
spelling token_true = some "true"
spelling token_var = some "var"
spelling token_while = some "while"
spelling token_eof = none
spelling token_error = none

-- Whether the source starts with the text.
abbrev pub starts_with : List ℕ → List ℕ → Bool
starts_with [] source = true
starts_with (c ∷ cs) [] = false
starts_with (c ∷ cs) (x ∷ source) = x == c && starts_with cs source

same_char : (c x : ℕ) → class_has (within ((c, c) ∷ [])) x ≡ (x == c)
same_char c x = ground arith

-- A word is matched in one way at most.
lengths-word :
    (c : ℕ) (cs source : List ℕ)
    → lengths (word c cs) source
      ≡ (if starts_with (c ∷ cs) source then length (c ∷ cs) ∷ [] else [])
unfolding lengths
lengths-word c [] [] = refl
lengths-word c [] (x ∷ source) = elim (Bool-cases (x == c)) [
  | inl same ↦ rw (same_char c x, same) refl
  | inr other ↦ rw (same_char c x, other) refl
]
lengths-word c (d ∷ ds) [] = refl
lengths-word c (d ∷ ds) (x ∷ source) = elim (Bool-cases (x == c)) [
  | inl same ↦
      rw (same_char c x, same)
        (rw (lengths-word d ds source) (longer (length ds) (starts_with (d ∷ ds) source)))
  | inr other ↦ rw (same_char c x, other) refl
]
  where
    longer :
        (n : ℕ) (b : Bool)
        → map (λ j. 1 + j) (if b then suc n ∷ [] else []) ++ []
          ≡ (if b then suc (suc n) ∷ [] else [])
    longer n true = ap (λ (k : ℕ). k ∷ []) (omega arith)
    longer n false = refl

abbrev IsWord : Option Regex → List ℕ → Type 0
IsWord r text = (c : ℕ) × (cs : List ℕ) × (text ≡ c ∷ cs) × (r ≡ some (word c cs))

abbrev Agrees : Option Regex → Option String → Type 0
Agrees r none = Unit {0}
Agrees r (some text) = IsWord r (codes text)

regex_of-spelling : (type : TokenType) → Agrees (regex_of type) (spelling type)
unfolding regex_of
regex_of-spelling token_left_paren = (_, _, refl, refl)
regex_of-spelling token_right_paren = (_, _, refl, refl)
regex_of-spelling token_left_brace = (_, _, refl, refl)
regex_of-spelling token_right_brace = (_, _, refl, refl)
regex_of-spelling token_comma = (_, _, refl, refl)
regex_of-spelling token_dot = (_, _, refl, refl)
regex_of-spelling token_minus = (_, _, refl, refl)
regex_of-spelling token_plus = (_, _, refl, refl)
regex_of-spelling token_semicolon = (_, _, refl, refl)
regex_of-spelling token_slash = (_, _, refl, refl)
regex_of-spelling token_star = (_, _, refl, refl)
regex_of-spelling token_bang = (_, _, refl, refl)
regex_of-spelling token_bang_equal = (_, _, refl, refl)
regex_of-spelling token_equal = (_, _, refl, refl)
regex_of-spelling token_equal_equal = (_, _, refl, refl)
regex_of-spelling token_greater = (_, _, refl, refl)
regex_of-spelling token_greater_equal = (_, _, refl, refl)
regex_of-spelling token_less = (_, _, refl, refl)
regex_of-spelling token_less_equal = (_, _, refl, refl)
regex_of-spelling token_identifier = tt
regex_of-spelling token_string = tt
regex_of-spelling token_number = tt
regex_of-spelling token_and = (_, _, refl, refl)
regex_of-spelling token_class = (_, _, refl, refl)
regex_of-spelling token_else = (_, _, refl, refl)
regex_of-spelling token_false = (_, _, refl, refl)
regex_of-spelling token_for = (_, _, refl, refl)
regex_of-spelling token_fun = (_, _, refl, refl)
regex_of-spelling token_if = (_, _, refl, refl)
regex_of-spelling token_nil = (_, _, refl, refl)
regex_of-spelling token_or = (_, _, refl, refl)
regex_of-spelling token_print = (_, _, refl, refl)
regex_of-spelling token_return = (_, _, refl, refl)
regex_of-spelling token_super = (_, _, refl, refl)
regex_of-spelling token_this = (_, _, refl, refl)
regex_of-spelling token_true = (_, _, refl, refl)
regex_of-spelling token_var = (_, _, refl, refl)
regex_of-spelling token_while = (_, _, refl, refl)
regex_of-spelling token_eof = tt
regex_of-spelling token_error = tt

longest_one : (n : ℕ) (b : Bool) → longest (if b then n ∷ [] else []) ≡ (if b then some n else none)
unfolding longest
longest_one n true = refl
longest_one n false = refl

-- Each operator and keyword is matched exactly where the source starts with its spelling, with the
-- length of the spelling.
pub match_at-spelling :
    (type : TokenType) (text : String) (source : List ℕ)
    → spelling type ≡ some text
    → match_at type source
      ≡ (if starts_with (codes text) source then some (length (codes text)) else none)
match_at-spelling type text source e =
    of_word (codes text) (subst (Agrees (regex_of type)) e (regex_of-spelling type))
  where
    of_word :
        (cs : List ℕ)
        → IsWord (regex_of type) cs
        → match_at type source ≡ (if starts_with cs source then some (length cs) else none)
    of_word cs (d, ds, same, is) =
        match_at-longest type (word d ds) source is
        ∙ rw (same, lengths-word d ds source)
            (longest_one (length (d ∷ ds)) (starts_with (d ∷ ds) source))
