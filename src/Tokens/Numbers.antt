-- ===== src/Tokens/Numbers.antt =====
-- src/scanner.h: the numbers of the kinds of token.
use my_clox.Prelude.{ℕ, Bool, ◌==◌}
use my_clox.Tokens.{
  TokenType, token_left_paren, token_right_paren, token_left_brace, token_right_brace, token_comma,
  token_dot, token_minus, token_plus, token_semicolon, token_slash, token_star, token_bang,
  token_bang_equal, token_equal, token_equal_equal, token_greater, token_greater_equal, token_less,
  token_less_equal, token_identifier, token_string, token_number, token_and, token_class,
  token_else, token_false, token_for, token_fun, token_if, token_nil, token_or, token_print,
  token_return, token_super, token_this, token_true, token_var, token_while, token_eof, token_error,
}

abbrev pub type_number : TokenType → ℕ
type_number token_left_paren = 0
type_number token_right_paren = 1
type_number token_left_brace = 2
type_number token_right_brace = 3
type_number token_comma = 4
type_number token_dot = 5
type_number token_minus = 6
type_number token_plus = 7
type_number token_semicolon = 8
type_number token_slash = 9
type_number token_star = 10
type_number token_bang = 11
type_number token_bang_equal = 12
type_number token_equal = 13
type_number token_equal_equal = 14
type_number token_greater = 15
type_number token_greater_equal = 16
type_number token_less = 17
type_number token_less_equal = 18
type_number token_identifier = 19
type_number token_string = 20
type_number token_number = 21
type_number token_and = 22
type_number token_class = 23
type_number token_else = 24
type_number token_false = 25
type_number token_for = 26
type_number token_fun = 27
type_number token_if = 28
type_number token_nil = 29
type_number token_or = 30
type_number token_print = 31
type_number token_return = 32
type_number token_super = 33
type_number token_this = 34
type_number token_true = 35
type_number token_var = 36
type_number token_while = 37
type_number token_eof = 38
type_number token_error = 39

abbrev pub same_type : TokenType → TokenType → Bool
same_type a b = type_number a == type_number b
