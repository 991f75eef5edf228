-- ===== src/Parser/Literals.antt =====
-- src/compiler.c: precedences, literals and operators.
use my_clox.Prelude.{ℕ, ◌-◌, Bool, true, false, if◌then◌else◌, List, [], ◌∷◌, some, take, drop}
use my_clox.Value.{number_val, obj_val}
use my_clox.Tokens.{
  TokenType, token_left_paren, token_dot, token_minus, token_plus, token_slash, token_star,
  token_bang, token_bang_equal, token_equal_equal, token_greater, token_greater_equal, token_less,
  token_less_equal, token_and, token_false, token_nil, token_or, token_true,
}
use my_clox.Opcodes.{
  op_nil, op_true, op_false, op_equal, op_greater, op_less, op_add, op_subtract, op_multiply,
  op_divide, op_not, op_negate,
}
use my_clox.Parser.{M, Act, ◌>>=◌, pure, gets, error, match, emit_byte, emit_bytes, emit_constant}
use my_clox.Parser.Scopes.{copied}

abbrev pub prec_none : ℕ
prec_none = 0

abbrev pub prec_assignment : ℕ
prec_assignment = 1

abbrev pub prec_or : ℕ
prec_or = 2

abbrev pub prec_and : ℕ
prec_and = 3

abbrev pub prec_equality : ℕ
prec_equality = 4

abbrev pub prec_comparison : ℕ
prec_comparison = 5

abbrev pub prec_term : ℕ
prec_term = 6

abbrev pub prec_factor : ℕ
prec_factor = 7

abbrev pub prec_unary : ℕ
prec_unary = 8

abbrev pub prec_call : ℕ
prec_call = 9

-- The column `precedence` of `rules`.
unfoldable pub precedence_of : TokenType → ℕ
precedence_of token_left_paren = prec_call
precedence_of token_dot = prec_call
precedence_of token_minus = prec_term
precedence_of token_plus = prec_term
precedence_of token_slash = prec_factor
precedence_of token_star = prec_factor
precedence_of token_bang_equal = prec_equality
precedence_of token_equal_equal = prec_equality
precedence_of token_greater = prec_comparison
precedence_of token_greater_equal = prec_comparison
precedence_of token_less = prec_comparison
precedence_of token_less_equal = prec_comparison
precedence_of token_and = prec_and
precedence_of token_or = prec_or
precedence_of _ = prec_none

-- "this" and "super", the texts of synthetic tokens
abbrev pub this_text : List ℕ
this_text = 116 ∷ 104 ∷ 105 ∷ 115 ∷ []

abbrev pub super_text : List ℕ
super_text = 115 ∷ 117 ∷ 112 ∷ 101 ∷ 114 ∷ []

unfoldable pub literal : Act
literal = gets (λ s. s.previous.type) >>= λ type. elim type [
  | token_false ↦ emit_byte op_false
  | token_nil ↦ emit_byte op_nil
  | token_true ↦ emit_byte op_true
  | _ ↦ pure tt
]

-- `strtod(parser.previous.start, NULL)`
unfoldable pub read_number : M ℕ
read_number host s = some (host.strtod s.previous.start, s)

unfoldable pub number : Act
number = do value ← read_number; emit_constant (number_val value)

unfoldable pub string : Act
string = do
  text ← gets (λ s. take (s.previous.length - 2) (drop 1 s.previous.start))
  object ← copied text
  emit_constant (obj_val object)

-- `canAssign && match(type)`
unfoldable pub match_if : Bool → TokenType → M Bool
match_if can_assign type = if can_assign then match type else pure false

unfoldable pub emit_binary : TokenType → Act
emit_binary token_bang_equal = emit_bytes op_equal op_not
emit_binary token_equal_equal = emit_byte op_equal
emit_binary token_greater = emit_byte op_greater
emit_binary token_greater_equal = emit_bytes op_less op_not
emit_binary token_less = emit_byte op_less
emit_binary token_less_equal = emit_bytes op_greater op_not
emit_binary token_plus = emit_byte op_add
emit_binary token_minus = emit_byte op_subtract
emit_binary token_star = emit_byte op_multiply
emit_binary token_slash = emit_byte op_divide
emit_binary _ = pure tt

unfoldable pub emit_unary : TokenType → Act
emit_unary token_bang = emit_byte op_not
emit_unary token_minus = emit_byte op_negate
emit_unary _ = pure tt

-- The errors of `super` outside of a class, and in one with no superclass.
unfoldable pub check_super : List Bool → Act
check_super [] = error
check_super (false ∷ _) = error
check_super (true ∷ _) = pure tt
