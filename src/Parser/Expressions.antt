-- ===== src/Parser/Expressions.antt =====
-- src/compiler.c: expressions. The parse functions are given `parse`, which is `parsePrecedence`:
-- its own calls of them pass itself on, with a round less.
use my_clox.Prelude.{
  ℕ, zero, suc, ◌+◌, ◌%◌, Bool, true, false, leb, ◌==◌, if◌then◌else◌, List, Option, none, some,
  length,
}
use my_clox.Tokens.{
  TokenType, token_left_paren, token_right_paren, token_comma, token_dot, token_minus, token_plus,
  token_slash, token_star, token_bang, token_bang_equal, token_equal, token_equal_equal,
  token_greater, token_greater_equal, token_less, token_less_equal, token_identifier, token_string,
  token_number, token_and, token_false, token_nil, token_or, token_super, token_this, token_true,
}
use my_clox.Opcodes.{
  op_pop, op_get_property, op_set_property, op_get_super, op_jump, op_jump_if_false, op_call,
  op_invoke, op_super_invoke,
}
use my_clox.Parser.{
  M, Act, ◌>>=◌, ◌>>◌, pure, stuck, gets, repeat, rounds, error, advance, check, consume, match,
  previous_text, emit_byte, emit_bytes, emit_jump, patch_jump,
}
use my_clox.Parser.Variables.{identifier_constant, resolve}
use my_clox.Parser.Literals.{
  prec_assignment, prec_or, prec_and, prec_unary, precedence_of, this_text, super_text, literal,
  number, string, match_if, emit_binary, emit_unary, check_super,
}

module _ (parse : ℕ → Act) where
  unfoldable pub expression : Act
  expression = parse prec_assignment

  -- One round of `argumentList`, on the count so far.
  unfoldable pub argument : ℕ → M (Bool × ℕ)
  argument count = do
    expression
    if count == 255 then error else pure tt
    more ← match token_comma
    pure (more, (count + 1) % 256)

  unfoldable pub argument_list : M ℕ
  argument_list = do
    closed ← check token_right_paren
    count ← if closed then pure 0 else repeat argument 0
    consume token_right_paren
    pure count

  unfoldable pub and_ : Act
  and_ = do
    end_jump ← emit_jump op_jump_if_false
    emit_byte op_pop
    parse prec_and
    patch_jump end_jump

  unfoldable pub or_ : Act
  or_ = do
    else_jump ← emit_jump op_jump_if_false
    end_jump ← emit_jump op_jump
    patch_jump else_jump
    emit_byte op_pop
    parse prec_or
    patch_jump end_jump

  unfoldable pub binary : Act
  binary = do
    operator ← gets (λ s. s.previous.type)
    parse (suc (precedence_of operator))
    emit_binary operator

  unfoldable pub unary : Act
  unary = do operator ← gets (λ s. s.previous.type); parse prec_unary; emit_unary operator

  unfoldable pub call : Act
  call = do count ← argument_list; emit_bytes op_call count

  unfoldable pub dot : Bool → Act
  dot can_assign = do
    consume token_identifier
    text ← previous_text
    name ← identifier_constant text
    assigned ← match_if can_assign token_equal
    if assigned then expression >> emit_bytes op_set_property name else do
      called ← match token_left_paren
      if called
          then (do count ← argument_list; emit_bytes op_invoke name; emit_byte count)
          else emit_bytes op_get_property name

  unfoldable pub grouping : Act
  grouping = do expression; consume token_right_paren

  unfoldable pub named_variable : List ℕ → Bool → Act
  named_variable name can_assign = do
    (get_op, set_op, arg) ← resolve name
    assigned ← match_if can_assign token_equal
    if assigned then expression >> emit_bytes set_op arg else emit_bytes get_op arg

  unfoldable pub variable : Bool → Act
  variable can_assign = do name ← previous_text; named_variable name can_assign

  unfoldable pub super_ : Act
  super_ = do
    classes ← gets (λ s. s.classes)
    check_super classes
    consume token_dot
    consume token_identifier
    text ← previous_text
    name ← identifier_constant text
    named_variable this_text false
    called ← match token_left_paren
    if called
        then (do
          count ← argument_list
          named_variable super_text false
          emit_bytes op_super_invoke name
          emit_byte count)
        else named_variable super_text false >> emit_bytes op_get_super name

  unfoldable pub this_ : Act
  this_ = do classes ← gets (λ s. length s.classes); if classes == 0 then error else variable false

  -- The columns `prefix` and `infix` of `rules`, on `canAssign`; `none` for NULL.
  unfoldable pub prefix_rule : Bool → TokenType → Option Act
  prefix_rule can_assign token_left_paren = some grouping
  prefix_rule can_assign token_minus = some unary
  prefix_rule can_assign token_bang = some unary
  prefix_rule can_assign token_identifier = some (variable can_assign)
  prefix_rule can_assign token_string = some string
  prefix_rule can_assign token_number = some number
  prefix_rule can_assign token_false = some literal
  prefix_rule can_assign token_nil = some literal
  prefix_rule can_assign token_super = some super_
  prefix_rule can_assign token_this = some this_
  prefix_rule can_assign token_true = some literal
  prefix_rule can_assign _ = none

  unfoldable pub infix_rule : Bool → TokenType → Option Act
  infix_rule can_assign token_left_paren = some call
  infix_rule can_assign token_dot = some (dot can_assign)
  infix_rule can_assign token_minus = some binary
  infix_rule can_assign token_plus = some binary
  infix_rule can_assign token_slash = some binary
  infix_rule can_assign token_star = some binary
  infix_rule can_assign token_bang_equal = some binary
  infix_rule can_assign token_equal_equal = some binary
  infix_rule can_assign token_greater = some binary
  infix_rule can_assign token_greater_equal = some binary
  infix_rule can_assign token_less = some binary
  infix_rule can_assign token_less_equal = some binary
  infix_rule can_assign token_and = some and_
  infix_rule can_assign token_or = some or_
  infix_rule can_assign _ = none

-- A call through a rule: a null one is a fault.
abbrev pub call_rule : Option Act → Act
call_rule none = stuck
call_rule (some rule) = rule

-- An operator, and what its rule parses.
unfoldable pub infix_step : (ℕ → Act) → Bool → M (Bool × Unit {0})
infix_step parse can_assign = do
  advance
  type ← gets (λ s. s.previous.type)
  call_rule (infix_rule parse can_assign type)
  pure (true, tt)

-- One round of the loop of `parsePrecedence`.
unfoldable pub infix_round : (ℕ → Act) → ℕ → Bool → Unit {0} → M (Bool × Unit {0})
infix_round parse precedence can_assign _ = do
  next ← gets (λ s. precedence_of s.current.type)
  if leb precedence next then infix_step parse can_assign else pure (false, tt)

-- What follows the prefix.
unfoldable pub parse_infix : (ℕ → Act) → ℕ → Bool → Act
parse_infix parse precedence can_assign = do
  repeat (infix_round parse precedence can_assign) tt
  invalid ← match_if can_assign token_equal
  if invalid then error else pure tt

abbrev pub after_prefix : (ℕ → Act) → ℕ → Bool → Option Act → Act
after_prefix parse precedence can_assign none = error
after_prefix parse precedence can_assign (some rule) =
    rule >> parse_infix parse precedence can_assign

unfoldable pub parse_from : (ℕ → Act) → ℕ → Act
parse_from parse precedence = do
  advance
  type ← gets (λ s. s.previous.type)
  let can_assign = leb precedence prec_assignment
  after_prefix parse precedence can_assign (prefix_rule parse can_assign type)

unfoldable pub parse_precedence : ℕ → ℕ → Act
parse_precedence zero precedence = stuck
parse_precedence (suc n) precedence = parse_from (parse_precedence n) precedence

-- With a round for each character and token that is left.
unfoldable pub parse : ℕ → Act
parse precedence = gets rounds >>= λ n. parse_precedence n precedence
