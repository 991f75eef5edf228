-- ===== src/Parser/Simple.antt =====
-- src/compiler.c: the parts of statements and declarations that hold no statement, and `synchronize`.
use my_clox.Prelude.{
  ℕ, ◌+◌, Bool, true, false, not, ◌&&◌, ltb, if◌then◌else◌, List, [], ◌∷◌, Option, none, some,
}
use my_clox.Tokens.{
  TokenType, token_right_paren, token_right_brace, token_comma, token_semicolon, token_equal,
  token_identifier, token_class, token_for, token_fun, token_if, token_print, token_return,
  token_var, token_while, token_eof,
}
use my_clox.Compiler.{Upvalue, identifiers_equal}
use my_clox.Emit.{FunctionType, type_initializer, type_script}
use my_clox.Opcodes.{op_nil, op_pop, op_print, op_jump, op_jump_if_false, op_return, op_inherit}
use my_clox.Parser.{
  M, Act, ◌>>=◌, ◌>>◌, pure, gets, repeat, while_true, error, advance, check_now, consume, match,
  previous_text, on_current, emit_byte, emit_loop, emit_jump, patch_jump, emit_return,
}
use my_clox.Parser.Scopes.{begin_scope}
use my_clox.Parser.Variables.{add_local, parse_variable, define_variable}
use my_clox.Parser.Literals.{super_text}
use my_clox.Parser.Expressions.{parse, expression, named_variable, variable}

-- `!check(TOKEN_RIGHT_BRACE) && !check(TOKEN_EOF)`
unfoldable pub in_block : M Bool
in_block = gets (λ s. not (check_now token_right_brace s) && not (check_now token_eof s))

unfoldable pub code_count : M ℕ
code_count = on_current (λ s c. (c.chunk.count, c))

unfoldable pub count_parameter : Act
count_parameter = do
  arity ← on_current (λ s c. (c.arity + 1, record c { arity = c.arity + 1 }))
  if ltb 255 arity then error else pure tt

unfoldable pub parameter : Unit {0} → M (Bool × Unit {0})
parameter _ = do
  count_parameter
  constant ← parse_variable
  define_variable constant
  more ← match token_comma
  pure (more, tt)

unfoldable pub emit_upvalues : List Upvalue → Act
emit_upvalues [] = pure tt
emit_upvalues (upvalue ∷ upvalues) = do
  emit_byte (if upvalue.is_local then 1 else 0)
  emit_byte upvalue.index
  emit_upvalues upvalues

unfoldable pub push_class : Act
push_class host s = some (tt, record s { classes = false ∷ s.classes })

abbrev pub set_superclass : List Bool → List Bool
set_superclass [] = []
set_superclass (_ ∷ classes) = true ∷ classes

unfoldable pub mark_superclass : Act
mark_superclass host s = some (tt, record s { classes = set_superclass s.classes })

unfoldable pub has_superclass : M Bool
has_superclass host s = elim s.classes [ [] ↦ none | has ∷ _ ↦ some (has, s) ]

unfoldable pub pop_class : Act
pop_class host s = elim s.classes [
  | [] ↦ none
  | _ ∷ classes ↦ some (tt, record s { classes = classes })
]

-- The name of the superclass, as a variable.
unfoldable pub superclass_name : List ℕ → Act
superclass_name class_name = do
  consume token_identifier
  variable parse false
  name ← previous_text
  if identifiers_equal class_name name then error else pure tt

-- The local `super`, and the class that inherits.
unfoldable pub super_local : List ℕ → Act
super_local class_name = do
  add_local super_text
  define_variable 0
  named_variable parse class_name false
  emit_byte op_inherit

unfoldable pub superclass : List ℕ → Act
superclass class_name = do
  superclass_name class_name
  begin_scope
  super_local class_name
  mark_superclass

unfoldable pub var_declaration : Act
var_declaration = do
  global ← parse_variable
  assigned ← match token_equal
  if assigned then expression parse else emit_byte op_nil
  consume token_semicolon
  define_variable global

unfoldable pub expression_statement : Act
expression_statement = do expression parse; consume token_semicolon; emit_byte op_pop

unfoldable pub print_statement : Act
print_statement = do expression parse; consume token_semicolon; emit_byte op_print

abbrev pub is_script : FunctionType → Bool
is_script type_script = true
is_script _ = false

abbrev pub is_initializer : FunctionType → Bool
is_initializer type_initializer = true
is_initializer _ = false

unfoldable pub return_statement : Act
return_statement = do
  type ← on_current (λ s c. (c.type, c))
  if is_script type then error else pure tt
  bare ← match token_semicolon
  if bare then emit_return else do
    if is_initializer type then error else pure tt
    expression parse
    consume token_semicolon
    emit_byte op_return

-- The initializer of a `for`.
unfoldable pub for_initializer : Act
for_initializer = do
  empty ← match token_semicolon
  if empty
      then pure tt
      else do declares ← match token_var; if declares then var_declaration else expression_statement

-- Its condition: the exit jump, or `none` for -1.
unfoldable pub for_condition : M (Option ℕ)
for_condition = do
  empty ← match token_semicolon
  if empty then pure none else do
    expression parse
    consume token_semicolon
    exit_jump ← emit_jump op_jump_if_false
    emit_byte op_pop
    pure (some exit_jump)

-- Its increment: where the body loops back to.
unfoldable pub for_increment : ℕ → M ℕ
for_increment loop_start = do
  empty ← match token_right_paren
  if empty then pure loop_start else do
    body_jump ← emit_jump op_jump
    increment_start ← code_count
    expression parse
    emit_byte op_pop
    consume token_right_paren
    emit_loop loop_start
    patch_jump body_jump
    pure increment_start

abbrev pub patch_exit : Option ℕ → Act
patch_exit none = pure tt
patch_exit (some exit_jump) = patch_jump exit_jump >> emit_byte op_pop

abbrev pub starts_statement : TokenType → Bool
starts_statement token_class = true
starts_statement token_fun = true
starts_statement token_var = true
starts_statement token_for = true
starts_statement token_if = true
starts_statement token_while = true
starts_statement token_print = true
starts_statement token_return = true
starts_statement _ = false

abbrev pub is_semicolon : TokenType → Bool
is_semicolon token_semicolon = true
is_semicolon _ = false

-- Whether the loop of `synchronize` goes on.
unfoldable pub out_of_sync : M Bool
out_of_sync = gets (λ s.
    not (check_now token_eof s)
    && not (is_semicolon s.previous.type)
    && not (starts_statement s.current.type))

unfoldable pub leave_panic : Act
leave_panic host s = some (tt, record s { panic_mode = false })

unfoldable pub synchronize : Act
synchronize = leave_panic >> repeat (while_true out_of_sync advance) tt
