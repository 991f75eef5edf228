-- ===== src/Parser/Statements.antt =====
-- src/compiler.c: functions, classes, declarations and statements, and `compile`. The parse
-- functions are given `statement` and `declaration`, which pass themselves on with a round less.
use my_clox.Prelude.{
  ℕ, zero, suc, ◌*◌, Bool, true, false, if◌then◌else◌, List, [], ◌∷◌, Option, none, some,
}
use my_clox.Value.{Ptr, obj_val}
use my_clox.Tokens.{
  token_left_paren, token_right_paren, token_left_brace, token_right_brace, token_semicolon,
  token_less, token_identifier, token_class, token_else, token_for, token_fun, token_if,
  token_print, token_return, token_var, token_while, token_eof,
}
use my_clox.Scanner.{init_scanner}
use my_clox.Compiler.{identifiers_equal}
use my_clox.Emit.{FunctionType, type_function, type_method, type_initializer, type_script}
use my_clox.Opcodes.{op_pop, op_jump, op_jump_if_false, op_closure, op_class, op_method}
use my_clox.Parser.{
  M, Act, ◌>>=◌, ◌>>◌, pure, stuck, gets, repeat, rounds, while_true, advance, check, consume,
  match, previous_text, emit_byte, emit_bytes, emit_loop, emit_jump, patch_jump, make_constant,
}
use my_clox.Parser.Scopes.{init_compiler, end_compiler, begin_scope, end_scope}
use my_clox.Parser.Variables.{
  identifier_constant, declare_variable, parse_variable, mark_initialized, define_variable,
}
use my_clox.Parser.Expressions.{parse, expression, named_variable}
use my_clox.Parser.Simple.{
  in_block, code_count, parameter, emit_upvalues, push_class, has_superclass, pop_class, superclass,
  var_declaration, expression_statement, print_statement, return_statement, for_initializer,
  for_condition, for_increment, patch_exit, synchronize,
}

module _ (statement declaration : Act) where
  unfoldable pub block : Act
  block = do repeat (while_true in_block declaration) tt; consume token_right_brace

  unfoldable pub function_body : Act
  function_body = do
    consume token_left_paren
    closed ← check token_right_paren
    if closed then pure tt else repeat parameter tt
    consume token_right_paren
    consume token_left_brace
    block

  unfoldable pub function : FunctionType → Act
  function type = do
    init_compiler type
    begin_scope
    function_body
    compiler ← end_compiler
    constant ← make_constant (obj_val compiler.function)
    emit_bytes op_closure constant
    emit_upvalues compiler.scopes.upvalues

  -- "init" names the initializer.
  unfoldable pub method : Act
  method = do
    consume token_identifier
    name ← previous_text
    constant ← identifier_constant name
    function (
        if identifiers_equal name (105 ∷ 110 ∷ 105 ∷ 116 ∷ [])
        then type_initializer
        else type_method)
    emit_bytes op_method constant

  unfoldable pub class_body : Act
  class_body = do
    consume token_left_brace
    repeat (while_true in_block method) tt
    consume token_right_brace
    emit_byte op_pop

  -- `classDeclaration` from where the class becomes `currentClass`.
  unfoldable pub class_rest : List ℕ → Act
  class_rest name = do
    push_class
    inherits ← match token_less
    if inherits then superclass name else pure tt
    named_variable parse name false
    class_body
    scoped ← has_superclass
    if scoped then end_scope else pure tt
    pop_class

  unfoldable pub class_declaration : Act
  class_declaration = do
    consume token_identifier
    name ← previous_text
    constant ← identifier_constant name
    declare_variable
    emit_bytes op_class constant
    define_variable constant
    class_rest name

  unfoldable pub fun_declaration : Act
  fun_declaration = do
    global ← parse_variable
    mark_initialized
    function type_function
    define_variable global

  unfoldable pub for_loop : Act
  for_loop = do
    consume token_left_paren
    for_initializer
    loop_start ← code_count
    exit_jump ← for_condition
    back_to ← for_increment loop_start
    statement
    emit_loop back_to
    patch_exit exit_jump

  unfoldable pub for_statement : Act
  for_statement = begin_scope >> for_loop >> end_scope

  unfoldable pub if_statement : Act
  if_statement = do
    consume token_left_paren
    expression parse
    consume token_right_paren
    then_jump ← emit_jump op_jump_if_false
    emit_byte op_pop
    statement
    else_jump ← emit_jump op_jump
    patch_jump then_jump
    emit_byte op_pop
    otherwise ← match token_else
    if otherwise then statement else pure tt
    patch_jump else_jump

  unfoldable pub while_statement : Act
  while_statement = do
    loop_start ← code_count
    consume token_left_paren
    expression parse
    consume token_right_paren
    exit_jump ← emit_jump op_jump_if_false
    emit_byte op_pop
    statement
    emit_loop loop_start
    patch_jump exit_jump
    emit_byte op_pop

  -- `statement`, whose calls pass `statement` and `declaration` on.
  unfoldable pub statement_of : Act
  statement_of = do
    prints ← match token_print
    if prints then print_statement else do
      repeats ← match token_for
      if repeats then for_statement else do
        branches ← match token_if
        if branches then if_statement else do
          returns ← match token_return
          if returns then return_statement else do
            loops ← match token_while
            if loops then while_statement else do
              opens ← match token_left_brace
              if opens then begin_scope >> block >> end_scope else expression_statement

  unfoldable pub declare : Act
  declare = do
    is_class ← match token_class
    if is_class then class_declaration else do
      is_fun ← match token_fun
      if is_fun
          then fun_declaration
          else do is_var ← match token_var; if is_var then var_declaration else statement

  unfoldable pub declaration_of : Act
  declaration_of = do
    declare
    panic ← gets (λ s. s.panic_mode)
    if panic then synchronize else pure tt

unfoldable mutual
  pub statement : ℕ → Act
  statement zero = stuck
  statement (suc n) = statement_of (statement n) (declaration n)

  pub declaration : ℕ → Act
  declaration zero = stuck
  declaration (suc n) = declaration_of (statement n) (declaration n)

-- Two calls for each character and token that is left.
unfoldable pub declaration_here : Act
declaration_here = gets rounds >>= λ n. declaration (2 * n)

unfoldable pub start : List ℕ → Bool → Act
start source repl_mode host s = some (tt, record s { scanner = init_scanner source repl_mode })

unfoldable pub clear_errors : Act
clear_errors host s = some (tt, record s { had_error = false; panic_mode = false })

unfoldable pub extra_semicolon : Unit {0} → M (Bool × Unit {0})
extra_semicolon _ = match token_semicolon >>= λ more. pure (more, tt)

-- By whether the end of file was there.
abbrev pub top_item : Bool → M (Bool × Unit {0})
top_item true = pure (false, tt)
top_item false = declaration_here >> repeat extra_semicolon tt >> pure (true, tt)

unfoldable pub top_level : Unit {0} → M (Bool × Unit {0})
top_level _ = match token_eof >>= top_item

-- The function, or `none` for NULL.
unfoldable pub compile : List ℕ → Bool → M (Option Ptr)
compile source repl_mode = do
  start source repl_mode
  init_compiler type_script
  clear_errors
  advance
  repeat top_level tt
  compiler ← end_compiler
  failed ← gets (λ s. s.had_error)
  pure (if failed then none else some compiler.function)
