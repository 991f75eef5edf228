-- ===== src/Tests/ParserRuns.antt =====
-- src/compiler.c: short programs, compiled.
use my_clox.Prelude.{ℕ, ◌<◌, arith, ◌≡◌, refl, true, false, List, [], ◌∷◌, Option, none, some, take}
use my_clox.Value.{Ptr}
use my_clox.Object.{ObjFunction}
use my_clox.Tokens.{token_eof, token_semicolon}
use my_clox.Scanner.{Scanner, Token}
use my_clox.Parser.{Host, State}
use my_clox.Chunk.{init_chunk}
use my_clox.Emit.{type_script}
use my_clox.Parser.Variables.{resolve}
use my_clox.Parser.Statements.{method, statement, declaration, declaration_here, compile}
use my_clox.Parser.Steps.{kind, measure, Inv, Step, Returns, not_ended}
use my_clox.Parser.Declaring.{method-Takes}
use my_clox.Parser.Toplevel.{declaration_here-Returns}
use my_clox.Parser.Compiling.{Compiled, compile-Compiled}
use my_clox.Value.{obj_val}
use my_clox.Chunk.Laws.{init_chunk-IsChunk}
use my_clox.Parser.Variables.{identifier_constant}
use my_clox.Parser.Constants.{Named, identifier_constant-Named}

abbrev host : Host
host = record {
  copy_string = λ text. 1000;
  new_function = λ n. n;
  strtod = λ text. 7;
  junk = record { byte = 99; position = record { line = 0; column = 0 }; value = 0 };
  junk_type = token_eof;
}

abbrev no_token : Token
no_token = record {
  type = token_eof;
  start = [];
  length = 0;
  position = record { line = 0; column = 0 };
}

abbrev before : State
before = record {
  current = no_token;
  previous = no_token;
  had_error = false;
  panic_mode = false;
  scanner = record {
    start = [];
    current = [];
    position = record { line = 0; column = 0 };
    repl_mode = false;
  };
  compilers = [];
  classes = [];
  made = 0;
  functions = [];
}

-- The result, and the codes of the finished functions, the last first.
abbrev codes : List (Ptr × ObjFunction) → List (List ℕ)
codes [] = []
codes ((p, f) ∷ fs) = take f.chunk.count f.chunk.code ∷ codes fs

abbrev outcome : Option (Option Ptr × State) → Option (Option Ptr × List (List ℕ))
outcome none = none
outcome (some (r, s)) = some (r, codes s.functions)

run_sum : Option (Option Ptr × List (List ℕ))
run_sum = outcome (compile (49 ∷ 43 ∷ 50 ∷ 42 ∷ 51 ∷ 59 ∷ []) false host before)

sum_source : List ℕ
sum_source = 49 ∷ 43 ∷ 50 ∷ 42 ∷ 51 ∷ 59 ∷ []

-- `1+2*3;` multiplies first: constants 0, 1 and 2, then `OP_MULTIPLY`, `OP_ADD` and `OP_POP`.
sum_code : run_sum ≡ some (some 0, (0 ∷ 0 ∷ 0 ∷ 1 ∷ 0 ∷ 2 ∷ 20 ∷ 18 ∷ 4 ∷ 1 ∷ 33 ∷ []) ∷ [])
unfolding run_sum my_clox.Parser.◌>>=◌ my_clox.Parser.pure my_clox.Parser.stuck my_clox.Parser.gets
    my_clox.Parser.loop my_clox.Parser.repeat my_clox.Parser.error my_clox.Parser.errors
    my_clox.Parser.scan my_clox.Parser.keep_previous my_clox.Parser.advance my_clox.Parser.check
    my_clox.Parser.consume my_clox.Parser.match my_clox.Parser.previous_text
    my_clox.Parser.on_current my_clox.Parser.on_chunk my_clox.Parser.emit_byte
    my_clox.Parser.emit_bytes my_clox.Parser.emit_loop my_clox.Parser.emit_jump
    my_clox.Parser.patch_jump my_clox.Parser.make_constant my_clox.Parser.emit_constant
    my_clox.Parser.emit_return my_clox.Parser.Scopes.copied my_clox.Parser.Scopes.init_compiler
    my_clox.Parser.Scopes.leave_compiler my_clox.Parser.Scopes.end_compiler
    my_clox.Parser.Scopes.on_scopes my_clox.Parser.Scopes.begin_scope
    my_clox.Parser.Scopes.lower_scope my_clox.Parser.Scopes.last_leaving
    my_clox.Parser.Scopes.drop_local my_clox.Parser.Scopes.pop_locals
    my_clox.Parser.Scopes.end_scope my_clox.Parser.Variables.identifier_constant
    my_clox.Parser.Variables.clashes my_clox.Parser.Variables.add_local
    my_clox.Parser.Variables.is_global my_clox.Parser.Variables.declare_variable
    my_clox.Parser.Variables.parse_variable my_clox.Parser.Variables.mark_initialized
    my_clox.Parser.Variables.define_variable my_clox.Parser.Variables.lookup_local
    my_clox.Parser.Variables.resolve_outside my_clox.Parser.Variables.lookup_upvalue
    my_clox.Parser.Variables.use_global my_clox.Parser.Variables.resolve
    my_clox.Parser.Literals.precedence_of my_clox.Parser.Literals.literal
    my_clox.Parser.Literals.read_number my_clox.Parser.Literals.number
    my_clox.Parser.Literals.string my_clox.Parser.Literals.match_if
    my_clox.Parser.Literals.emit_binary my_clox.Parser.Literals.emit_unary
    my_clox.Parser.Literals.check_super my_clox.Parser.Expressions.expression
    my_clox.Parser.Expressions.argument my_clox.Parser.Expressions.argument_list
    my_clox.Parser.Expressions.and_ my_clox.Parser.Expressions.or_ my_clox.Parser.Expressions.binary
    my_clox.Parser.Expressions.unary my_clox.Parser.Expressions.call my_clox.Parser.Expressions.dot
    my_clox.Parser.Expressions.grouping my_clox.Parser.Expressions.named_variable
    my_clox.Parser.Expressions.variable my_clox.Parser.Expressions.super_
    my_clox.Parser.Expressions.this_ my_clox.Parser.Expressions.prefix_rule
    my_clox.Parser.Expressions.infix_rule my_clox.Parser.Expressions.infix_step
    my_clox.Parser.Expressions.infix_round my_clox.Parser.Expressions.parse_infix
    my_clox.Parser.Expressions.parse_from my_clox.Parser.Expressions.parse_precedence
    my_clox.Parser.Expressions.parse my_clox.Parser.Simple.in_block my_clox.Parser.Simple.code_count
    my_clox.Parser.Simple.count_parameter my_clox.Parser.Simple.parameter
    my_clox.Parser.Simple.emit_upvalues my_clox.Parser.Simple.push_class
    my_clox.Parser.Simple.mark_superclass my_clox.Parser.Simple.has_superclass
    my_clox.Parser.Simple.pop_class my_clox.Parser.Simple.superclass_name
    my_clox.Parser.Simple.super_local my_clox.Parser.Simple.superclass
    my_clox.Parser.Simple.var_declaration my_clox.Parser.Simple.expression_statement
    my_clox.Parser.Simple.print_statement my_clox.Parser.Simple.return_statement
    my_clox.Parser.Simple.for_initializer my_clox.Parser.Simple.for_condition
    my_clox.Parser.Simple.for_increment my_clox.Parser.Simple.out_of_sync
    my_clox.Parser.Simple.leave_panic my_clox.Parser.Simple.synchronize
    my_clox.Parser.Statements.block my_clox.Parser.Statements.function_body
    my_clox.Parser.Statements.function my_clox.Parser.Statements.method
    my_clox.Parser.Statements.class_body my_clox.Parser.Statements.class_rest
    my_clox.Parser.Statements.class_declaration my_clox.Parser.Statements.fun_declaration
    my_clox.Parser.Statements.for_loop my_clox.Parser.Statements.for_statement
    my_clox.Parser.Statements.if_statement my_clox.Parser.Statements.while_statement
    my_clox.Parser.Statements.statement_of my_clox.Parser.Statements.declare
    my_clox.Parser.Statements.declaration_of my_clox.Parser.Statements.declaration_here
    my_clox.Parser.Statements.start my_clox.Parser.Statements.clear_errors
    my_clox.Parser.Statements.extra_semicolon my_clox.Parser.Statements.top_level
    my_clox.Parser.Statements.compile my_clox.Scanner.init_scanner my_clox.Scanner.is_at_end
    my_clox.Scanner.make_token my_clox.Scanner.advance my_clox.Scanner.advance_n
    my_clox.Scanner.error_token my_clox.Scanner.peek my_clox.Scanner.peek_next
    my_clox.Scanner.skip_line my_clox.Scanner.skip_whitespace my_clox.Scanner.scan_here
    my_clox.Scanner.scan_token my_clox.Tokens.regex_of my_clox.Tokens.lengths my_clox.Tokens.longest
    my_clox.Tokens.regexec my_clox.Tokens.from_start my_clox.Tokens.match_at my_clox.Tokens.try_type
    my_clox.Tokens.try_types my_clox.Tokens.match_regexes my_clox.Chunk.write_value_array
    my_clox.Chunk.write_chunk my_clox.Chunk.add_constant my_clox.Emit.emit_byte
    my_clox.Emit.emit_loop my_clox.Emit.emit_jump my_clox.Emit.patch_jump my_clox.Emit.make_constant
    my_clox.Emit.emit_constant my_clox.Emit.emit_return my_clox.Compiler.find_local
    my_clox.Compiler.resolve_local my_clox.Compiler.find_upvalue my_clox.Compiler.add_upvalue
    my_clox.Compiler.resolve_around my_clox.Compiler.resolve_upvalue my_clox.Compiler.add_local
    my_clox.Parser.Statements.statement my_clox.Parser.Statements.declaration
    my_clox.Table.grow_capacity
sum_code = refl

compile-Compiled_example : Returns host (compile sum_source false) before (Compiled host before)
unfolding sum_source
compile-Compiled_example = compile-Compiled host before sum_source false (omega arith) tt

-- In `class A { ; }`, at the semicolon.
abbrev at_semicolon : State
at_semicolon = record before {
  current = record no_token { type = token_semicolon };
  scanner = record {
    start = [];
    current = 125 ∷ [];
    position = record { line = 1; column = 1 };
    repl_mode = false;
  };
  compilers =
      record {
        function = 0;
        type = type_script;
        scopes = record { locals = []; upvalues = []; scope_depth = 0 };
        chunk = init_chunk;
        arity = 0;
        name = 0;
      }
      ∷ [];
}

at_semicolon-Inv : Inv at_semicolon
at_semicolon-Inv = record {
  sound = record {
    source = (omega arith, tt);
    panic = λ f. absurd (ground (arith, f));
    chained = (omega arith, omega arith, tt);
    compiling = omega arith;
  };
  ended = λ e. absurd (omega (arith, e));
}

declaration_here-Returns_example : Returns host declaration_here at_semicolon (λ _ s'.
    Inv s'
    × Step at_semicolon s'
    × (not_ended (kind at_semicolon) ≡ true → measure s' < measure at_semicolon))
declaration_here-Returns_example = declaration_here-Returns host at_semicolon at_semicolon-Inv

method-Takes_example :
    Returns host
      (method (statement 9) (declaration 9))
      at_semicolon
      (λ _ s'. Inv s' × Step at_semicolon s' × (measure s' < measure at_semicolon))
unfolding measure
method-Takes_example = method-Takes host at_semicolon 9 at_semicolon-Inv (omega arith) refl

identifier_constant-Named_example :
    Returns host (identifier_constant (97 ∷ [])) at_semicolon (Named [] [] [] (obj_val 1000) [])
identifier_constant-Named_example =
    identifier_constant-Named host at_semicolon (97 ∷ []) _ [] [] [] [] at_semicolon-Inv refl
      init_chunk-IsChunk
