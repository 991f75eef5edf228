-- ===== src/Parser/Operators.antt =====
-- The parse functions of expressions, where `parse` does its part.
use my_clox.Prelude.{
  ℕ, suc, ◌<◌, refl, Bool, true, false, ◌==◌, arith, List, [], ◌∷◌, Option, none, some,
}
use my_clox.Tokens.{
  TokenType, token_left_paren, token_comma, token_dot, token_minus, token_plus, token_slash,
  token_star, token_bang, token_bang_equal, token_equal, token_equal_equal, token_greater,
  token_greater_equal, token_less, token_less_equal, token_identifier, token_string, token_number,
  token_and, token_false, token_nil, token_or, token_super, token_this, token_true,
}
use my_clox.Parser.{Act, pure, emit_byte}
use my_clox.Parser.Variables.{resolve}
use my_clox.Parser.Literals.{
  precedence_of, literal, read_number, number, string, match_if, emit_binary, emit_unary,
  check_super,
}
use my_clox.Parser.Expressions.{
  expression, argument, argument_list, and_, or_, binary, unary, call, dot, grouping,
  named_variable, variable, super_, this_, prefix_rule, infix_rule, call_rule,
}
use my_clox.Parser.Steps.{Runs, Rounds, Step-refl, gets-Runs, bind-Runs, pure-Runs, if-Runs}
use my_clox.Parser.Rules.{repeat-Runs, bind-Rounds}
use my_clox.Parser.Matching.{consume-Runs, match-Runs, check-Runs, again-Rounds}
use my_clox.Parser.Advancing.{error-Runs}
use my_clox.Parser.Keeping.{
  emit_byte-Runs, emit_bytes-Runs, emit_jump-Runs, patch_jump-Runs, make_constant-Runs,
  emit_constant-Runs, emit_return-Runs, emit_loop-Runs, previous_text-Runs,
}
use my_clox.Parser.Naming.{copied-Runs, identifier_constant-Runs}
use my_clox.Parser.Capturing.{resolve-Runs}

pub ruleset runs_rules = (
  gets-Runs, bind-Runs, pure-Runs, if-Runs, error-Runs, consume-Runs, match-Runs, check-Runs,
  emit_byte-Runs, emit_bytes-Runs, emit_jump-Runs, patch_jump-Runs, make_constant-Runs,
  emit_constant-Runs, emit_return-Runs, emit_loop-Runs, previous_text-Runs, copied-Runs,
  identifier_constant-Runs, resolve-Runs,
)

pub literal-Runs : {n : ℕ} → Runs n literal
unfolding literal
literal-Runs = bind-Runs _ _ (gets-Runs _) by_type
  where
    by_type :
        {n : ℕ} (type : TokenType)
        → Runs n (elim type [
          | token_false ↦ emit_byte 3
          | token_nil ↦ emit_byte 1
          | token_true ↦ emit_byte 2
          | _ ↦ pure tt
        ])
    by_type token_false = emit_byte-Runs 3
    by_type token_nil = emit_byte-Runs 1
    by_type token_true = emit_byte-Runs 2
    by_type _ = pure-Runs tt

read_number-Runs : {n : ℕ} → Runs n read_number
unfolding read_number
read_number-Runs = record {
  at = λ host s lt h. (host.strtod s.previous.start, s, refl, (h, Step-refl s));
}

number-Runs : {n : ℕ} → Runs n number
unfolding number
number-Runs = search (runs_rules, read_number-Runs)

string-Runs : {n : ℕ} → Runs n string
unfolding string
string-Runs = search runs_rules

pub match_if-Runs : {n : ℕ} (b : Bool) (type : TokenType) → Runs n (match_if b type)
unfolding match_if
match_if-Runs b type = search runs_rules

emit_binary-Runs : {n : ℕ} (type : TokenType) → Runs n (emit_binary type)
unfolding emit_binary
emit_binary-Runs token_bang_equal = search runs_rules
emit_binary-Runs _ = search runs_rules

emit_unary-Runs : {n : ℕ} (type : TokenType) → Runs n (emit_unary type)
unfolding emit_unary
emit_unary-Runs token_bang = search runs_rules
emit_unary-Runs _ = search runs_rules

check_super-Runs : {n : ℕ} (classes : List Bool) → Runs n (check_super classes)
unfolding check_super
check_super-Runs [] = error-Runs
check_super-Runs (false ∷ _) = error-Runs
check_super-Runs (true ∷ _) = pure-Runs tt

-- `parse` does its part where fewer than `n` tokens are left.
abbrev pub Parses : ℕ → (ℕ → Act) → Type 0
Parses n parse = (precedence : ℕ) → 0 < precedence → Runs n (parse precedence)

module _ (n : ℕ) (parse : ℕ → Act) (x : Parses n parse) where
  pub expression-Runs : Runs n (expression parse)
  unfolding expression
  expression-Runs = x 1 (omega arith)

  argument-Rounds : (count : ℕ) → Rounds n (argument parse count)
  unfolding argument
  argument-Rounds count = bind-Rounds _ _ expression-Runs (λ _.
      bind-Rounds _ _ (if-Runs (count == 255) _ _ error-Runs (pure-Runs tt))
        (λ _. again-Rounds token_comma refl _))

  argument_list-Runs : Runs n (argument_list parse)
  unfolding argument_list
  argument_list-Runs = search (runs_rules, repeat-Runs, argument-Rounds)

  parse_and-Runs : Runs n (parse 3)
  parse_and-Runs = x 3 (omega arith)

  parse_or-Runs : Runs n (parse 2)
  parse_or-Runs = x 2 (omega arith)

  parse_unary-Runs : Runs n (parse 8)
  parse_unary-Runs = x 8 (omega arith)

  parse_next-Runs : (k : ℕ) → Runs n (parse (suc k))
  parse_next-Runs k = x (suc k) (omega arith)

  and_-Runs : Runs n (and_ parse)
  unfolding and_
  and_-Runs = search (runs_rules, parse_and-Runs)

  or_-Runs : Runs n (or_ parse)
  unfolding or_
  or_-Runs = search (runs_rules, parse_or-Runs) depth 20

  unary-Runs : Runs n (unary parse)
  unfolding unary
  unary-Runs = search (runs_rules, parse_unary-Runs, emit_unary-Runs)

  binary-Runs : Runs n (binary parse)
  unfolding binary
  binary-Runs = search (runs_rules, parse_next-Runs, emit_binary-Runs)

  call-Runs : Runs n (call parse)
  unfolding call
  call-Runs = search (runs_rules, argument_list-Runs)

  dot-Runs : (can_assign : Bool) → Runs n (dot parse can_assign)
  unfolding dot
  dot-Runs can_assign =
      search (runs_rules, argument_list-Runs, expression-Runs, match_if-Runs) depth 20

  grouping-Runs : Runs n (grouping parse)
  unfolding grouping
  grouping-Runs = search (runs_rules, expression-Runs)

  pub named_variable-Runs :
      (name : List ℕ) (can_assign : Bool) → Runs n (named_variable parse name can_assign)
  unfolding named_variable
  named_variable-Runs name can_assign =
      bind-Runs (resolve name) _ (resolve-Runs name) (λ (get_op, set_op, arg).
        bind-Runs (match_if can_assign token_equal) _ (match_if-Runs can_assign token_equal)
          (λ assigned.
            if-Runs assigned _ _ (bind-Runs _ _ expression-Runs (λ _. emit_bytes-Runs set_op arg))
              (emit_bytes-Runs get_op arg)))

  pub variable-Runs : (can_assign : Bool) → Runs n (variable parse can_assign)
  unfolding variable
  variable-Runs can_assign = search (runs_rules, named_variable-Runs)

  super_-Runs : Runs n (super_ parse)
  unfolding super_
  super_-Runs =
      search (runs_rules, named_variable-Runs, argument_list-Runs, check_super-Runs) depth 20

  this_-Runs : Runs n (this_ parse)
  unfolding this_
  this_-Runs = search (runs_rules, variable-Runs)

  -- What a rule of the table does, where there is one.
  abbrev pub RuleRuns : Option Act → Type 0
  RuleRuns none = Unit {0}
  RuleRuns (some rule) = Runs n rule

  pub prefix_rule-RuleRuns :
      (can_assign : Bool) (type : TokenType) → RuleRuns (prefix_rule parse can_assign type)
  unfolding prefix_rule
  prefix_rule-RuleRuns can_assign token_left_paren = grouping-Runs
  prefix_rule-RuleRuns can_assign token_minus = unary-Runs
  prefix_rule-RuleRuns can_assign token_bang = unary-Runs
  prefix_rule-RuleRuns can_assign token_identifier = variable-Runs can_assign
  prefix_rule-RuleRuns can_assign token_string = string-Runs
  prefix_rule-RuleRuns can_assign token_number = number-Runs
  prefix_rule-RuleRuns can_assign token_false = literal-Runs
  prefix_rule-RuleRuns can_assign token_nil = literal-Runs
  prefix_rule-RuleRuns can_assign token_super = super_-Runs
  prefix_rule-RuleRuns can_assign token_this = this_-Runs
  prefix_rule-RuleRuns can_assign token_true = literal-Runs
  prefix_rule-RuleRuns can_assign _ = tt

  -- A token of some precedence has an infix rule.
  pub infix_rule-Runs :
      (can_assign : Bool) (type : TokenType)
      → 0 < precedence_of type
      → Runs n (call_rule (infix_rule parse can_assign type))
  unfolding infix_rule precedence_of
  infix_rule-Runs can_assign token_left_paren lt = call-Runs
  infix_rule-Runs can_assign token_dot lt = dot-Runs can_assign
  infix_rule-Runs can_assign token_minus lt = binary-Runs
  infix_rule-Runs can_assign token_plus lt = binary-Runs
  infix_rule-Runs can_assign token_slash lt = binary-Runs
  infix_rule-Runs can_assign token_star lt = binary-Runs
  infix_rule-Runs can_assign token_bang_equal lt = binary-Runs
  infix_rule-Runs can_assign token_equal_equal lt = binary-Runs
  infix_rule-Runs can_assign token_greater lt = binary-Runs
  infix_rule-Runs can_assign token_greater_equal lt = binary-Runs
  infix_rule-Runs can_assign token_less lt = binary-Runs
  infix_rule-Runs can_assign token_less_equal lt = binary-Runs
  infix_rule-Runs can_assign token_and lt = and_-Runs
  infix_rule-Runs can_assign token_or lt = or_-Runs
  infix_rule-Runs can_assign _ lt = absurd (omega arith)
