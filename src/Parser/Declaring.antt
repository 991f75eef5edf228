-- ===== src/Parser/Declaring.antt =====
-- Statements and declarations end, and take a token wherever one is left.
use my_clox.Prelude.{
  ℕ, zero, suc, ◌+◌, ◌*◌, ◌≤◌, ◌<◌, ◌≡◌, refl, Bool, true, false, not, ◌&&◌, arith, Option, none,
  some,
}
use my_clox.Tokens.{
  token_left_brace, token_semicolon, token_class, token_for, token_fun, token_if, token_print,
  token_return, token_var, token_while, token_eof,
}
use my_clox.Opcodes.{op_pop}
use my_clox.Emit.{type_function}
use my_clox.Parser.{Host, State, M, Act, ◌>>◌, check_now, advance}
use my_clox.Parser.Scopes.{begin_scope, end_scope}
use my_clox.Parser.Expressions.{parse, expression}
use my_clox.Parser.Simple.{
  var_declaration, expression_statement, print_statement, return_statement, for_initializer,
  for_condition, for_increment, patch_exit, is_semicolon, starts_statement, out_of_sync,
  leave_panic, synchronize,
}
use my_clox.Parser.Statements.{
  method, block, fun_declaration, for_loop, for_statement, if_statement, while_statement,
  statement_of, declare, declaration_of, statement, declaration,
}
use my_clox.Parser.Steps.{
  kind, measure, Inv, Step, Quiet-Step, Returns, Runs, Eats, not_ended, inside, gets-Runs,
  bind-Runs, bind-Eats, pure-Runs, if-Runs, Eats-Runs, Runs-less,
}
use my_clox.Parser.Rules.{repeat-Runs}
use my_clox.Parser.Looping.{while-LiveRounds, LiveRounds-Rounds}
use my_clox.Parser.Advancing.{advance-Eats}
use my_clox.Parser.Matching.{consume-Runs, choose-Eats}
use my_clox.Parser.Keeping.{on_current-Runs, emit_byte-Runs}
use my_clox.Parser.Naming.{parse_variable-Runs, define_variable-Runs, mark_initialized-Runs}
use my_clox.Parser.Functions.{scoped-Runs}
use my_clox.Parser.Operators.{runs_rules}
use my_clox.Parser.Precedence.{parse-Eats}
use my_clox.Parser.Bodies.{code_count-Runs, block-Eats, function-Eats, method-Eats}
use my_clox.Parser.Classes.{class_declaration-Runs}

expression-Eats : {n : ℕ} → Eats not_ended n (expression parse)
unfolding expression
expression-Eats {n} = parse-Eats n 1 (omega arith)

expression-Runs : {n : ℕ} → Runs n (expression parse)
expression-Runs = Eats-Runs expression-Eats

ruleset statement_rules =
    (runs_rules, expression-Runs, parse_variable-Runs, define_variable-Runs, code_count-Runs)

var_declaration-Runs : {n : ℕ} → Runs n var_declaration
unfolding var_declaration
var_declaration-Runs = search statement_rules depth 20

expression_statement-Eats : {n : ℕ} → Eats not_ended n expression_statement
unfolding expression_statement
expression_statement-Eats =
    bind-Eats _ _ expression-Eats
      (λ _. bind-Runs _ _ (consume-Runs token_semicolon) (λ _. emit_byte-Runs op_pop))

expression_statement-Runs : {n : ℕ} → Runs n expression_statement
expression_statement-Runs = Eats-Runs expression_statement-Eats

print_statement-Runs : {n : ℕ} → Runs n print_statement
unfolding print_statement
print_statement-Runs = search statement_rules depth 20

return_statement-Runs : {n : ℕ} → Runs n return_statement
unfolding return_statement
return_statement-Runs =
    bind-Runs _ _ (on_current-Runs _ (λ s c. (refl, λ b. b)))
      (λ type. search statement_rules depth 20)

for_initializer-Runs : {n : ℕ} → Runs n for_initializer
unfolding for_initializer
for_initializer-Runs =
    search (statement_rules, var_declaration-Runs, expression_statement-Runs) depth 20

for_condition-Runs : {n : ℕ} → Runs n for_condition
unfolding for_condition
for_condition-Runs = search statement_rules depth 20

for_increment-Runs : {n : ℕ} (start : ℕ) → Runs n (for_increment start)
unfolding for_increment
for_increment-Runs start = search statement_rules depth 20

patch_exit-Runs : {n : ℕ} (o : Option ℕ) → Runs n (patch_exit o)
patch_exit-Runs none = pure-Runs tt
patch_exit-Runs (some exit_jump) = search statement_rules

leave_panic-Runs : {n : ℕ} → Runs n leave_panic
unfolding leave_panic
leave_panic-Runs = record {
  at = λ host s lt h. (
    tt,
    _,
    refl,
    Quiet-Step h (record {
      kept = record { errors = λ e. e; frames = refl; classes = refl };
      sound = record {
        source = h.sound.source;
        panic = λ e. absurd (ground (arith, e));
        chained = h.sound.chained;
        compiling = h.sound.compiling;
      };
      scanner = refl;
      current = refl;
      previous = refl;
    }),
  );
}

goes_on : (k b c : Bool) → (not k && b && c) ≡ true → not k ≡ true
goes_on k b c e = ground (arith, e)

synchronize-Runs : {n : ℕ} → Runs n synchronize
unfolding synchronize out_of_sync
synchronize-Runs = bind-Runs _ _ leave_panic-Runs (λ _. repeat-Runs _ tt (λ a. LiveRounds-Rounds _ (
    while-LiveRounds not_ended (λ _. false) _ advance advance-Eats
      (λ s e.
        goes_on (check_now token_eof s) (not (is_semicolon s.previous.type))
          (not (starts_statement s.current.type)) e)
      (λ s e. absurd (ground (arith, e))) a)))

module _ (n : ℕ) (statement declaration : Act) (xs : Runs n statement)
    (xd : Eats not_ended n declaration) where
  for_loop-Runs : Runs n (for_loop statement declaration)
  unfolding for_loop
  for_loop-Runs =
      search
        (
          statement_rules, for_initializer-Runs, for_condition-Runs, for_increment-Runs,
          patch_exit-Runs,
        )
        depth 20

  if_statement-Runs : Runs n (if_statement statement declaration)
  unfolding if_statement
  if_statement-Runs = search statement_rules depth 30

  while_statement-Runs : Runs n (while_statement statement declaration)
  unfolding while_statement
  while_statement-Runs = search statement_rules depth 30

  for_statement-Runs : Runs n (for_statement statement declaration)
  unfolding for_statement
  for_statement-Runs = scoped-Runs _ for_loop-Runs

  block-Runs : Runs n (begin_scope >> block statement declaration >> end_scope)
  block-Runs = scoped-Runs _ (Eats-Runs (block-Eats n statement declaration xd))

  statement_of-Eats : Eats not_ended (suc n) (statement_of statement declaration)
  unfolding statement_of
  statement_of-Eats = choose-Eats token_print refl _ print_statement-Runs (
      choose-Eats token_for refl _ for_statement-Runs (
        choose-Eats token_if refl _ if_statement-Runs (
          choose-Eats token_return refl _ return_statement-Runs (
            choose-Eats token_while refl _ while_statement-Runs
              (choose-Eats token_left_brace refl _ block-Runs expression_statement-Eats)))))

  fun_declaration-Runs : Runs n (fun_declaration statement declaration)
  unfolding fun_declaration
  fun_declaration-Runs = bind-Runs _ _ parse_variable-Runs (λ global.
      bind-Runs _ _ mark_initialized-Runs (λ _.
        bind-Runs _ _ (Eats-Runs (function-Eats n statement declaration xd type_function))
          (λ _. define_variable-Runs global)))

-- `statement` at the level of the declaration.
declaration_of-Eats :
    (n : ℕ) (statement declaration : Act)
    → Eats not_ended (suc n) statement
    → Eats not_ended n declaration
    → Eats not_ended (suc n) (declaration_of statement declaration)
unfolding declaration_of declare
declaration_of-Eats n statement declaration xs xd =
    bind-Eats _ _
      (choose-Eats token_class refl _ (class_declaration-Runs n statement declaration xd) (
        choose-Eats token_fun refl _
          (fun_declaration-Runs n statement declaration (Runs-less (omega arith) (Eats-Runs xs)) xd)
          (choose-Eats token_var refl _ var_declaration-Runs xs)))
      (λ _.
        bind-Runs _ _ (gets-Runs _) (λ panic. if-Runs panic _ _ synchronize-Runs (pure-Runs tt)))

nothing-Eats : {A : Type 0} (m : M A) → Eats not_ended 0 m
nothing-Eats m = record { at = λ host s lt h. absurd (omega arith) }

-- Two calls for each token that is left are enough.
pub declaration-Eats :
    (f n : ℕ)
    → (2 * n ≤ f → Eats not_ended n (declaration f))
      × (2 * n ≤ suc f → Eats not_ended n (statement f))
unfolding declaration statement
declaration-Eats f zero = (λ le. nothing-Eats (declaration f), λ le. nothing-Eats (statement f))
declaration-Eats zero (suc n) = (λ le. absurd (omega arith), λ le. absurd (omega arith))
declaration-Eats (suc f) (suc n) = (
  λ le.
      declaration_of-Eats n (statement f) (declaration f)
        ((declaration-Eats f (suc n)).1 (omega arith)) ((declaration-Eats f n).0 (omega arith)),
  λ le.
      statement_of-Eats n (statement f) (declaration f)
        (Eats-Runs ((declaration-Eats f n).1 (omega arith)))
        ((declaration-Eats f n).0 (omega arith)),
)

-- In a class body, from a sound state whose current token is neither a closing brace nor the end
-- of file, whatever else it is, a method returns and takes a token: the loop over the methods ends.
pub method-Takes :
    (host : Host) (s : State) (f : ℕ)
    → Inv s
    → 2 * measure s + 2 ≤ f
    → inside (kind s) ≡ true
    → Returns host
        (method (statement f) (declaration f))
        s
        (λ _ s'. Inv s' × Step s s' × (measure s' < measure s))
method-Takes host s f h enough live =
    let (a, t, e, (i, st, eats)) =
      (method-Eats (suc (measure s)) (statement f) (declaration f)
          ((declaration-Eats f (suc (measure s))).0 (omega arith))).at
        host s (omega arith) h in
    (a, t, e, (i, st, eats live))
