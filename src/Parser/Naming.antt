-- ===== src/Parser/Naming.antt =====
-- Variables: declaring them, and looking them up in the functions around.
use my_clox.Prelude.{
  ℕ, zero, suc, ◌≤◌, ◌≡◌, refl, ap, Bool, true, false, ◌==◌, if◌then◌else◌, arith, List, [], ◌∷◌,
  length, length-append, Option, none, some, Bool-cases, inl, inr,
}
use my_clox.Compiler.{
  Local, Upvalue, Compiler, find_upvalue, add_upvalue, capture, resolve_local, resolve_around,
  resolve_upvalue,
}
use my_clox.Compiler
use my_clox.Value.{obj_val}
use my_clox.Tokens.{token_identifier}
use my_clox.Opcodes.{op_define_global}
use my_clox.Parser.{◌>>◌, pure, errors, consume, previous_text, emit_byte}
use my_clox.Parser.Scopes.{copied, drop_last, drop_local, last_leaving, pop_locals}
use my_clox.Parser.Variables.{
  identifier_constant, add_local, is_global, declare_variable, parse_variable, set_last_depth,
  mark_initialized, define_variable, lookup_local,
}
use my_clox.Parser.Steps.{Step-refl, Runs, bind-Runs, pure-Runs, if-Runs}
use my_clox.Parser.Matching.{errors-Runs, consume-Runs}
use my_clox.Parser.Keeping.{
  IsBounded, on_scopes-Runs, reads-Runs, emit_byte-Runs, emit_bytes-Runs, make_constant-Runs,
  previous_text-Runs,
}

pub copied-Runs : {n : ℕ} (text : List ℕ) → Runs n (copied text)
unfolding copied
copied-Runs text = record { at = λ host s lt h. (host.copy_string text, s, refl, (h, Step-refl s)) }

pub identifier_constant-Runs : {n : ℕ} (name : List ℕ) → Runs n (identifier_constant name)
unfolding identifier_constant
identifier_constant-Runs name =
    bind-Runs (copied name) _ (copied-Runs name) (λ p. make_constant-Runs (obj_val p))

add_local-IsBounded :
    (c : Compiler) (name : List ℕ)
    → ((Compiler.add_local c name).1.scope_depth ≡ c.scope_depth)
      × (IsBounded c → IsBounded (Compiler.add_local c name).1)
add_local-IsBounded c name =
    unfold Compiler.add_local in
    elim (Bool-cases (length c.locals == 256)) [
      | inl full ↦ rw full (refl, λ b. b)
      | inr more ↦ rw more (
        refl,
        λ (locals, upvalues). (
          ground (
            arith,
            length-append c.locals (record { name = name; depth = none; is_captured = false } ∷ []),
            more,
          ),
          upvalues,
        ),
      )
    ]

pub add_local-Runs : {n : ℕ} (name : List ℕ) → Runs n (add_local name)
unfolding add_local
add_local-Runs name =
    bind-Runs _ errors (on_scopes-Runs _ (λ s c. add_local-IsBounded c name)) errors-Runs

pub is_global-Runs : {n : ℕ} → Runs n is_global
unfolding is_global
is_global-Runs = reads-Runs _

pub declare_variable-Runs : {n : ℕ} → Runs n declare_variable
unfolding declare_variable
declare_variable-Runs = bind-Runs is_global _ is_global-Runs (λ global.
    bind-Runs previous_text _ previous_text-Runs (λ name. if-Runs global _ _ (pure-Runs tt) (
      bind-Runs _ _ (reads-Runs _)
        (λ k. bind-Runs (errors k) _ (errors-Runs k) (λ _. add_local-Runs name)))))

pub parse_variable-Runs : {n : ℕ} → Runs n parse_variable
unfolding parse_variable
parse_variable-Runs = bind-Runs (consume token_identifier) _ (consume-Runs token_identifier) (λ _.
    bind-Runs declare_variable _ declare_variable-Runs (λ _.
      bind-Runs is_global _ is_global-Runs (λ global.
        bind-Runs previous_text _ previous_text-Runs
          (λ name. if-Runs global _ _ (identifier_constant-Runs name) (pure-Runs 0)))))

length-set_last_depth : (d : ℕ) (l : List Local) → length (set_last_depth d l) ≡ length l
length-set_last_depth d [] = refl
length-set_last_depth d (x ∷ []) = refl
length-set_last_depth d (x ∷ y ∷ l) = ap suc (length-set_last_depth d (y ∷ l))

length-drop_last-le : (l : List Local) → length (drop_last l) ≤ length l
length-drop_last-le [] = omega arith
length-drop_last-le (x ∷ []) = omega arith
length-drop_last-le (x ∷ y ∷ l) = omega (arith, length-drop_last-le (y ∷ l))

marked : (c : Compiler) (b : Bool) → Compiler
marked c b = if b then c else record c { locals = set_last_depth c.scope_depth c.locals }

marked-IsBounded :
    (c : Compiler) (b : Bool)
    → ((marked c b).scope_depth ≡ c.scope_depth) × (IsBounded c → IsBounded (marked c b))
unfolding marked
marked-IsBounded c true = (refl, λ b. b)
marked-IsBounded c false = (
  refl,
  λ (locals, upvalues). (omega (arith, length-set_last_depth c.scope_depth c.locals), upvalues),
)

pub mark_initialized-Runs : {n : ℕ} → Runs n mark_initialized
unfolding mark_initialized marked
mark_initialized-Runs = on_scopes-Runs _ (λ s c. marked-IsBounded c (c.scope_depth == 0))

pub define_variable-Runs : {n : ℕ} (global : ℕ) → Runs n (define_variable global)
unfolding define_variable
define_variable-Runs global =
    bind-Runs is_global _ is_global-Runs
      (λ at_top. if-Runs at_top _ _ (emit_bytes-Runs op_define_global global) mark_initialized-Runs)

pub lookup_local-Runs : {n : ℕ} (name : List ℕ) → Runs n (lookup_local name)
unfolding lookup_local
lookup_local-Runs name =
    bind-Runs _ _ (reads-Runs _)
      (λ (arg, k). bind-Runs (errors k) _ (errors-Runs k) (λ _. pure-Runs arg))

drop_local-Runs : {n : ℕ} → Runs n drop_local
unfolding drop_local
drop_local-Runs =
    on_scopes-Runs _
      (λ s c. (refl, λ (locals, upvalues). (omega (arith, length-drop_last-le c.locals), upvalues)))

pub pop_locals-Runs : {n : ℕ} (count : ℕ) → Runs n (pop_locals count)
unfolding pop_locals last_leaving
pop_locals-Runs zero = pure-Runs tt
pop_locals-Runs (suc count) = bind-Runs _ _ (reads-Runs _) (λ o. popped o (pop_locals-Runs count))
  where
    popped :
        {n : ℕ} (o : Option ℕ)
        → Runs n (pop_locals count)
        → Runs n (elim o [
          | none ↦ pure tt
          | some byte ↦ emit_byte byte >> drop_local >> pop_locals count
        ])
    popped none rest = pure-Runs tt
    popped (some byte) rest =
        bind-Runs (emit_byte byte >> drop_local) _
          (bind-Runs (emit_byte byte) _ (emit_byte-Runs byte) (λ _. drop_local-Runs)) (λ _. rest)
