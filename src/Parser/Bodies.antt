-- ===== src/Parser/Bodies.antt =====
-- Blocks, the bodies of functions, and methods, where `statement` and `declaration` do their part.
use my_clox.Prelude.{ℕ, suc, ◌<◌, ◌≡◌, refl, Bool, true, ltb, arith, List, [], ◌∷◌, map, length}
use my_clox.Value.{obj_val}
use my_clox.Tokens.{
  token_left_paren, token_right_paren, token_left_brace, token_right_brace, token_comma,
  token_identifier,
}
use my_clox.Opcodes.{op_closure}
use my_clox.Emit.{FunctionType}
use my_clox.Compiler.{Upvalue}
use my_clox.Parser.{Host, State, Act, ◌>>=◌, ◌>>◌, repeat, while_true, emit_bytes, make_constant}
use my_clox.Parser.Scopes.{init_compiler, end_compiler, begin_scope}
use my_clox.Parser.Simple.{in_block, code_count, count_parameter, parameter, emit_upvalues}
use my_clox.Parser.Statements.{block, function_body, function, method}
use my_clox.Parser.Steps.{
  Frame, frame, kind, measure, Inv, Returns, Returns-bind, Runs, Eats, Rounds, not_ended, inside,
  bind-Runs, bind-Eats, later-Eats, pure-Runs, if-Runs,
}
use my_clox.Parser.Rules.{repeat-Runs, bind-Rounds}
use my_clox.Parser.Looping.{while-LiveRounds, repeat-Eats}
use my_clox.Parser.Advancing.{error-Runs}
use my_clox.Parser.Matching.{consume-Runs, check-Runs, again-Rounds}
use my_clox.Parser.Keeping.{
  on_current-Runs, emit_byte-Runs, emit_bytes-Runs, make_constant-Runs, previous_text-Runs,
}
use my_clox.Parser.Naming.{parse_variable-Runs, define_variable-Runs, identifier_constant-Runs}
use my_clox.Parser.Capturing.{length-map}
use my_clox.Parser.Scoping.{
  Stands, Stands-here, Stands-self, Stands-trans, Stands-Step, Step-Stands, Runs-Stands,
}
use my_clox.Parser.Functions.{
  begin_scope-Stands, init_compiler-Stands, end_compiler-Stands, eats_from,
}

pub code_count-Runs : {n : ℕ} → Runs n code_count
unfolding code_count
code_count-Runs = on_current-Runs _ (λ s c. (refl, λ b. b))

count_parameter-Runs : {n : ℕ} → Runs n count_parameter
unfolding count_parameter
count_parameter-Runs =
    bind-Runs _ _ (on_current-Runs _ (λ s c. (refl, λ b. b)))
      (λ arity. if-Runs (ltb 255 arity) _ _ error-Runs (pure-Runs tt))

parameter-Rounds : {n : ℕ} (a : Unit {0}) → Rounds n (parameter a)
unfolding parameter
parameter-Rounds a = bind-Rounds _ _ count_parameter-Runs (λ _.
    bind-Rounds _ _ parse_variable-Runs (λ constant.
      bind-Rounds _ _ (define_variable-Runs constant) (λ _. again-Rounds token_comma refl tt)))

emit_upvalues-Runs : {n : ℕ} (upvalues : List Upvalue) → Runs n (emit_upvalues upvalues)
unfolding emit_upvalues
emit_upvalues-Runs [] = pure-Runs tt
emit_upvalues-Runs (up ∷ upvalues) =
    bind-Runs _ _ (emit_byte-Runs _)
      (λ _. bind-Runs _ _ (emit_byte-Runs _) (λ _. emit_upvalues-Runs upvalues))

inside-live : (k : ℕ) → inside k ≡ true → not_ended k ≡ true
inside-live k e = ground (arith, e)

-- A loop over what stands in braces takes a token wherever there is one in them.
pub braces-Eats :
    {n : ℕ} (live : ℕ → Bool) (body : Act)
    → ((k : ℕ) → inside k ≡ true → live k ≡ true)
    → Eats live n body
    → Eats inside n (repeat (while_true in_block body) tt)
unfolding in_block
braces-Eats live body wide x =
    repeat-Eats _ tt (while-LiveRounds live inside _ body x (λ s e. wide (kind s) e) (λ s e. e))

module _ (n : ℕ) (statement declaration : Act) (x : Eats not_ended n declaration) where
  pub block-Eats : Eats inside n (block statement declaration)
  unfolding block
  block-Eats =
      bind-Eats _ _ (braces-Eats not_ended declaration inside-live x)
        (λ _. consume-Runs token_right_brace)

  pub function_body-Eats : Eats inside n (function_body statement declaration)
  unfolding function_body
  function_body-Eats = later-Eats _ _ (consume-Runs token_left_paren) (λ _.
      later-Eats _ _ (check-Runs token_right_paren) (λ closed.
        later-Eats _ _ (if-Runs closed _ _ (pure-Runs tt) (repeat-Runs _ tt parameter-Rounds)) (λ _.
          later-Eats _ _ (consume-Runs token_right_paren)
            (λ _. later-Eats _ _ (consume-Runs token_left_brace) (λ _. block-Eats)))))

  some_frames : (s : State) → Inv s → 0 < length (map frame s.compilers)
  some_frames s h = omega (arith, h.sound.compiling, length-map frame s.compilers)

  -- The function that was compiled is left, and becomes a constant of the one around.
  after_body :
      (host : Host) (s : State) (f : Frame) (frames : List Frame) (classes : List Bool)
      → 0 < length frames
      → Stands s (f ∷ frames) classes s
      → Returns host
          (end_compiler >>= λ c. make_constant (obj_val c.function) >>= λ constant.
            emit_bytes op_closure constant >> emit_upvalues c.scopes.upvalues)
          s
          (λ _. Stands s frames classes)
  after_body host s f frames classes more h =
      Returns-bind host end_compiler _ s _ _ (end_compiler-Stands host s s f frames classes more h)
        (λ c s' h'.
          Runs-Stands _ host s s' frames classes
            (bind-Runs {n = suc (measure s)} _ _ (make_constant-Runs _) (λ constant.
              bind-Runs _ _ (emit_bytes-Runs op_closure constant)
                (λ _. emit_upvalues-Runs c.scopes.upvalues)))
            (omega arith) h')

  pub function-Eats : (type : FunctionType) → Eats inside n (function statement declaration type)
  unfolding function
  function-Eats type = record {
    at = λ host s lt h.
        let F = map frame s.compilers in
        Returns-bind host (init_compiler type) _ s _ _
          (init_compiler-Stands host s s F s.classes (Stands-here s h) type)
          (λ _ s1 h1.
            Returns-bind host begin_scope _ s1 _ _ (begin_scope-Stands host s s1 _ s.classes h1)
              (λ _ s2 h2.
                Returns-bind host (function_body statement declaration) _ s2 _ _
                  (function_body-Eats.at host s2 (omega (arith, h2.le)) h2.inv)
                  (λ _ s3 (i, st, eats).
                    let h3 = Step-Stands s s2 s3 _ s.classes h2 i st in
                    let (a, t, e, h4) =
                      after_body host s3 _ F s.classes (some_frames s h)
                        (Stands-self s s3 _ s.classes h3) in
                    let (i', st') =
                      Stands-Step s t (Stands-trans s s3 t _ F s.classes s.classes h3 h4) in
                    (
                      a,
                      t,
                      e,
                      (
                        i',
                        st',
                        λ l.
                            omega
                              (arith, h4.le, eats_from inside s s2 s3 _ s.classes h2 st.le eats l),
                      ),
                    ))));
  }

  pub method-Eats : Eats inside n (method statement declaration)
  unfolding method
  method-Eats = later-Eats _ _ (consume-Runs token_identifier) (λ _.
      later-Eats _ _ previous_text-Runs (λ name.
        later-Eats _ _ (identifier_constant-Runs name)
          (λ constant. bind-Eats _ _ (function-Eats _) (λ _. emit_bytes-Runs _ constant))))
