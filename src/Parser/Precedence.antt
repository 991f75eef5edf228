-- ===== src/Parser/Precedence.antt =====
-- `parsePrecedence` ends, with a round for each token that is left.
use my_clox.Prelude.{
  ℕ, zero, suc, ◌<◌, ◌≡◌, refl, ap, subst, sym, ◌∙◌, Bool, true, false, leb, if◌then◌else◌, arith,
  Option, none, some, Bool-cases, inl, inr,
}
use my_clox.Tokens.{TokenType, token_eof, token_equal}
use my_clox.Tokens.Numbers.{type_number}
use my_clox.Scanner.{Token}
use my_clox.Parser.{Host, State, Act, ◌>>=◌, ◌>>◌, pure, gets, rounds, advance}
use my_clox.Parser.Literals.{precedence_of}
use my_clox.Parser.Expressions.{
  prefix_rule, infix_rule, call_rule, infix_step, infix_round, parse_infix, after_prefix,
  parse_from, parse_precedence, parse,
}
use my_clox.Parser.Steps.{
  kind, measure, Inv, Step, Step-refl, Step-trans, Returns, Returns-bind, bind-some, Runs, Eats,
  Rounds, not_ended, bind-Runs, pure-Runs, if-Runs, Eats-Runs, Runs-less,
}
use my_clox.Parser.Rules.{repeat-Runs, rounds-enough}
use my_clox.Parser.Advancing.{Taken, advance-Taken, error-Runs}
use my_clox.Parser.Operators.{
  Parses, RuleRuns, prefix_rule-RuleRuns, infix_rule-Runs, match_if-Runs,
}

-- A token of some precedence is not the end of file.
precedence_live : (type : TokenType) → 0 < precedence_of type → not_ended (type_number type) ≡ true
unfolding precedence_of
precedence_live token_eof lt = absurd (omega arith)
precedence_live _ lt = refl

no_prefix :
    (f : ℕ → Act) (can_assign : Bool) (type : TokenType)
    → not_ended (type_number type) ≡ false
    → prefix_rule f can_assign type ≡ none
unfolding prefix_rule
no_prefix f can_assign token_eof e = refl
no_prefix f can_assign _ e = absurd (ground (arith, e))

module _ (n : ℕ) (f : ℕ → Act) (x : Parses n f) (precedence : ℕ) (can_assign : Bool) where
  after_infix :
      (host : Host) (s s' : State)
      → 0 < precedence_of s.current.type
      → measure s < suc n
      → Taken s s'
      → Returns {A = Bool × Unit {0}} host
          (gets (λ t. t.previous.type) >>= λ type.
            call_rule (infix_rule f can_assign type) >> pure (true, tt))
          s'
          (λ a t. Inv t × Step s t × (a.0 ≡ true → measure t < measure s))
  unfolding gets pure
  after_infix host s s' lt m taken =
      let live = precedence_live s.current.type lt in
      let lt' : 0 < precedence_of s'.previous.type =
        subst (λ t. 0 < precedence_of t) (ap (λ (t : Token). t.type) (sym taken.previous)) lt in
      let (a, t, e, (i, st)) =
        (infix_rule-Runs n f x can_assign s'.previous.type lt').at host s'
          (omega (arith, taken.less live)) taken.inv in
      (
        (true, tt),
        t,
        bind-some host (gets (λ t. t.previous.type)) _ s' s' s'.previous.type refl
            ∙ bind-some host (call_rule (infix_rule f can_assign s'.previous.type)) _ s' t a e,
        (i, Step-trans taken.step st, λ _. omega (arith, st.le, taken.less live)),
      )

  infix_branch :
      (host : Host) (s : State) (b : Bool)
      → leb precedence (precedence_of s.current.type) ≡ b
      → 0 < precedence
      → measure s < suc n
      → Inv s
      → Returns {A = Bool × Unit {0}} host
          (if b then infix_step f can_assign else pure (false, tt))
          s
          (λ a t. Inv t × Step s t × (a.0 ≡ true → measure t < measure s))
  unfolding pure infix_step
  infix_branch host s true e pos lt h =
      Returns-bind host advance _ s _ _ (advance-Taken host s h)
        (λ _ s' taken. after_infix host s s' (ground (arith, e, pos)) lt taken)
  infix_branch host s false e pos lt h =
      ((false, tt), s, refl, (h, Step-refl s, λ t. absurd (ground (arith, t))))

  infix_round-Rounds : 0 < precedence → Rounds (suc n) (infix_round f precedence can_assign tt)
  unfolding infix_round gets
  infix_round-Rounds pos = record {
    at = λ host s lt h.
        let next = precedence_of s.current.type in
        let (a, t, e, p) = infix_branch host s (leb precedence next) refl pos lt h in
        (a, t, bind-some host (gets (λ t. precedence_of t.current.type)) _ s s next refl ∙ e, p);
  }

  parse_infix-Runs : 0 < precedence → Runs (suc n) (parse_infix f precedence can_assign)
  unfolding parse_infix
  parse_infix-Runs pos = bind-Runs _ _ (repeat-Runs _ tt (λ _. infix_round-Rounds pos)) (λ _.
      bind-Runs _ _ (match_if-Runs can_assign token_equal)
        (λ invalid. if-Runs invalid _ _ error-Runs (pure-Runs tt)))

  after_prefix-Runs :
      (rule : Option Act)
      → 0 < precedence
      → RuleRuns n f x rule
      → Runs n (after_prefix f precedence can_assign rule)
  after_prefix-Runs none pos h = error-Runs
  after_prefix-Runs (some rule) pos h =
      bind-Runs rule _ h (λ _. Runs-less (omega arith) (parse_infix-Runs pos))

  after_advance :
      (host : Host) (s s' : State)
      → 0 < precedence
      → measure s < suc n
      → Taken s s'
      → Returns host
          (after_prefix f precedence can_assign (prefix_rule f can_assign s'.previous.type))
          s'
          (λ a t. Inv t × Step s' t)
  after_advance host s s' pos lt taken = elim (Bool-cases (not_ended (kind s))) [
    | inl live ↦
        (after_prefix-Runs _ pos (prefix_rule-RuleRuns n f x can_assign s'.previous.type)).at host
          s' (omega (arith, taken.less live)) taken.inv
    | inr at_end ↦
        let e : not_ended (type_number s'.previous.type) ≡ false =
          subst (λ (t : Token). not_ended (type_number t.type) ≡ false) (sym taken.previous)
            at_end in
        subst
          (λ rule.
            Returns host (after_prefix f precedence can_assign rule) s' (λ a t. Inv t × Step s' t))
          (sym (no_prefix f can_assign s'.previous.type e))
          ((error-Runs {n = suc (measure s')}).at host s' (omega arith) taken.inv)
  ]

parse_from-Eats :
    (n : ℕ) (f : ℕ → Act) (precedence : ℕ)
    → Parses n f
    → 0 < precedence
    → Eats not_ended (suc n) (parse_from f precedence)
unfolding parse_from gets
parse_from-Eats n f precedence x pos = record {
  at = λ host s lt h. Returns-bind host advance _ s _ _ (advance-Taken host s h) (λ _ s' taken.
      let (a, t, e, (i, st)) =
        after_advance n f x precedence (leb precedence 1) host s s' pos lt taken in
      (
        a,
        t,
        bind-some host (gets (λ t. t.previous.type)) _ s' s' s'.previous.type refl ∙ e,
        (i, Step-trans taken.step st, λ live. omega (arith, st.le, taken.less live)),
      ));
}

-- With `n` rounds, an expression is parsed from every state where fewer than `n` tokens and
-- characters are left.
pub parse_precedence-Eats :
    (n precedence : ℕ) → 0 < precedence → Eats not_ended n (parse_precedence n precedence)
unfolding parse_precedence
parse_precedence-Eats zero precedence pos = record { at = λ host s lt h. absurd (omega arith) }
parse_precedence-Eats (suc n) precedence pos =
    parse_from-Eats n (parse_precedence n) precedence
      (λ k k_pos. Eats-Runs (parse_precedence-Eats n k k_pos)) pos

pub parse-Eats : (n precedence : ℕ) → 0 < precedence → Eats not_ended n (parse precedence)
unfolding parse gets
parse-Eats n precedence pos = record {
  at = λ host s lt h.
      let (a, t, e, p) =
        (parse_precedence-Eats (rounds s) precedence pos).at host s (rounds-enough s) h in
      (a, t, bind-some host (gets rounds) _ s s (rounds s) refl ∙ e, p);
}
