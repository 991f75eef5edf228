-- ===== src/Parser/Matching.antt =====
-- `consume` and `match`, and a rule for what follows a `match`.
use my_clox.Prelude.{
  ℕ, zero, suc, ◌<◌, ◌≡◌, ◌≢◌, refl, ◌∙◌, Bool, true, false, if◌then◌else◌, arith,
}
use my_clox.Tokens.{TokenType}
use my_clox.Tokens.Numbers.{type_number}
use my_clox.Parser.{
  Host, State, M, ◌>>=◌, ◌>>◌, pure, gets, check_now, error, errors, advance, check, consume, match,
}
use my_clox.Parser.Steps.{
  bind-some, kind, measure, Inv, Step, Step-trans, Step-refl, Returns, Returns-bind, Runs, Eats,
  Rounds, not_ended, gets-Runs, bind-Runs, pure-Runs, if-Runs, Eats-Runs, eats_later,
}
use my_clox.Parser.Advancing.{advance-Eats, error-Runs}

pub record Matched (type : TokenType) (s : State) (b : Bool) (s' : State) : Type 0 where
  pub inv : Inv s'
  pub step : Step s s'
  pub there : b ≡ true → kind s ≡ type_number type
  pub taken : b ≡ true → not_ended (type_number type) ≡ true → measure s' < measure s
  pub missing : b ≡ false → kind s' ≢ type_number type

after_check :
    (type : TokenType) (host : Host) (s : State) (b : Bool)
    → check_now type s ≡ b
    → Inv s
    → Returns host (if b then advance >> pure true else pure false) s (Matched type s)
unfolding pure
after_check type host s true e h =
    Returns-bind host advance _ s _ _
      ((advance-Eats {n = suc (measure s)}).at host s (omega arith) h)
      (λ _ s' (i, st, eats). (
        true,
        s',
        refl,
        record {
          inv = i;
          step = st;
          there = λ _. ground (arith, e);
          taken = λ _ real. eats (ground (arith, e, real));
          missing = λ f. absurd (ground (arith, f));
        },
      ))
after_check type host s false e h = (
  false,
  s,
  refl,
  record {
    inv = h;
    step = Step-refl s;
    there = λ f. absurd (ground (arith, f));
    taken = λ f. absurd (ground (arith, f));
    missing = λ _ k. ground (arith, e, k);
  },
)

pub match-Matched :
    (type : TokenType) (host : Host) (s : State)
    → Inv s
    → Returns host (match type) s (Matched type s)
unfolding match check gets
match-Matched type host s h =
    let (b, s', e, m) = after_check type host s (check_now type s) refl h in
    (b, s', bind-some host (check type) _ s s (check_now type s) refl ∙ e, m)

pub match-Runs : {n : ℕ} (type : TokenType) → Runs n (match type)
match-Runs type = record {
  at =
      λ host s lt h. let (b, s', e, m) = match-Matched type host s h in (b, s', e, (m.inv, m.step));
}

pub check-Runs : {n : ℕ} (type : TokenType) → Runs n (check type)
unfolding check
check-Runs type = gets-Runs (check_now type)

pub advance-Runs : {n : ℕ} → Runs n advance
advance-Runs = Eats-Runs advance-Eats

pub consume-Runs : {n : ℕ} (type : TokenType) → Runs n (consume type)
unfolding consume
consume-Runs type =
    bind-Runs (check type) _ (check-Runs type) (λ there. if-Runs there _ _ advance-Runs error-Runs)

pub errors-Runs : {n : ℕ} (k : ℕ) → Runs n (errors k)
unfolding errors
errors-Runs zero = pure-Runs tt
errors-Runs (suc k) = bind-Runs error _ error-Runs (λ _. errors-Runs k)

module _ {A : Type 0} {n : ℕ} (type : TokenType) (real : not_ended (type_number type) ≡ true) where
  -- After a token that was there, one less is left.
  pub choose-Runs :
      (f : Bool → M A) → Runs n (f true) → Runs (suc n) (f false) → Runs (suc n) (match type >>= f)
  choose-Runs f x y = record {
    at = λ host s lt h.
        Returns-bind host (match type) f s _ _ (match-Matched type host s h)
          (λ b s' m. branch host s s' b m lt);
  }
    where
      branch :
          (host : Host) (s s' : State) (b : Bool)
          → Matched type s b s'
          → measure s < suc n
          → Returns host (f b) s' (λ a t. Inv t × Step s t)
      branch host s s' true m lt =
          let (a, t, e, (i, st)) = x.at host s' (omega (arith, m.taken refl real)) m.inv in
          (a, t, e, (i, Step-trans m.step st))
      branch host s s' false m lt =
          let (a, t, e, (i, st)) = y.at host s' (omega (arith, m.step.le)) m.inv in
          (a, t, e, (i, Step-trans m.step st))

  pub choose-Eats :
      {live : ℕ → Bool} (f : Bool → M A)
      → Runs n (f true)
      → Eats live (suc n) (f false)
      → Eats live (suc n) (match type >>= f)
  choose-Eats {live} f x y = record {
    at = λ host s lt h.
        Returns-bind host (match type) f s _ _ (match-Matched type host s h)
          (λ b s' m. branch host s s' b m lt);
  }
    where
      branch :
          (host : Host) (s s' : State) (b : Bool)
          → Matched type s b s'
          → measure s < suc n
          → Returns host
              (f b)
              s'
              (λ a t. Inv t × Step s t × (live (kind s) ≡ true → measure t < measure s))
      branch host s s' true m lt =
          let (a, t, e, (i, st)) = x.at host s' (omega (arith, m.taken refl real)) m.inv in
          (a, t, e, (i, Step-trans m.step st, λ l. omega (arith, st.le, m.taken refl real)))
      branch host s s' false m lt =
          let (a, t, e, (i, st, eats)) = y.at host s' (omega (arith, m.step.le)) m.inv in
          (a, t, e, (i, Step-trans m.step st, eats_later live s s' t m.step st.le eats))

  pub again-Rounds : (a : A) → Rounds n (match type >>= λ more. pure (more, a))
  unfolding pure
  again-Rounds a = record {
    at = λ host s lt h.
        Returns-bind host (match type) _ s _ _ (match-Matched type host s h)
          (λ b s' m. ((b, a), s', refl, (m.inv, m.step, λ more. m.taken more real)));
  }
