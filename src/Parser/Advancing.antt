-- ===== src/Parser/Advancing.antt =====
-- `advance` takes a token, until the end of file.
use my_clox.Prelude.{
  ℕ, zero, suc, ◌≤◌, ◌<◌, ◌≡◌, refl, ap, sym, ◌∙◌, Bool, true, false, if◌then◌else◌, arith,
  eq_cases, inl, inr,
}
use my_clox.Tokens.{TokenType, token_error}
use my_clox.Tokens.Numbers.{type_number}
use my_clox.Scanner.{Token, Scanner, is_error}
use my_clox.Parser.{
  Host, State, M, ◌>>=◌, ◌>>◌, pure, gets, loop, repeat, rounds, scan, error, keep_previous,
  advance,
}
use my_clox.Parser.Steps.{
  bind-some, kind, left, left_of, waiting, measure, Sound, Inv, Kept, Quiet, Quiet-Step, Kept-refl,
  Kept-trans, Step, Returns, Returns-bind, Runs, Eats, not_ended,
}
use my_clox.Parser.Scanning.{Scanned, scan-Scanned}

-- `advance`: the loop over the tokens that are errors, which starts with what the scanner has left.
record Advanced (s s' : State) : Type 0 where
  kept : Kept s s'
  sound : Sound s'
  previous : s'.previous ≡ s.previous
  le : measure s' ≤ left s
  ended : kind s' ≡ 38 → left s' ≡ 0

abbrev error_or_done : Bool → M (Bool × Unit {0})
error_or_done b = if b then error >> pure (true, tt) else pure (false, tt)

abbrev error_round : Unit {0} → M (Bool × Unit {0})
error_round _ = scan >>= λ token. error_or_done (is_error token.type)

blame :
    (s : State) (b : Bool)
    → s.panic_mode ≡ b
    → Sound s
    → Quiet s (if b then s else record s { panic_mode = true; had_error = true })
blame s true e h = record {
  kept = Kept-refl s;
  sound = h;
  scanner = refl;
  current = refl;
  previous = refl;
}
blame s false e h = record {
  kept = record { errors = λ t. refl; frames = refl; classes = refl };
  sound = record {
    source = h.source;
    panic = λ t. refl;
    chained = h.chained;
    compiling = h.compiling;
  };
  scanner = refl;
  current = refl;
  previous = refl;
}

error-Quiet : (host : Host) (s : State) → Sound s → Returns host error s (λ _. Quiet s)
unfolding error
error-Quiet host s h = (tt, _, refl, blame s s.panic_mode refl h)

record Tried (s : State) (more : Bool) (s' : State) : Type 0 where
  kept : Kept s s'
  sound : Sound s'
  previous : s'.previous ≡ s.previous
  less : more ≡ true → left s' < left s
  done : more ≡ false → Advanced s s'

error_waits : (type : TokenType) → is_error type ≡ true → waiting (type_number type) ≡ 1
error_waits token_error e = refl
error_waits _ e = absurd (ground (arith, e))

-- One round, by whether the token is an error.
after_scan :
    (host : Host) (s s' : State) (token : Token) (b : Bool)
    → is_error token.type ≡ b
    → Scanned s token s'
    → Returns host (error_or_done b) s' (λ a. Tried s a.0)
unfolding pure measure
after_scan host s s' token true e h =
    Returns-bind host error _ s' _ _ (error-Quiet host s' h.sound) (λ _ t b. (
      (true, tt),
      t,
      refl,
      record {
        kept = Kept-trans h.kept b.kept;
        sound = b.sound;
        previous = b.previous ∙ h.previous;
        less = λ _. omega (
          arith,
          ap (λ (x : Scanner). left_of x.current x.repl_mode) b.scanner,
          h.le,
          error_waits token.type e,
        );
        done = λ f. absurd (ground (arith, f));
      },
    ))
after_scan host s s' token false e h = (
  (false, tt),
  s',
  refl,
  record {
    kept = h.kept;
    sound = h.sound;
    previous = h.previous;
    less = λ f. absurd (ground (arith, f));
    done = λ _. record {
      kept = h.kept;
      sound = h.sound;
      previous = h.previous;
      le = omega (arith, ap (λ (t : Token). waiting (type_number t.type)) h.current, h.le);
      ended = λ k. h.ended (ap (λ (t : Token). type_number t.type) (sym h.current) ∙ k);
    };
  },
)

go_on :
    (f : ℕ) (host : Host) (s : State) (more : Bool) (s' : State)
    → Tried s more s'
    → (left s' < left s → Sound s' → Returns host (loop f error_round tt) s' (λ _. Advanced s'))
    → Returns host (if more then loop f error_round tt else pure tt) s' (λ _. Advanced s)
unfolding pure
go_on f host s true s' tried rest =
    let (a, t, e, adv) = rest (tried.less refl) tried.sound in
    (
      a,
      t,
      e,
      record {
        kept = Kept-trans tried.kept adv.kept;
        sound = adv.sound;
        previous = adv.previous ∙ tried.previous;
        le = omega (arith, adv.le, tried.less refl);
        ended = adv.ended;
      },
    )
go_on f host s false s' tried rest = (tt, s', refl, tried.done refl)

error_round-Tried :
    (host : Host) (s : State) → Sound s → Returns host (error_round tt) s (λ a. Tried s a.0)
error_round-Tried host s h =
    Returns-bind host scan _ s _ _ (scan-Scanned host s h)
      (λ token s' scanned. after_scan host s s' token (is_error token.type) refl scanned)

error_loop :
    (f : ℕ) (host : Host) (s : State)
    → left s < f
    → Sound s
    → Returns host (loop f error_round tt) s (λ _. Advanced s)
unfolding loop
error_loop zero host s lt h = absurd (omega arith)
error_loop (suc f) host s lt h =
    Returns-bind host (error_round tt) _ s _ _ (error_round-Tried host s h) (λ (more, _) s' tried.
      go_on f host s more s' tried (λ less. error_loop f host s' (omega arith)))

abbrev kept_previous : State → State
kept_previous s = record s { previous = s.current }

advance-Advanced :
    (host : Host) (s : State) → Sound s → Returns host advance s (λ _. Advanced (kept_previous s))
unfolding advance keep_previous repeat gets
advance-Advanced host s h =
    let s' = kept_previous s in
    let (a, t, e, adv) = error_loop (rounds s') host s' (ground arith) (record {
      source = h.source;
      panic = h.panic;
      chained = h.chained;
      compiling = h.compiling;
    }) in
    (
      a,
      t,
      bind-some host keep_previous _ s s' tt refl
          ∙ bind-some host (gets rounds) _ s' s' (rounds s') refl
          ∙ e,
      adv,
    )

-- What `advance` does: the current token becomes the previous one.
pub record Taken (s s' : State) : Type 0 where
  pub inv : Inv s'
  pub step : Step s s'
  pub less : not_ended (kind s) ≡ true → measure s' < measure s
  pub previous : s'.previous ≡ s.current

Advanced-Taken : (s s' : State) → Inv s → Advanced (kept_previous s) s' → Taken s s'
unfolding measure
Advanced-Taken s s' h adv = record {
  inv = record { sound = adv.sound; ended = adv.ended };
  step = record {
    kept = record {
      errors = adv.kept.errors;
      frames = adv.kept.frames;
      classes = adv.kept.classes;
    };
    le = omega (arith, adv.le);
    same = λ e. elim (eq_cases (kind s) 38) [
      | inl at_end ↦ ground (arith, adv.le, e, h.ended at_end)
      | inr more ↦ absurd (ground (arith, adv.le, e))
    ];
  };
  less = λ live. ground (arith, adv.le);
  previous = adv.previous;
}

-- The first `advance`, where the current token is none of this source's.
pub advance-first :
    (host : Host) (s : State) → Sound s → Returns host advance s (λ _ s'. Inv s' × Kept s s')
advance-first host s h =
    let (a, s', e, adv) = advance-Advanced host s h in
    (
      a,
      s',
      e,
      (
        record { sound = adv.sound; ended = adv.ended },
        record { errors = adv.kept.errors; frames = adv.kept.frames; classes = adv.kept.classes },
      ),
    )

pub advance-Taken : (host : Host) (s : State) → Inv s → Returns host advance s (λ _. Taken s)
advance-Taken host s h =
    let (a, s', e, adv) = advance-Advanced host s h.sound in (a, s', e, Advanced-Taken s s' h adv)

pub advance-Eats : {n : ℕ} → Eats not_ended n advance
advance-Eats = record {
  at = λ host s lt h.
      let (a, s', e, t) = advance-Taken host s h in (a, s', e, (t.inv, t.step, t.less));
}

pub error-Runs : {n : ℕ} → Runs n error
error-Runs = record {
  at = λ host s lt h. let (a, s', e, b) = error-Quiet host s h.sound in (a, s', e, Quiet-Step h b);
}
