-- ===== src/Parser/Toplevel.antt =====
-- The loop of `compile` over the declarations.
use my_clox.Prelude.{
  ℕ, zero, suc, ◌*◌, ◌<◌, ◌≡◌, refl, ◌∙◌, Bool, true, false, if◌then◌else◌, arith,
}
use my_clox.Tokens.{token_semicolon, token_eof}
use my_clox.Parser.{Host, State, ◌>>◌, pure, gets, loop, repeat, rounds, match}
use my_clox.Parser.Statements.{declaration_here, extra_semicolon, top_item, top_level}
use my_clox.Parser.Steps.{
  kind, measure, Inv, Step, Returns, Returns-bind, bind-some, Eats, Rounds, not_ended, Step-trans,
}
use my_clox.Parser.Rules.{repeat-Runs, rounds-enough}
use my_clox.Parser.Matching.{Matched, match-Matched, again-Rounds}
use my_clox.Parser.Declaring.{declaration-Eats}

pub declaration_here-Eats : {n : ℕ} → Eats not_ended n declaration_here
unfolding declaration_here gets
declaration_here-Eats = record {
  at = λ host s lt h.
      let n = rounds s in
      let (a, t, e, p) =
        ((declaration-Eats (2 * n) n).0 (omega arith)).at host s (rounds-enough s) h in
      (a, t, bind-some host (gets rounds) _ s s n refl ∙ e, p);
}

-- From a sound state a declaration returns. It keeps the state sound: no function that is being
-- compiled has more than 256 locals or upvalues, and panic is only after an error. It leaves the
-- functions, the depths of their scopes and the classes as it found them, it takes back no error
-- and no token, and it takes one wherever the end of file is not reached.
pub declaration_here-Returns :
    (host : Host) (s : State)
    → Inv s
    → Returns host declaration_here s
        (λ _ s'. Inv s' × Step s s' × (not_ended (kind s) ≡ true → measure s' < measure s))
declaration_here-Returns host s h =
    (declaration_here-Eats {n = suc (measure s)}).at host s (omega arith) h

extra_semicolon-Rounds : {n : ℕ} (a : Unit {0}) → Rounds n (extra_semicolon a)
unfolding extra_semicolon
extra_semicolon-Rounds a = again-Rounds token_semicolon refl tt

-- A round of the loop of `compile`: the last one comes at the end of file.
abbrev Rounded : State → Bool → State → Type 0
Rounded s more s' =
    Inv s' × Step s s' × (more ≡ true → measure s' < measure s) × (more ≡ false → measure s' ≡ 0)

after_match :
    (host : Host) (s s' : State) (b : Bool)
    → Inv s
    → Matched token_eof s b s'
    → Returns host (top_item b) s' (λ a t. Rounded s a.0 t)
unfolding pure measure
after_match host s s' true h m = (
  (false, tt),
  s',
  refl,
  (
    m.inv,
    m.step,
    λ f. absurd (ground (arith, f)),
    λ _. ground (arith, m.step.le, m.there refl, h.ended (m.there refl)),
  ),
)
after_match host s s' false h m =
    Returns-bind host (declaration_here >> repeat extra_semicolon tt) _ s'
      (λ _ t. Inv t × Step s' t × (measure t < measure s')) _
      (Returns-bind host declaration_here _ s' _ _
        ((declaration_here-Eats {n = suc (measure s')}).at host s' (omega arith) m.inv)
        (λ _ s1 (i, st, eats).
          let (a, t, e, (i', st')) =
            (repeat-Runs {n = suc (measure s1)} extra_semicolon tt extra_semicolon-Rounds).at host
              s1 (omega arith) i in
          (
            a,
            t,
            e,
            (i', Step-trans st st', omega (arith, st'.le, eats (ground (arith, m.missing refl)))),
          )))
      (λ _ t (i, st, less). (
        (true, tt),
        t,
        refl,
        (
          i,
          Step-trans m.step st,
          λ _. omega (arith, m.step.le, less),
          λ f. absurd (ground (arith, f)),
        ),
      ))

top_level-Rounded :
    (host : Host) (s : State) → Inv s → Returns host (top_level tt) s (λ a t. Rounded s a.0 t)
unfolding top_level
top_level-Rounded host s h =
    Returns-bind host (match token_eof) top_item s _ _ (match-Matched token_eof host s h)
      (λ b s' m. after_match host s s' b h m)

abbrev Ended : State → State → Type 0
Ended s s' = Inv s' × Step s s' × (measure s' ≡ 0)

go_on :
    (f : ℕ) (host : Host) (s s' : State) (more : Bool)
    → Rounded s more s'
    → (measure s' < measure s → Inv s' → Returns host (loop f top_level tt) s' (λ _. Ended s'))
    → Returns host (if more then loop f top_level tt else pure tt) s' (λ _. Ended s)
unfolding pure
go_on f host s s' true (i, st, less, done) rest =
    let (a, t, e, (i', st', end)) = rest (less refl) i in (a, t, e, (i', Step-trans st st', end))
go_on f host s s' false (i, st, less, done) rest = (tt, s', refl, (i, st, done refl))

top_loop :
    (f : ℕ) (host : Host) (s : State)
    → measure s < f
    → Inv s
    → Returns host (loop f top_level tt) s (λ _. Ended s)
unfolding loop
top_loop zero host s lt h = absurd (omega arith)
top_loop (suc f) host s lt h =
    Returns-bind host (top_level tt) _ s _ _ (top_level-Rounded host s h)
      (λ (more, _) s' r. go_on f host s s' more r (λ less. top_loop f host s' (omega arith)))

pub top-Ended :
    (host : Host) (s : State) → Inv s → Returns host (repeat top_level tt) s (λ _. Ended s)
unfolding repeat gets
top-Ended host s h =
    let (a, t, e, p) = top_loop (rounds s) host s (rounds-enough s) h in
    (a, t, bind-some host (gets rounds) _ s s (rounds s) refl ∙ e, p)
