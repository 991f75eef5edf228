-- ===== src/Parser/Looping.antt =====
-- `while` loops whose rounds take tokens.
use my_clox.Prelude.{ℕ, suc, ◌<◌, ◌≡◌, refl, ◌∙◌, Bool, true, false, if◌then◌else◌, arith}
use my_clox.Parser.{Host, State, M, Act, ◌>>◌, pure, gets, loop, repeat, rounds, while_true}
use my_clox.Parser.Steps.{
  kind, measure, Inv, Step, Step-trans, Step-refl, Returns, Returns-bind, bind-some, Eats, Rounds,
}
use my_clox.Parser.Rules.{after_round, loop-Returns, rounds-enough}

-- A round that takes a token where it asks for another one, and where the current one is `live`.
pub record LiveRounds {A : Type 0} (live : ℕ → Bool) (n : ℕ) (m : M (Bool × A)) : Type 0 where
  pub at :
      (host : Host) (s : State)
      → measure s < n
      → Inv s
      → Returns host m s (λ a s'.
        Inv s'
        × Step s s'
        × (a.0 ≡ true → measure s' < measure s)
        × (live (kind s) ≡ true → measure s' < measure s))

module _ {A : Type 0} where
  pub LiveRounds-Rounds :
      {n : ℕ} {live : ℕ → Bool} (m : M (Bool × A)) → LiveRounds live n m → Rounds n m
  LiveRounds-Rounds m x = record {
    at = λ host s lt h.
        let (a, s', e, (i, st, more, _)) = x.at host s lt h in (a, s', e, (i, st, more));
  }

  loop-Eats :
      {n : ℕ} {live : ℕ → Bool} (f : ℕ) (round : A → M (Bool × A))
      → ((a : A) → LiveRounds live n (round a))
      → (a : A) (host : Host) (s : State) → measure s < suc f
      → measure s < n
      → Inv s
      → Returns host
          (loop (suc f) round a)
          s
          (λ b s'. Inv s' × Step s s' × (live (kind s) ≡ true → measure s' < measure s))
  unfolding loop
  loop-Eats {n} f round x a host s lt m h =
      Returns-bind host (round a) _ s _ _ ((x a).at host s m h)
        (λ (more, b) s' (i, st, taken, eats).
          let (c, t, e, (i', st')) =
            after_round {n = n} f round
              (loop-Returns f round (λ d. LiveRounds-Rounds (round d) (x d))) more b host s s'
              (i, st, taken) lt m in
          (c, t, e, (i', Step-trans st st', λ live. omega (arith, st'.le, eats live))))

  pub repeat-Eats :
      {n : ℕ} {live : ℕ → Bool} (round : A → M (Bool × A)) (a : A)
      → ((a : A) → LiveRounds live n (round a))
      → Eats live n (repeat round a)
  unfolding repeat gets
  repeat-Eats round a x = record {
    at = λ host s lt h.
        let (b, t, e, p) = loop-Eats _ round x a host s (rounds-enough s) lt h in
        (b, t, bind-some host (gets rounds) _ s s (rounds s) refl ∙ e, p);
  }

module _ {n : ℕ} (live wake : ℕ → Bool) (test : State → Bool) (body : Act)
    (x : Eats live n body) where
  after_test :
      (host : Host) (s : State) (b : Bool)
      → (b ≡ true → live (kind s) ≡ true)
      → (wake (kind s) ≡ true → b ≡ true)
      → measure s < n
      → Inv s
      → Returns {A = Bool × Unit {0}} host
          (if b then body >> pure (true, tt) else pure (false, tt))
          s
          (λ a s'.
            Inv s'
            × Step s s'
            × (a.0 ≡ true → measure s' < measure s)
            × (wake (kind s) ≡ true → measure s' < measure s))
  unfolding pure
  after_test host s true goes wakes lt h =
      Returns-bind host body _ s _ _ (x.at host s lt h) (λ _ s' (i, st, eats).
        ((true, tt), s', refl, (i, st, λ _. eats (goes refl), λ _. eats (goes refl))))
  after_test host s false goes wakes lt h = (
    (false, tt),
    s,
    refl,
    (h, Step-refl s, λ t. absurd (ground (arith, t)), λ w. absurd (ground (arith, wakes w))),
  )

  -- `while (test) body`: the body takes a token wherever the test holds.
  pub while-LiveRounds :
      ((s : State) → test s ≡ true → live (kind s) ≡ true)
      → ((s : State) → wake (kind s) ≡ true → test s ≡ true)
      → (a : Unit {0}) → LiveRounds wake n (while_true (gets test) body a)
  unfolding gets
  while-LiveRounds goes wakes a = record {
    at = λ host s lt h.
        let (b, t, e, p) = after_test host s (test s) (goes s) (wakes s) lt h in
        (b, t, bind-some host (gets test) _ s s (test s) refl ∙ e, p);
  }
