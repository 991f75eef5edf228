-- ===== src/Parser/Rules.antt =====
-- Rules for loops and for `match`.
use my_clox.Prelude.{ℕ, zero, suc, ◌<◌, ◌≡◌, refl, Bool, true, false, if◌then◌else◌, arith}
use my_clox.Parser.{Host, State, M, ◌>>=◌, pure, gets, loop, repeat, rounds}
use my_clox.Parser.Steps.{
  measure, Inv, Step, Step-trans, Step-refl, Returns, Returns-bind, Runs, Rounds,
}

pub rounds-enough : (s : State) → measure s < rounds s
unfolding measure
rounds-enough s = ground arith

module _ {A : Type 0} where
  pub pure-Rounds : {n : ℕ} (a : A) → Rounds n (pure (false, a))
  unfolding pure
  pure-Rounds a = record {
    at = λ host s lt h. ((false, a), s, refl, (h, Step-refl s, λ e. absurd (ground (arith, e))));
  }

  pub after_round :
      {n : ℕ} (f : ℕ) (round : A → M (Bool × A))
      → ((a : A) (host : Host) (s : State)
          → measure s < f
          → measure s < n
          → Inv s
          → Returns host (loop f round a) s (λ b s'. Inv s' × Step s s'))
      → (b : Bool) (a : A) (host : Host) (s s' : State)
      → Inv s' × Step s s' × (b ≡ true → measure s' < measure s)
      → measure s < suc f
      → measure s < n
      → Returns host (if b then loop f round a else pure a) s' (λ c t. Inv t × Step s' t)
  unfolding pure
  after_round f round again true a host s s' (i, st, eats) lt m =
      again a host s' (omega (arith, eats refl)) (omega (arith, eats refl)) i
  after_round f round again false a host s s' (i, st, eats) lt m = (a, s', refl, (i, Step-refl s'))

  pub loop-Returns :
      {n : ℕ} (f : ℕ) (round : A → M (Bool × A))
      → ((a : A) → Rounds n (round a))
      → (a : A) (host : Host) (s : State) → measure s < f
      → measure s < n
      → Inv s
      → Returns host (loop f round a) s (λ b s'. Inv s' × Step s s')
  unfolding loop
  loop-Returns zero round x a host s lt m h = absurd (omega arith)
  loop-Returns {n} (suc f) round x a host s lt m h =
      Returns-bind host (round a) _ s _ _ ((x a).at host s m h) (λ (more, b) s' p.
        let (c, t, e, (i, st)) =
          after_round {n = n} f round (loop-Returns f round x) more b host s s' p lt m in
        (c, t, e, (i, Step-trans p.1 st)))

  pub repeat-Runs :
      {n : ℕ} (round : A → M (Bool × A)) (a : A)
      → ((a : A) → Rounds n (round a))
      → Runs n (repeat round a)
  unfolding repeat gets
  repeat-Runs round a x = record {
    at = λ host s lt h.
        Returns-bind host (gets rounds) _ s (λ f s'. (f ≡ rounds s) × (s' ≡ s)) _
          (rounds s, s, refl, (refl, refl))
          (λ f s' (ef, es).
            rw (ef, es) (loop-Returns (rounds s) round x a host s (rounds-enough s) lt h));
  }

module _ {A B : Type 0} where
  pub bind-Rounds :
      {n : ℕ} (m : M A) (f : A → M (Bool × B))
      → Runs n m
      → ((a : A) → Rounds n (f a))
      → Rounds n (m >>= f)
  bind-Rounds m f x y = record {
    at = λ host s lt h. Returns-bind host m f s _ _ (x.at host s lt h) (λ a s' (i, st).
        let (b, t, e, (i', st', eats)) = (y a).at host s' (omega (arith, st.le)) i in
        (b, t, e, (i', Step-trans st st', λ more. omega (arith, st.le, eats more))));
  }
