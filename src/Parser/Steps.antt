-- ===== src/Parser/Steps.antt =====
-- What the parse functions keep, what is left to parse, and a rule for each way to build one.
use my_clox.Prelude.{
  ℕ, ◌+◌, ◌≤◌, ◌<◌, ◌≡◌, refl, ap, sym, ◌∙◌, Bool, true, false, not, ◌&&◌, ◌==◌, if◌then◌else◌,
  arith, List, map, some, length, eq_cases, inl, inr,
}
use my_clox.Value.{Ptr}
use my_clox.Emit.{FunctionType}
use my_clox.Compiler.Upvalues.{IsChain}
use my_clox.Tokens.Numbers.{type_number}
use my_clox.Scanner.Moves.{IsSource}
use my_clox.Scanner.{Scanner, Token}
use my_clox.Parser.{Host, FunctionCompiler, State, M, ◌>>=◌, pure, gets}
use my_clox.Parser.Variables.{scopes_of}

abbrev pub kind : State → ℕ
kind s = type_number s.current.type

abbrev pub left_of : List ℕ → Bool → ℕ
left_of source repl = length source + (if repl then 1 else 0)

-- What the scanner has left, and that with the current token.
abbrev pub left : State → ℕ
left s = left_of s.scanner.current s.scanner.repl_mode

abbrev pub waiting : ℕ → ℕ
waiting k = if k == 38 then 0 else 1

unfoldable pub measure : State → ℕ
measure s = left s + waiting (kind s)

-- A function that is being compiled, with the depth of its scope.
abbrev pub Frame : Type 0
Frame = ℕ × FunctionType × Ptr

abbrev pub frame : FunctionCompiler → Frame
frame c = (c.scopes.scope_depth, c.type, c.function)

pub record Sound (s : State) : Type 0 where
  pub source : IsSource s.scanner.current
  pub panic : s.panic_mode ≡ true → s.had_error ≡ true
  pub chained : IsChain (map scopes_of s.compilers)
  pub compiling : 0 < length s.compilers

-- At the end of file nothing is left.
pub record Inv (s : State) : Type 0 where
  pub sound : Sound s
  pub ended : kind s ≡ 38 → left s ≡ 0

pub record Kept (s s' : State) : Type 0 where
  pub errors : s.had_error ≡ true → s'.had_error ≡ true
  pub frames : map frame s'.compilers ≡ map frame s.compilers
  pub classes : s'.classes ≡ s.classes

-- No token comes back, and where none is taken the current one is as before.
pub record Step (s s' : State) : Type 0 where
  pub kept : Kept s s'
  pub le : measure s' ≤ measure s
  pub same : measure s' ≡ measure s → kind s' ≡ kind s

pub Kept-refl : (s : State) → Kept s s
Kept-refl s = record { errors = λ e. e; frames = refl; classes = refl }

pub Kept-trans : {s t u : State} → Kept s t → Kept t u → Kept s u
Kept-trans a b = record {
  errors = λ e. b.errors (a.errors e);
  frames = b.frames ∙ a.frames;
  classes = b.classes ∙ a.classes;
}

pub Step-refl : (s : State) → Step s s
Step-refl s = record { kept = Kept-refl s; le = omega arith; same = λ e. refl }

pub Step-trans : {s t u : State} → Step s t → Step t u → Step s u
Step-trans a b = record {
  kept = Kept-trans a.kept b.kept;
  le = omega (arith, a.le, b.le);
  same = λ e. b.same (omega (arith, a.le, b.le)) ∙ a.same (omega (arith, a.le, b.le));
}

-- An operation that leaves the scanner and the current token.
pub record Quiet (s s' : State) : Type 0 where
  pub kept : Kept s s'
  pub sound : Sound s'
  pub scanner : s'.scanner ≡ s.scanner
  pub current : s'.current ≡ s.current
  pub previous : s'.previous ≡ s.previous

pub Quiet-Step : {s s' : State} → Inv s → Quiet s s' → Inv s' × Step s s'
unfolding measure
Quiet-Step {s} {s'} h q =
    let rest = ap (λ (x : Scanner). left_of x.current x.repl_mode) q.scanner in
    let same = ap (λ (t : Token). type_number t.type) q.current in
    (
      record { sound = q.sound; ended = λ e. rest ∙ h.ended (sym same ∙ e) },
      record { kept = q.kept; le = omega (arith, rest, ap waiting same); same = λ e. same },
    )

-- `m` ends, with a result and a state of which `P` holds.
abbrev pub Returns : {A : Type 0} → Host → M A → State → (A → State → Type 0) → Type 0
Returns {A} host m s P = (a : A) × (s' : State) × (m host s ≡ some (a, s')) × P a s'

module _ {A B : Type 0} where
  pub bind-some :
      (host : Host) (m : M A) (f : A → M B) (s s' : State) (a : A)
      → m host s ≡ some (a, s')
      → (m >>= f) host s ≡ f a host s'
  unfolding ◌>>=◌
  bind-some host m f s s' a e = rw (e, ◌>>=◌) refl

  pub Returns-bind :
      (host : Host) (m : M A) (f : A → M B) (s : State) (P : A → State → Type 0)
      (Q : B → State → Type 0)
      → Returns host m s P
      → ((a : A) (s' : State) → P a s' → Returns host (f a) s' Q)
      → Returns host (m >>= f) s Q
  Returns-bind host m f s P Q (a, s', e, p) rest =
      let (b, t, e', q) = rest a s' p in (b, t, bind-some host m f s s' a e ∙ e', q)

-- From a state that is sound and has fewer than `n` tokens left, `m` ends, in a sound state.
pub record Runs {A : Type 0} (n : ℕ) (m : M A) : Type 0 where
  pub at :
      (host : Host) (s : State)
      → measure s < n
      → Inv s
      → Returns host m s (λ a s'. Inv s' × Step s s')

-- It also takes a token where the current one is `live`.
pub record Eats {A : Type 0} (live : ℕ → Bool) (n : ℕ) (m : M A) : Type 0 where
  pub at :
      (host : Host) (s : State)
      → measure s < n
      → Inv s
      → Returns host m s
          (λ a s'. Inv s' × Step s s' × (live (kind s) ≡ true → measure s' < measure s))

-- A round of a loop takes a token where it asks for another one.
pub record Rounds {A : Type 0} (n : ℕ) (m : M (Bool × A)) : Type 0 where
  pub at :
      (host : Host) (s : State)
      → measure s < n
      → Inv s
      → Returns host m s (λ a s'. Inv s' × Step s s' × (a.0 ≡ true → measure s' < measure s))

abbrev pub not_ended : ℕ → Bool
not_ended k = not (k == 38)

abbrev pub inside : ℕ → Bool
inside k = not (k == 3) && not (k == 38)

module _ {A : Type 0} where
  pub pure-Runs : {n : ℕ} (a : A) → Runs n (pure a)
  unfolding pure
  pure-Runs a = record { at = λ host s lt h. (a, s, refl, (h, Step-refl s)) }

  pub gets-Runs : {n : ℕ} (f : State → A) → Runs n (gets f)
  unfolding gets
  gets-Runs f = record { at = λ host s lt h. (f s, s, refl, (h, Step-refl s)) }

  pub if-Runs : {n : ℕ} (b : Bool) (m k : M A) → Runs n m → Runs n k → Runs n (if b then m else k)
  if-Runs true m k x y = x
  if-Runs false m k x y = y

  pub Eats-Runs : {n : ℕ} {live : ℕ → Bool} {m : M A} → Eats live n m → Runs n m
  Eats-Runs x = record {
    at = λ host s lt h. let (a, s', e, (i, st, _)) = x.at host s lt h in (a, s', e, (i, st));
  }

  pub Runs-less : {n k : ℕ} {m : M A} → k ≤ n → Runs n m → Runs k m
  Runs-less le x = record { at = λ host s lt h. x.at host s (omega arith) h }

pub eats_later :
    (live : ℕ → Bool) (s s' t : State)
    → Step s s'
    → measure t ≤ measure s'
    → (live (kind s') ≡ true → measure t < measure s')
    → live (kind s) ≡ true
    → measure t < measure s
eats_later live s s' t st le eats l = elim (eq_cases (measure s') (measure s)) [
  | inl equal ↦ omega (arith, eats (ap live (st.same equal) ∙ l))
  | inr less ↦ omega (arith, st.le)
]

module _ {A B : Type 0} where
  pub bind-Runs :
      {n : ℕ} (m : M A) (f : A → M B) → Runs n m → ((a : A) → Runs n (f a)) → Runs n (m >>= f)
  bind-Runs m f x y = record {
    at = λ host s lt h. Returns-bind host m f s _ _ (x.at host s lt h) (λ a s' (i, st).
        let (b, t, e, (i', st')) = (y a).at host s' (omega (arith, st.le)) i in
        (b, t, e, (i', Step-trans st st')));
  }

  pub bind-Eats :
      {n : ℕ} {live : ℕ → Bool} (m : M A) (f : A → M B)
      → Eats live n m
      → ((a : A) → Runs n (f a))
      → Eats live n (m >>= f)
  bind-Eats m f x y = record {
    at = λ host s lt h. Returns-bind host m f s _ _ (x.at host s lt h) (λ a s' (i, st, eats).
        let (b, t, e, (i', st')) = (y a).at host s' (omega (arith, st.le)) i in
        (b, t, e, (i', Step-trans st st', λ l. omega (arith, st'.le, eats l))));
  }

  -- Where the first part takes nothing, the current token is as before.
  pub later-Eats :
      {n : ℕ} {live : ℕ → Bool} (m : M A) (f : A → M B)
      → Runs n m
      → ((a : A) → Eats live n (f a))
      → Eats live n (m >>= f)
  later-Eats {live} m f x y = record {
    at = λ host s lt h. Returns-bind host m f s _ _ (x.at host s lt h) (λ a s' (i, st).
        let (b, t, e, (i', st', eats)) = (y a).at host s' (omega (arith, st.le)) i in
        (b, t, e, (i', Step-trans st st', eats_later live s s' t st st'.le eats)));
  }
