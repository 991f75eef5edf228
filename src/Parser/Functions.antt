-- ===== src/Parser/Functions.antt =====
-- A scope around a parse function, and a function's compiler around its body.
use my_clox.Prelude.{
  ℕ, suc, ◌+◌, ◌-◌, ◌≤◌, ◌<◌, ◌≡◌, refl, ap, sym, subst, ◌∙◌, Bool, true, arith, List, [], ◌∷◌, map,
  length, Option, none, some, eq_cases, inl, inr,
}
use my_clox.Emit.{FunctionType}
use my_clox.Compiler.Upvalues.{IsChain}
use my_clox.Parser.{Host, FunctionCompiler, State, Act, ◌>>◌, emit_return}
use my_clox.Parser.Scopes.{
  init_compiler, leave_compiler, end_compiler, finished, on_scopes, begin_scope, lower_scope,
  end_scope,
}
use my_clox.Parser.Variables.{scopes_of}
use my_clox.Parser.Steps.{Frame, frame, kind, measure, Returns, Returns-bind, Runs, bind-Runs}
use my_clox.Parser.Keeping.{reads-Runs, emit_return-Runs}
use my_clox.Parser.Naming.{pop_locals-Runs}
use my_clox.Parser.Capturing.{length-map}
use my_clox.Parser.Scoping.{Stands, Stands-here, Stands-Step, Runs-Stands, on_head, shift-Stands}

abbrev pub raise : Frame → Frame
raise f = (f.0 + 1, f.1, f.2)

abbrev pub lower : Frame → Frame
lower f = (f.0 - 1, f.1, f.2)

pub lower-raise : (frames : List Frame) → on_head lower (on_head raise frames) ≡ frames
lower-raise [] = refl
lower-raise ((d, t, p) ∷ frames) =
    let e : d + 1 - 1 ≡ d = omega arith in ap (λ (k : ℕ). (k, t, p) ∷ frames) e

module _ (host : Host) (origin s : State) (frames : List Frame) (classes : List Bool)
    (h : Stands origin frames classes s) where
  pub begin_scope-Stands :
      Returns host begin_scope s (λ _. Stands origin (on_head raise frames) classes)
  unfolding begin_scope on_scopes
  begin_scope-Stands = shift-Stands raise _ (λ t c. (refl, λ b. b)) host origin s frames classes h

  lower_scope-Stands :
      Returns host lower_scope s (λ _. Stands origin (on_head lower frames) classes)
  unfolding lower_scope on_scopes
  lower_scope-Stands = shift-Stands lower _ (λ t c. (refl, λ b. b)) host origin s frames classes h

  pub end_scope-Stands :
      Returns host end_scope s (λ _. Stands origin (on_head lower frames) classes)
  unfolding end_scope
  end_scope-Stands = Returns-bind host lower_scope _ s _ _ lower_scope-Stands (λ _ s' h'.
      Runs-Stands _ host origin s' (on_head lower frames) classes
        (bind-Runs {n = suc (measure origin)} _ _ (reads-Runs _) pop_locals-Runs) (omega arith) h')

  pub init_compiler-Stands :
      (type : FunctionType)
      → Returns host
          (init_compiler type)
          s
          (λ _. Stands origin ((0, type, host.new_function s.made) ∷ frames) classes)
  unfolding init_compiler
  init_compiler-Stands type = (
    tt,
    _,
    refl,
    record {
      inv = record {
        sound = record {
          source = h.inv.sound.source;
          panic = h.inv.sound.panic;
          chained = (omega arith, omega arith, h.inv.sound.chained);
          compiling = omega arith;
        };
        ended = h.inv.ended;
      };
      errors = h.errors;
      le = unfold measure in h.le;
      same = unfold measure in h.same;
      frames_are = ap (λ (l : List Frame). (0, type, host.new_function s.made) ∷ l) h.frames_are;
      classes_are = h.classes_are;
    },
  )

-- Progress counts from where the scope was entered.
pub eats_from :
    (live : ℕ → Bool) (origin s t : State) (frames : List Frame) (classes : List Bool)
    → Stands origin frames classes s
    → measure t ≤ measure s
    → (live (kind s) ≡ true → measure t < measure s)
    → live (kind origin) ≡ true
    → measure t < measure origin
eats_from live origin s t frames classes h le eats l =
    elim (eq_cases (measure s) (measure origin)) [
      | inl equal ↦ omega (arith, eats (ap live (h.same equal) ∙ l), equal)
      | inr less ↦ omega (arith, h.le)
    ]

rest_of : List Frame → List Frame
rest_of [] = []
rest_of (f ∷ frames) = frames

abbrev pub left_behind : State → FunctionCompiler → List FunctionCompiler → State
left_behind s c cs = record s { compilers = cs; functions = (c.function, finished c) ∷ s.functions }

pub leave_run :
    (host : Host) (s : State) (c : FunctionCompiler) (cs : List FunctionCompiler)
    → s.compilers ≡ c ∷ cs
    → leave_compiler host s ≡ some (c, left_behind s c cs)
unfolding leave_compiler
leave_run host s c cs e = ap (λ (l : List FunctionCompiler). on_list l) e
  where
    on_list : List FunctionCompiler → Option (FunctionCompiler × State)
    on_list l = elim l [ [] ↦ none | d ∷ ds ↦ some (d, left_behind s d ds) ]

module _ (host : Host) (origin s : State) (f : Frame) (frames : List Frame) (classes : List Bool)
    (more : 0 < length frames) (h : Stands origin (f ∷ frames) classes s) where
  leave_at :
      (l : List FunctionCompiler)
      → s.compilers ≡ l
      → Returns host leave_compiler s (λ _. Stands origin frames classes)
  leave_at [] e = absurd (omega (arith, h.inv.sound.compiling, ap length e))
  leave_at (c ∷ cs) e =
      let here : frame c ∷ map frame cs ≡ f ∷ frames =
        sym (ap (λ (l : List FunctionCompiler). map frame l) e) ∙ h.frames_are in
      let inner : map frame cs ≡ frames = unfold rest_of in ap rest_of here in
      let (_, _, chained) = subst (λ l. IsChain (map scopes_of l)) e h.inv.sound.chained in
      (
        c,
        left_behind s c cs,
        leave_run host s c cs e,
        record {
          inv = record {
            sound = record {
              source = h.inv.sound.source;
              panic = h.inv.sound.panic;
              chained = chained;
              compiling =
                  omega (arith, more, ap (λ (l : List Frame). length l) inner, length-map frame cs);
            };
            ended = h.inv.ended;
          };
          errors = h.errors;
          le = unfold measure in h.le;
          same = unfold measure in h.same;
          frames_are = inner;
          classes_are = h.classes_are;
        },
      )

  leave_compiler-Stands : Returns host leave_compiler s (λ _. Stands origin frames classes)
  leave_compiler-Stands = leave_at s.compilers refl

module _ (host : Host) (origin s : State) (f : Frame) (frames : List Frame) (classes : List Bool)
    (more : 0 < length frames) (h : Stands origin (f ∷ frames) classes s) where
  pub end_compiler-Stands : Returns host end_compiler s (λ _. Stands origin frames classes)
  unfolding end_compiler
  end_compiler-Stands =
      Returns-bind host emit_return _ s _ _
        (Runs-Stands _ host origin s (f ∷ frames) classes
          (emit_return-Runs {n = suc (measure origin)}) (omega arith) h)
        (λ _ s' h'. leave_compiler-Stands host origin s' f frames classes more h')

pub scoped-Runs : {n : ℕ} (m : Act) → Runs n m → Runs n (begin_scope >> m >> end_scope)
scoped-Runs m x = record {
  at = λ host s lt h.
      let (a, t, e, p) =
        Returns-bind host (begin_scope >> m) _ s _ _
          (Returns-bind host begin_scope _ s _ _
            (begin_scope-Stands host s s (map frame s.compilers) s.classes (Stands-here s h))
            (λ _ s' h'. Runs-Stands m host s s' _ s.classes x lt h'))
          (λ _ s' h'. end_scope-Stands host s s' _ s.classes h') in
      (a, t, e, Stands-Step s t (subst (λ l. Stands s l s.classes t) (lower-raise _) p));
}
