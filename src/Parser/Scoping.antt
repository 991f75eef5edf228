-- ===== src/Parser/Scoping.antt =====
-- Scopes and functions that are entered and left.
use my_clox.Prelude.{
  ℕ, ◌≤◌, ◌<◌, ◌≡◌, refl, ap, sym, ◌∙◌, Bool, true, arith, List, [], ◌∷◌, map, length,
}
use my_clox.Parser.{Host, FunctionCompiler, State, M, on_current}
use my_clox.Parser.Steps.{Frame, frame, kind, measure, Inv, Step, Returns, Runs}
use my_clox.Parser.Keeping.{IsBounded, with_current, with_current-Sound, on_current-at}

-- From `origin` on nothing came back, and the functions and classes are now those.
pub record Stands (origin : State) (frames : List Frame) (classes : List Bool) (s : State)
    : Type 0 where
  pub inv : Inv s
  pub errors : origin.had_error ≡ true → s.had_error ≡ true
  pub le : measure s ≤ measure origin
  pub same : measure s ≡ measure origin → kind s ≡ kind origin
  pub frames_are : map frame s.compilers ≡ frames
  pub classes_are : s.classes ≡ classes

pub Stands-here : (s : State) → Inv s → Stands s (map frame s.compilers) s.classes s
Stands-here s h = record {
  inv = h;
  errors = λ e. e;
  le = omega arith;
  same = λ e. refl;
  frames_are = refl;
  classes_are = refl;
}

pub Stands-Step :
    (s s' : State) → Stands s (map frame s.compilers) s.classes s' → Inv s' × Step s s'
Stands-Step s s' h = (
  h.inv,
  record {
    kept = record { errors = h.errors; frames = h.frames_are; classes = h.classes_are };
    le = h.le;
    same = h.same;
  },
)

pub Step-Stands :
    (origin s s' : State) (frames : List Frame) (classes : List Bool)
    → Stands origin frames classes s
    → Inv s'
    → Step s s'
    → Stands origin frames classes s'
Step-Stands origin s s' frames classes h i st = record {
  inv = i;
  errors = λ e. st.kept.errors (h.errors e);
  le = omega (arith, h.le, st.le);
  same = λ e. st.same (omega (arith, h.le, st.le)) ∙ h.same (omega (arith, h.le, st.le));
  frames_are = st.kept.frames ∙ h.frames_are;
  classes_are = st.kept.classes ∙ h.classes_are;
}

pub Runs-Stands :
    {A : Type 0} {n : ℕ} (m : M A) (host : Host) (origin s : State) (frames : List Frame)
    (classes : List Bool)
    → Runs n m
    → measure origin < n
    → Stands origin frames classes s
    → Returns host m s (λ _. Stands origin frames classes)
Runs-Stands m host origin s frames classes x lt h =
    let (a, s', e, (i, st)) = x.at host s (omega (arith, h.le)) h.inv in
    (a, s', e, Step-Stands origin s s' frames classes h i st)

pub Stands-self :
    (origin s : State) (frames : List Frame) (classes : List Bool)
    → Stands origin frames classes s
    → Stands s frames classes s
Stands-self origin s frames classes h = record {
  inv = h.inv;
  errors = λ e. e;
  le = omega arith;
  same = λ e. refl;
  frames_are = h.frames_are;
  classes_are = h.classes_are;
}

pub Stands-trans :
    (origin s t : State) (frames frames' : List Frame) (classes classes' : List Bool)
    → Stands origin frames classes s
    → Stands s frames' classes' t
    → Stands origin frames' classes' t
Stands-trans origin s t frames frames' classes classes' h k = record {
  inv = k.inv;
  errors = λ e. k.errors (h.errors e);
  le = omega (arith, h.le, k.le);
  same = λ e. k.same (omega (arith, h.le, k.le)) ∙ h.same (omega (arith, h.le, k.le));
  frames_are = k.frames_are;
  classes_are = k.classes_are;
}

abbrev pub on_head : (Frame → Frame) → List Frame → List Frame
on_head g [] = []
on_head g (f ∷ fs) = g f ∷ fs

module _ {A : Type 0} (g : Frame → Frame) (f : State → FunctionCompiler → A × FunctionCompiler)
    (keeps : (s : State) (c : FunctionCompiler)
      → (frame (f s c).1 ≡ g (frame c)) × (IsBounded c.scopes → IsBounded (f s c).1.scopes))
    (host : Host) (origin s : State) (frames : List Frame) (classes : List Bool)
    (h : Stands origin frames classes s) where
  shift_at :
      (l : List FunctionCompiler)
      → s.compilers ≡ l
      → Returns host (on_current f) s (λ _. Stands origin (on_head g frames) classes)
  shift_at [] e = absurd (omega (arith, h.inv.sound.compiling, ap length e))
  shift_at (c ∷ cs) e =
      let here : frames ≡ frame c ∷ map frame cs =
        sym h.frames_are ∙ ap (λ (l : List FunctionCompiler). map frame l) e in
      (
        (f s c).0,
        with_current s (f s c).1 cs,
        on_current-at f host s c cs e,
        record {
          inv = record {
            sound = with_current-Sound s c (f s c).1 cs e (keeps s c).1 h.inv.sound;
            ended = h.inv.ended;
          };
          errors = h.errors;
          le = unfold measure in h.le;
          same = unfold measure in h.same;
          frames_are =
              ap (λ (x : Frame). x ∷ map frame cs) (keeps s c).0
              ∙ sym (ap (λ (l : List Frame). on_head g l) here);
          classes_are = h.classes_are;
        },
      )

  pub shift-Stands : Returns host (on_current f) s (λ _. Stands origin (on_head g frames) classes)
  shift-Stands = shift_at s.compilers refl
