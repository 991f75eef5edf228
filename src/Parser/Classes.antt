-- ===== src/Parser/Classes.antt =====
-- Class declarations: the stack of classes and the scope of `super` are as before.
use my_clox.Prelude.{
  ℕ, suc, ◌<◌, ◌≡◌, refl, ap, sym, subst, Bool, true, false, if◌then◌else◌, arith, List, [], ◌∷◌,
  map, Option, none, some,
}
use my_clox.Tokens.{token_identifier, token_left_brace, token_right_brace, token_less}
use my_clox.Compiler.{identifiers_equal}
use my_clox.Parser.{Host, State, Act, ◌>>◌, pure, match}
use my_clox.Parser.Scopes.{begin_scope, end_scope}
use my_clox.Parser.Expressions.{parse, named_variable}
use my_clox.Parser.Simple.{
  push_class, mark_superclass, set_superclass, has_superclass, pop_class, superclass_name,
  super_local, superclass,
}
use my_clox.Parser.Statements.{class_body, class_rest, class_declaration}
use my_clox.Parser.Steps.{
  Frame, frame, measure, Returns, Returns-bind, Runs, Eats, not_ended, inside, bind-Runs, pure-Runs,
  if-Runs, Eats-Runs,
}
use my_clox.Parser.Advancing.{error-Runs}
use my_clox.Parser.Matching.{consume-Runs, match-Runs}
use my_clox.Parser.Keeping.{emit_byte-Runs, emit_bytes-Runs, previous_text-Runs}
use my_clox.Parser.Naming.{
  identifier_constant-Runs, declare_variable-Runs, define_variable-Runs, add_local-Runs,
}
use my_clox.Parser.Scoping.{Stands, Stands-here, Stands-Step, Runs-Stands, on_head}
use my_clox.Parser.Functions.{raise, lower-raise, begin_scope-Stands, end_scope-Stands}
use my_clox.Parser.Operators.{variable-Runs, named_variable-Runs}
use my_clox.Parser.Precedence.{parse-Eats}
use my_clox.Parser.Bodies.{braces-Eats, method-Eats}

abbrev with_classes : State → List Bool → State
with_classes s classes = record s { classes = classes }

with_classes-Stands :
    (origin s : State) (frames : List Frame) (classes classes' : List Bool)
    → Stands origin frames classes s
    → Stands origin frames classes' (with_classes s classes')
with_classes-Stands origin s frames classes classes' h = record {
  inv = record {
    sound = record {
      source = h.inv.sound.source;
      panic = h.inv.sound.panic;
      chained = h.inv.sound.chained;
      compiling = h.inv.sound.compiling;
    };
    ended = h.inv.ended;
  };
  errors = h.errors;
  le = unfold measure in h.le;
  same = unfold measure in h.same;
  frames_are = h.frames_are;
  classes_are = refl;
}

push_class-Stands :
    (host : Host) (origin s : State) (frames : List Frame) (classes : List Bool)
    → Stands origin frames classes s
    → Returns host push_class s (λ _. Stands origin frames (false ∷ classes))
unfolding push_class
push_class-Stands host origin s frames classes h = (
  tt,
  _,
  refl,
  subst (λ l. Stands origin frames (false ∷ l) (with_classes s (false ∷ s.classes))) h.classes_are
      (with_classes-Stands origin s frames classes (false ∷ s.classes) h),
)

module _ (host : Host) (origin s : State) (frames : List Frame) (has : Bool) (classes : List Bool)
    (h : Stands origin frames (has ∷ classes) s) where
  mark_superclass-Stands :
      Returns host mark_superclass s (λ _. Stands origin frames (true ∷ classes))
  unfolding mark_superclass
  mark_superclass-Stands = (
    tt,
    _,
    refl,
    subst (λ l. Stands origin frames l (with_classes s (set_superclass s.classes)))
        (ap (λ (l : List Bool). set_superclass l) h.classes_are)
        (with_classes-Stands origin s frames (has ∷ classes) (set_superclass s.classes) h),
  )

  has_superclass-Stands :
      Returns host has_superclass s (λ b s'. (b ≡ has) × Stands origin frames (has ∷ classes) s')
  unfolding has_superclass
  has_superclass-Stands = (has, s, ap (λ (l : List Bool). on_list l) h.classes_are, (refl, h))
    where
      on_list : List Bool → Option (Bool × State)
      on_list l = elim l [ [] ↦ none | b ∷ _ ↦ some (b, s) ]

  pop_class-Stands : Returns host pop_class s (λ _. Stands origin frames classes)
  unfolding pop_class
  pop_class-Stands = (
    tt,
    with_classes s classes,
    ap (λ (l : List Bool). on_list l) h.classes_are,
    with_classes-Stands origin s frames (has ∷ classes) classes h,
  )
    where
      on_list : List Bool → Option (Unit {0} × State)
      on_list l = elim l [ [] ↦ none | _ ∷ rest ↦ some (tt, with_classes s rest) ]

parse-Runs : (n k : ℕ) → 0 < k → Runs n (parse k)
parse-Runs n k pos = Eats-Runs (parse-Eats n k pos)

superclass_name-Runs : {n : ℕ} (name : List ℕ) → Runs n (superclass_name name)
unfolding superclass_name
superclass_name-Runs {n} name = bind-Runs _ _ (consume-Runs token_identifier) (λ _.
    bind-Runs _ _ (variable-Runs n parse (parse-Runs n) false) (λ _.
      bind-Runs _ _ previous_text-Runs
        (λ name'. if-Runs (identifiers_equal name name') _ _ error-Runs (pure-Runs tt))))

super_local-Runs : {n : ℕ} (name : List ℕ) → Runs n (super_local name)
unfolding super_local
super_local-Runs {n} name = bind-Runs _ _ (add_local-Runs _) (λ _.
    bind-Runs _ _ (define_variable-Runs 0) (λ _.
      bind-Runs _ _ (named_variable-Runs n parse (parse-Runs n) name false)
        (λ _. emit_byte-Runs _)))

-- Where there is a superclass, its scope is open and the class is marked.
abbrev scope_of : Bool → List Frame → List Frame
scope_of b frames = if b then on_head raise frames else frames

module _ (host : Host) (origin : State) (frames : List Frame) (classes : List Bool)
    (name : List ℕ) where
  superclass-Stands :
      (s : State) (b : Bool)
      → Stands origin frames (false ∷ classes) s
      → Returns host
          (if b then superclass name else pure tt)
          s
          (λ _. Stands origin (scope_of b frames) (b ∷ classes))
  unfolding superclass pure
  superclass-Stands s true h =
      Returns-bind host (superclass_name name) _ s _ _
        (Runs-Stands {n = suc (measure origin)} _ host origin s frames _ (superclass_name-Runs name)
          (omega arith) h)
        (λ _ s1 h1.
          Returns-bind host begin_scope _ s1 _ _ (begin_scope-Stands host origin s1 frames _ h1)
            (λ _ s2 h2.
              Returns-bind host (super_local name) _ s2 _ _
                (Runs-Stands {n = suc (measure origin)} _ host origin s2 _ _ (super_local-Runs name)
                  (omega arith) h2)
                (λ _ s3 h3. mark_superclass-Stands host origin s3 _ false classes h3)))
  superclass-Stands s false h = (tt, s, refl, h)

  leave-Stands :
      (s : State) (b : Bool)
      → Stands origin (scope_of b frames) (b ∷ classes) s
      → Returns host (if b then end_scope else pure tt) s (λ _. Stands origin frames (b ∷ classes))
  unfolding pure
  leave-Stands s true h =
      let (a, t, e, h') = end_scope-Stands host origin s _ _ h in
      (a, t, e, subst (λ l. Stands origin l (true ∷ classes) t) (lower-raise frames) h')
  leave-Stands s false h = (tt, s, refl, h)

module _ (n : ℕ) (statement declaration : Act) (x : Eats not_ended n declaration) where
  class_body-Runs : Runs n (class_body statement declaration)
  unfolding class_body
  class_body-Runs = bind-Runs _ _ (consume-Runs token_left_brace) (λ _.
      bind-Runs _ _
        (Eats-Runs (braces-Eats inside _ (λ k e. e) (method-Eats n statement declaration x)))
        (λ _. bind-Runs _ _ (consume-Runs token_right_brace) (λ _. emit_byte-Runs _)))

  class_rest-Runs : (name : List ℕ) → Runs n (class_rest statement declaration name)
  unfolding class_rest
  class_rest-Runs name = record {
    at = λ host s lt h.
        let F = map frame s.compilers in
        let C = s.classes in
        let (a, t, e, p) =
          Returns-bind host push_class _ s _ _ (push_class-Stands host s s F C (Stands-here s h))
            (λ _ s0 h0.
              Returns-bind host (match token_less) _ s0 _ _
                (Runs-Stands _ host s s0 F (false ∷ C) (match-Runs {n = n} token_less) lt h0)
                (λ b s1 h1.
                  Returns-bind host (if b then superclass name else pure tt) _ s1 _ _
                    (superclass-Stands host s F C name s1 b h1)
                    (λ _ s2 h2.
                      Returns-bind host (named_variable parse name false) _ s2 _ _
                        (Runs-Stands _ host s s2 _ _
                          (named_variable-Runs n parse (parse-Runs n) name false) lt h2)
                        (λ _ s3 h3.
                          Returns-bind host (class_body statement declaration) _ s3 _ _
                            (Runs-Stands _ host s s3 _ _ class_body-Runs lt h3)
                            (λ _ s4 h4.
                              Returns-bind host has_superclass _ s4 _ _
                                (has_superclass-Stands host s s4 _ b C h4)
                                (λ b' s5 (same, h5).
                                  subst
                                    (λ (c : Bool).
                                      Returns host ((if c then end_scope else pure tt) >> pop_class)
                                        s5 (λ _. Stands s F C))
                                    (sym same)
                                    (Returns-bind host (if b then end_scope else pure tt) _ s5 _ _
                                      (leave-Stands host s F C name s5 b h5)
                                      (λ _ s6 h6. pop_class-Stands host s s6 F b C h6)))))))) in
        (a, t, e, Stands-Step s t p);
  }

  pub class_declaration-Runs : Runs n (class_declaration statement declaration)
  unfolding class_declaration
  class_declaration-Runs = bind-Runs _ _ (consume-Runs token_identifier) (λ _.
      bind-Runs _ _ previous_text-Runs (λ name.
        bind-Runs _ _ (identifier_constant-Runs name) (λ constant.
          bind-Runs _ _ declare_variable-Runs (λ _.
            bind-Runs _ _ (emit_bytes-Runs _ constant)
              (λ _. bind-Runs _ _ (define_variable-Runs constant) (λ _. class_rest-Runs name))))))
