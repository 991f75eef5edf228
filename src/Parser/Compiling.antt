-- ===== src/Parser/Compiling.antt =====
-- `compile` returns on every source.
use my_clox.Prelude.{
  ℕ, suc, ◌≡◌, ◌↔◌, refl, ap, sym, subst, ◌∙◌, Bool, true, false, if◌then◌else◌, arith, List, [],
  ◌∷◌, map, length, Option, none, some, some_inj,
}
use my_clox.Value.{Ptr, null}
use my_clox.Chunk.{init_chunk}
use my_clox.Object.{ObjFunction}
use my_clox.Scanner.{init_scanner}
use my_clox.Scanner.Moves.{IsSource}
use my_clox.Emit.{type_script}
use my_clox.Compiler.Upvalues.{IsChain}
use my_clox.Parser.{
  Host, FunctionCompiler, State, M, ◌>>=◌, ◌>>◌, pure, gets, repeat, advance, emit_return,
}
use my_clox.Parser.Scopes.{first_scope, init_compiler, leave_compiler, end_compiler, finished}
use my_clox.Parser.Variables.{scopes_of}
use my_clox.Parser.Statements.{start, clear_errors, top_level, compile}
use my_clox.Parser.Steps.{Frame, frame, measure, Sound, Inv, Returns, Returns-bind, bind-some}
use my_clox.Parser.Advancing.{advance-first}
use my_clox.Parser.Keeping.{emit_return-Runs}
use my_clox.Parser.Functions.{leave_run, left_behind}
use my_clox.Parser.Toplevel.{top-Ended}

-- What `compile` leaves: `r` is its result.
pub record Compiled (host : Host) (s : State) (r : Option Ptr) (s' : State) : Type 0 where
  pub refused : (r ≡ none) ↔ (s'.had_error ≡ true)
  pub result :
      (p : Ptr)
      → r ≡ some p
      → (p ≡ host.new_function s.made)
        × (f : ObjFunction) × (others : List (Ptr × ObjFunction)) × (s'.functions ≡ (p, f) ∷ others)
  pub source_read : s'.scanner.current ≡ []
  pub frames : map frame s'.compilers ≡ map frame s.compilers
  pub classes : s'.classes ≡ s.classes

-- The script's compiler is the innermost, and the source has been read.
record Finishing (host : Host) (s : State) (s' : State) : Type 0 where
  inv : Inv s'
  frames :
      map frame s'.compilers ≡ (0, type_script, host.new_function s.made) ∷ map frame s.compilers
  classes : s'.classes ≡ s.classes
  nothing_left : measure s' ≡ 0

abbrev result_of : Bool → Ptr → Option Ptr
result_of failed p = if failed then none else some p

result_of-none : (b : Bool) (p : Ptr) → (result_of b p ≡ none) ↔ (b ≡ true)
result_of-none true p = ((λ _. refl), λ _. refl)
result_of-none false p = ((λ e. absurd (ground (arith, e))), λ e. absurd (ground (arith, e)))

result_of-some : (b : Bool) (p q : Ptr) → result_of b p ≡ some q → p ≡ q
result_of-some true p q e = absurd (ground (arith, e))
result_of-some false p q e = some_inj e

head_function : Ptr → List Frame → Ptr
head_function p [] = p
head_function p (f ∷ fs) = f.2

tail_frames : List Frame → List Frame
tail_frames [] = []
tail_frames (f ∷ fs) = fs

empty : (w : List ℕ) → length w ≡ 0 → w ≡ []
empty [] e = refl
empty (c ∷ w) e = absurd (omega arith)

-- The script's compiler is left.
record Left (host : Host) (s : State) (c : FunctionCompiler) (u : State) : Type 0 where
  last : State
  others : List FunctionCompiler
  finishing : Finishing host s last
  compilers : last.compilers ≡ c ∷ others
  state : u ≡ left_behind last c others

leave-Left :
    (host : Host) (s t : State)
    → Finishing host s t
    → (l : List FunctionCompiler) → t.compilers ≡ l
    → Returns host leave_compiler t (Left host s)
leave-Left host s t h [] e = absurd (omega (arith, h.inv.sound.compiling, ap length e))
leave-Left host s t h (c ∷ cs) e = (
  c,
  left_behind t c cs,
  leave_run host t c cs e,
  record { last = t; others = cs; finishing = h; compilers = e; state = refl },
)

result_at :
    (host : Host) (s t : State) (c : FunctionCompiler) (cs : List FunctionCompiler)
    → Finishing host s t
    → t.compilers ≡ c ∷ cs
    → Returns host
        (gets (λ u. u.had_error) >>= λ failed. pure (result_of failed c.function))
        (left_behind t c cs)
        (Compiled host s)
unfolding gets pure measure head_function tail_frames
result_at host s t c cs h e =
    let t' = left_behind t c cs in
    let own : frame c ∷ map frame cs
        ≡ (0, type_script, host.new_function s.made) ∷ map frame s.compilers =
      sym (ap (λ (l : List FunctionCompiler). map frame l) e) ∙ h.frames in
    (
      result_of t.had_error c.function,
      t',
      bind-some host (gets (λ u. u.had_error)) _ t' t' t.had_error refl,
      record {
        refused = result_of-none t.had_error c.function;
        result = λ p is_p.
            let same = result_of-some t.had_error c.function p is_p in
            (
              sym same ∙ ap (head_function 0) own,
              finished c,
              t.functions,
              ap (λ (q : Ptr). (q, finished c) ∷ t.functions) same,
            );
        source_read = empty t.scanner.current (ground (arith, h.nothing_left));
        frames = ap tail_frames own;
        classes = h.classes;
      },
    )

end-Left :
    (host : Host) (s t : State) → Finishing host s t → Returns host end_compiler t (Left host s)
unfolding end_compiler
end-Left host s t h =
    Returns-bind host emit_return _ t _ _
      ((emit_return-Runs {n = suc (measure t)}).at host t (omega arith) h.inv)
      (λ _ u (i, st).
        leave-Left host s u
          (record {
            inv = i;
            frames = st.kept.frames ∙ h.frames;
            classes = st.kept.classes ∙ h.classes;
            nothing_left = omega (arith, st.le, h.nothing_left);
          })
          u.compilers refl)

-- The globals before the first token.
abbrev started : Host → List ℕ → Bool → State → State
started host source repl_mode s = record s {
  scanner = init_scanner source repl_mode;
  had_error = false;
  panic_mode = false;
  made = suc s.made;
  compilers =
      record {
        function = host.new_function s.made;
        type = type_script;
        scopes = first_scope type_script;
        chunk = init_chunk;
        arity = 0;
        name = null;
      }
      ∷ s.compilers;
}

started-Sound :
    (host : Host) (source : List ℕ) (repl_mode : Bool) (s : State)
    → IsSource source
    → IsChain (map scopes_of s.compilers)
    → Sound (started host source repl_mode s)
unfolding init_scanner
started-Sound host source repl_mode s ok chain = record {
  source = ok;
  panic = λ f. absurd (ground (arith, f));
  chained = (omega arith, omega arith, chain);
  compiling = omega arith;
}

rest_of_compile : M (Option Ptr)
rest_of_compile =
    advance
    >> (repeat top_level tt
        >> (end_compiler >>= λ c.
            gets (λ w. w.had_error) >>= λ failed. pure (result_of failed c.function)))

Returns-started :
    (host : Host) (source : List ℕ) (repl_mode : Bool) (s : State)
    → Returns host rest_of_compile (started host source repl_mode s) (Compiled host s)
    → Returns host (compile source repl_mode) s (Compiled host s)
unfolding compile start init_compiler clear_errors rest_of_compile
Returns-started host source repl_mode s (r, t, e, p) = (
  r,
  t,
  bind-some host (start source repl_mode) _ s _ tt refl
      ∙ bind-some host (init_compiler type_script) _ _ _ tt refl
      ∙ bind-some host clear_errors _ _ _ tt refl
      ∙ e,
  p,
)

-- On a source without a zero byte, whatever its text, `compile` returns: it has read the whole
-- source, it has left the functions and classes that it has entered, and its result is the
-- function that it made first, which is finished last, or NULL exactly where an error was
-- reported.
pub compile-Compiled :
    (host : Host) (s : State) (source : List ℕ) (repl_mode : Bool)
    → IsSource source
    → IsChain (map scopes_of s.compilers)
    → Returns host (compile source repl_mode) s (Compiled host s)
unfolding rest_of_compile
compile-Compiled host s source repl_mode ok chain =
    let s0 = started host source repl_mode s in
    Returns-started host source repl_mode s (
      Returns-bind host advance _ s0 _ _
        (advance-first host s0 (started-Sound host source repl_mode s ok chain))
        (λ _ s1 (i1, k1).
          Returns-bind host (repeat top_level tt) _ s1 _ _ (top-Ended host s1 i1)
            (λ _ s2 (i2, st2, end).
              Returns-bind host end_compiler _ s2 _ _
                (end-Left host s s2 (record {
                  inv = i2;
                  frames = st2.kept.frames ∙ k1.frames;
                  classes = st2.kept.classes ∙ k1.classes;
                  nothing_left = end;
                }))
                (λ c u l.
                  subst
                    (λ v.
                      Returns host
                        (gets (λ w. w.had_error) >>= λ failed. pure (result_of failed c.function)) v
                        (Compiled host s))
                    (sym l.state) (result_at host s l.last c l.others l.finishing l.compilers)))))
