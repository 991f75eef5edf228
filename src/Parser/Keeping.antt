-- ===== src/Parser/Keeping.antt =====
-- Operations on the innermost function: the bytes, the scopes and the variables.
use my_clox.Prelude.{
  ℕ, ◌≤◌, ◌≡◌, refl, ap, sym, subst, ◌∙◌, arith, List, [], ◌∷◌, map, length, Option, none, some,
}
use my_clox.Value.{Value}
use my_clox.Chunk.{Position, Chunk, Junk}
use my_clox.Compiler.{Compiler}
use my_clox.Compiler.Upvalues.{IsChain}
use my_clox.Parser.{
  Host, FunctionCompiler, State, on_current, on_chunk, emit_byte, emit_bytes, emit_loop, emit_jump,
  patch_jump, make_constant, emit_constant, emit_return, errors, previous_text,
}
use my_clox.Parser.Scopes.{on_scopes}
use my_clox.Parser.Variables.{scopes_of}
use my_clox.Parser.Steps.{
  Frame, frame, Sound, Inv, Quiet-Step, Step, Returns, Runs, gets-Runs, bind-Runs, pure-Runs,
}
use my_clox.Parser.Matching.{errors-Runs}

abbrev pub IsBounded : Compiler → Type 0
IsBounded c = (length c.locals ≤ 256) × (length c.upvalues ≤ 256)

-- The innermost compiler replaced by `c'`.
abbrev pub with_current : State → FunctionCompiler → List FunctionCompiler → State
with_current s c' cs = record s { compilers = c' ∷ cs }

pub with_current-Sound :
    (s : State) (c c' : FunctionCompiler) (cs : List FunctionCompiler)
    → s.compilers ≡ c ∷ cs
    → (IsBounded c.scopes → IsBounded c'.scopes)
    → Sound s
    → Sound (with_current s c' cs)
with_current-Sound s c c' cs e keeps h =
    let (locals, upvalues, rest) = subst (λ l. IsChain (map scopes_of l)) e h.chained in
    let (locals', upvalues') = keeps (locals, upvalues) in
    record {
      source = h.source;
      panic = h.panic;
      chained = (locals', upvalues', rest);
      compiling = omega arith;
    }

module _ {A : Type 0} (f : State → FunctionCompiler → A × FunctionCompiler) where
  pub on_current-at :
      (host : Host) (s : State) (c : FunctionCompiler) (cs : List FunctionCompiler)
      → s.compilers ≡ c ∷ cs
      → on_current f host s ≡ some ((f s c).0, with_current s (f s c).1 cs)
  unfolding on_current
  on_current-at host s c cs e = ap (λ (l : List FunctionCompiler). on_list l) e
    where
      on_list : List FunctionCompiler → Option (A × State)
      on_list l = elim l [ [] ↦ none | d ∷ ds ↦ some ((f s d).0, with_current s (f s d).1 ds) ]

  pub on_current-Runs :
      {n : ℕ}
      → ((s : State) (c : FunctionCompiler)
          → (frame (f s c).1 ≡ frame c) × (IsBounded c.scopes → IsBounded (f s c).1.scopes))
      → Runs n (on_current f)
  on_current-Runs keeps = record { at = λ host s lt h. found host s h s.compilers refl }
    where
      found :
          (host : Host) (s : State)
          → Inv s
          → (l : List FunctionCompiler) → s.compilers ≡ l
          → Returns host (on_current f) s (λ a s'. Inv s' × Step s s')
      found host s h [] e = absurd (omega (arith, h.sound.compiling, ap length e))
      found host s h (c ∷ cs) e = (
        (f s c).0,
        with_current s (f s c).1 cs,
        on_current-at host s c cs e,
        Quiet-Step h (record {
          kept = record {
            errors = λ t. t;
            frames =
                ap (λ (x : Frame). x ∷ map frame cs) (keeps s c).0
                ∙ sym (ap (λ (l : List FunctionCompiler). map frame l) e);
            classes = refl;
          };
          sound = with_current-Sound s c (f s c).1 cs e (keeps s c).1 h.sound;
          scanner = refl;
          current = refl;
          previous = refl;
        }),
      )

module _ {A : Type 0} where
  pub on_chunk-Runs : {n : ℕ} (f : Junk → Position → Chunk → A × Chunk) → Runs n (on_chunk f)
  unfolding on_chunk
  on_chunk-Runs f = record {
    at = λ host s lt h. (on_current-Runs _ (λ t c. (refl, λ b. b))).at host s lt h;
  }

  pub on_scopes-Runs :
      {n : ℕ} (f : State → Compiler → A × Compiler)
      → ((s : State) (c : Compiler)
          → ((f s c).1.scope_depth ≡ c.scope_depth) × (IsBounded c → IsBounded (f s c).1))
      → Runs n (on_scopes f)
  unfolding on_scopes
  on_scopes-Runs f keeps =
      on_current-Runs _ (λ s c.
        (ap (λ (d : ℕ). (d, c.type, c.function)) (keeps s c.scopes).0, (keeps s c.scopes).1))

  pub reads-Runs : {n : ℕ} (f : State → Compiler → A) → Runs n (on_scopes (λ s c. (f s c, c)))
  reads-Runs f = on_scopes-Runs _ (λ s c. (refl, λ b. b))

pub emit_byte-Runs : {n : ℕ} (byte : ℕ) → Runs n (emit_byte byte)
unfolding emit_byte
emit_byte-Runs byte = on_chunk-Runs _

pub emit_bytes-Runs : {n : ℕ} (byte1 byte2 : ℕ) → Runs n (emit_bytes byte1 byte2)
unfolding emit_bytes
emit_bytes-Runs byte1 byte2 =
    bind-Runs (emit_byte byte1) _ (emit_byte-Runs byte1) (λ _. emit_byte-Runs byte2)

pub emit_loop-Runs : {n : ℕ} (start : ℕ) → Runs n (emit_loop start)
unfolding emit_loop
emit_loop-Runs start = bind-Runs _ errors (on_chunk-Runs _) errors-Runs

pub emit_jump-Runs : {n : ℕ} (instruction : ℕ) → Runs n (emit_jump instruction)
unfolding emit_jump
emit_jump-Runs instruction = on_chunk-Runs _

pub patch_jump-Runs : {n : ℕ} (offset : ℕ) → Runs n (patch_jump offset)
unfolding patch_jump
patch_jump-Runs offset = bind-Runs _ errors (on_chunk-Runs _) errors-Runs

pub make_constant-Runs : {n : ℕ} (value : Value) → Runs n (make_constant value)
unfolding make_constant
make_constant-Runs value =
    bind-Runs _ _ (on_chunk-Runs _)
      (λ (k, index). bind-Runs (errors k) _ (errors-Runs k) (λ _. pure-Runs index))

pub emit_constant-Runs : {n : ℕ} (value : Value) → Runs n (emit_constant value)
unfolding emit_constant
emit_constant-Runs value = bind-Runs _ errors (on_chunk-Runs _) errors-Runs

pub emit_return-Runs : {n : ℕ} → Runs n emit_return
unfolding emit_return
emit_return-Runs = record {
  at = λ host s lt h. (on_current-Runs _ (λ t c. (refl, λ b. b))).at host s lt h;
}

pub previous_text-Runs : {n : ℕ} → Runs n previous_text
unfolding previous_text
previous_text-Runs = gets-Runs _
