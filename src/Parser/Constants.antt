-- ===== src/Parser/Constants.antt =====
-- The constants of names: `identifierConstant` and `makeConstant` with their error.
use my_clox.Prelude.{
  ℕ, ◌%◌, ◌≤◌, ◌<◌, ◌≡◌, refl, true, ltb, ap, ◌∙◌, arith, List, [], ◌∷◌, ◌++◌, length, get_elem?,
  some, inl, inr, ◌⊎◌, Bool-cases,
}
use my_clox.Value.{Value, obj_val}
use my_clox.Chunk.{Position, Chunk, add_constant}
use my_clox.Chunk.Laws.{IsChunk, add_constant-IsChunk}
use my_clox.Emit
use my_clox.Emit.Constants.{make_large, make_small}
use my_clox.Parser.{
  Host, FunctionCompiler, State, ◌>>=◌, ◌>>◌, pure, error, errors, on_chunk, make_constant,
}
use my_clox.Parser.Scopes.{copied}
use my_clox.Parser.Variables.{identifier_constant}
use my_clox.Parser.Steps.{Inv, Returns, bind-some}
use my_clox.Parser.Keeping.{with_current, on_current-at}

-- The constant of a name: its operand, and the function that is compiled afterwards.
pub record Named (constants : List Value) (code : List ℕ) (positions : List Position) (v : Value)
    (cs : List FunctionCompiler) (arg : ℕ) (s : State) : Type 0 where
  pub fits : arg < 256
  pub current : FunctionCompiler
  pub is_current : s.compilers ≡ current ∷ cs
  pub chunk : IsChunk code positions (constants ++ v ∷ []) current.chunk
  pub outcome :
      ((length constants ≤ 255) × (get_elem? current.chunk.constants.values arg ≡ some v))
      ⊎ ((255 < length constants) × (s.had_error ≡ true))

module _ (host : Host) (s : State) (v : Value) (c : FunctionCompiler) (cs : List FunctionCompiler)
    (is : s.compilers ≡ c ∷ cs) where
  abbrev made : ℕ × ℕ × Chunk
  made = Emit.make_constant host.junk v c.chunk

  abbrev after_made : Chunk → State
  after_made chunk = with_current s (record c { chunk = chunk }) cs

  on_made :
      (n index : ℕ) (chunk : Chunk)
      → Emit.make_constant host.junk v c.chunk ≡ (n, index, chunk)
      → make_constant v host s ≡ (errors n >> pure index) host (after_made chunk)
  unfolding make_constant on_chunk
  on_made n index chunk e =
      bind-some host _ _ s (after_made chunk) (n, index)
        (on_current-at _ host s c cs is
          ∙ ap (λ (r : ℕ × ℕ × Chunk). some ((r.0, r.1), after_made r.2)) e)

  -- The state after the error, and that it was reported.
  reported :
      (index : ℕ) (t : State)
      → (t.panic_mode ≡ true → t.had_error ≡ true)
      → (t' : State) × ((errors 1 >> pure index) host t ≡ some (index, t'))
        × (t'.compilers ≡ t.compilers)
        × (t'.had_error ≡ true)
  unfolding errors error pure ◌>>=◌
  reported index t panic = elim (Bool-cases t.panic_mode) [
    | inl on ↦ (t, (rw on refl), refl, panic on)
    | inr off ↦ (record t { panic_mode = true; had_error = true }, (rw off refl), refl, refl)
  ]

  quiet : (index : ℕ) (t : State) → (errors 0 >> pure index) host t ≡ some (index, t)
  unfolding errors pure ◌>>=◌
  quiet index t = refl

  make_constant-Named :
      (code : List ℕ) (positions : List Position) (constants : List Value)
      → Inv s
      → IsChunk code positions constants c.chunk
      → Returns host (make_constant v) s (Named constants code positions v cs)
  make_constant-Named code positions constants i h =
      let (added, index, here) =
        add_constant-IsChunk host.junk code positions constants c.chunk v h in
      let chunk = (add_constant host.junk c.chunk v).0 in
      elim (Bool-cases (ltb 255 (length constants))) [
        | inl large ↦
            let far : 255 < length constants = ground (arith, large) in
            let (t, run, same, told) = reported 0 (after_made chunk) i.sound.panic in
            (
              0,
              t,
              on_made 1 0 chunk (make_large host.junk v c.chunk (omega (arith, index, far))) ∙ run,
              record {
                fits = omega arith;
                current = record c { chunk = chunk };
                is_current = same;
                chunk = added;
                outcome = inr (far, told);
              },
            )
        | inr small ↦
            let near : length constants ≤ 255 = ground (arith, small) in
            let k = (add_constant host.junk c.chunk v).1 in
            let whole : k % 256 ≡ k = omega (arith, index, near) in
            (
              k % 256,
              after_made chunk,
              on_made 0 (k % 256) chunk
                    (make_small host.junk v c.chunk (omega (arith, index, near)))
                  ∙ quiet (k % 256) (after_made chunk),
              record {
                fits = omega arith;
                current = record c { chunk = chunk };
                is_current = refl;
                chunk = added;
                outcome =
                    inl (near, ap (λ (n : ℕ). get_elem? chunk.constants.values n) whole ∙ here);
              },
            )
      ]

-- From a sound state, where the current function's chunk holds its code and constants, the constant
-- of a name is made: the interned string is appended to the constants and the code is kept. With at
-- most 255 constants before it, the operand, which fits a byte, is the index of the string; with
-- more, an error was reported.
pub identifier_constant-Named :
    (host : Host) (s : State) (name : List ℕ) (c : FunctionCompiler) (cs : List FunctionCompiler)
    (code : List ℕ) (positions : List Position) (constants : List Value)
    → Inv s
    → s.compilers ≡ c ∷ cs
    → IsChunk code positions constants c.chunk
    → Returns host
        (identifier_constant name)
        s
        (Named constants code positions (obj_val (host.copy_string name)) cs)
unfolding identifier_constant copied
identifier_constant-Named host s name c cs code positions constants i is h =
    let v = obj_val (host.copy_string name) in
    let (arg, t, run, p) = make_constant-Named host s v c cs is code positions constants i h in
    (
      arg,
      t,
      bind-some host (copied name) (λ p. make_constant (obj_val p)) s s (host.copy_string name) refl
          ∙ run,
      p,
    )
