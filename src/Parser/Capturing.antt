-- ===== src/Parser/Capturing.antt =====
-- Names of the functions around: the scopes of all functions stay as deep as they are.
use my_clox.Prelude.{
  ℕ, suc, ◌%◌, ◌≡◌, refl, ap, sym, subst, ◌∙◌, Bool, true, false, ◌==◌, arith, List, [], ◌∷◌, map,
  length, Option, none, some, Bool-cases, Option-cases, inl, inr,
}
use my_clox.Compiler.{
  Compiler, find_upvalue, add_upvalue, resolve_local, resolve_around, resolve_upvalue,
}
use my_clox.Compiler.Upvalues.{IsChain}
use my_clox.Compiler.Scopes.{resolve_upvalue-Resolves}
use my_clox.Parser.{FunctionCompiler, errors}
use my_clox.Parser.Variables.{
  scopes_of, put_scopes, resolve_outside, lookup_upvalue, resolve, use_global, use_upvalue,
  use_local,
}
use my_clox.Parser.Steps.{Frame, frame, Quiet-Step, Runs, bind-Runs, pure-Runs}
use my_clox.Parser.Matching.{errors-Runs}
use my_clox.Parser.Naming.{identifier_constant-Runs, lookup_local-Runs}

abbrev depth_of : Compiler → ℕ
depth_of c = c.scope_depth

add_upvalue-depth :
    (c : Compiler) (index : ℕ) (is_local : Bool)
    → (add_upvalue c index is_local).2.scope_depth ≡ c.scope_depth
unfolding add_upvalue
add_upvalue-depth c index is_local = elim (Option-cases (find_upvalue c.upvalues index is_local)) [
  | inl missing ↦ elim (Bool-cases (length c.upvalues == 256)) [
    | inl full ↦ rw (add_upvalue, missing, full) refl
    | inr more ↦ rw (add_upvalue, missing, more) refl
  ]
  | inr (i, found) ↦ rw (add_upvalue, found) refl
]

resolve_around-depths :
    (c e : Compiler) (rest : List Compiler) (own : Option ℕ × ℕ)
    (outer : Option ℕ × ℕ × List Compiler)
    → map depth_of outer.2 ≡ map depth_of (e ∷ rest)
    → map depth_of (resolve_around c e rest own outer).2 ≡ map depth_of (c ∷ e ∷ rest)
unfolding resolve_around
resolve_around-depths c e rest (some i, k) outer h =
    ap (λ (d : ℕ). d ∷ map depth_of (e ∷ rest)) (add_upvalue-depth c (i % 256) true)
resolve_around-depths c e rest (none, k) (none, j, chain) h =
    ap (λ (l : List ℕ). c.scope_depth ∷ l) h
resolve_around-depths c e rest (none, k) (some i, j, chain) h =
    ap (λ (d : ℕ). d ∷ map depth_of chain) (add_upvalue-depth c (i % 256) false)
    ∙ ap (λ (l : List ℕ). c.scope_depth ∷ l) h

resolve_upvalue-depths :
    (chain : List Compiler) (name : List ℕ)
    → map depth_of (resolve_upvalue chain name).2 ≡ map depth_of chain
unfolding resolve_upvalue
resolve_upvalue-depths [] name = refl
resolve_upvalue-depths (c ∷ []) name = refl
resolve_upvalue-depths (c ∷ e ∷ rest) name =
    resolve_around-depths c e rest (resolve_local e name) (resolve_upvalue (e ∷ rest) name)
      (resolve_upvalue-depths (e ∷ rest) name)

-- Scopes of the same depths, put back into the functions.
put_scopes-frames :
    (cs : List FunctionCompiler) (chain : List Compiler)
    → map depth_of chain ≡ map depth_of (map scopes_of cs)
    → (map frame (put_scopes cs chain) ≡ map frame cs)
      × (map scopes_of (put_scopes cs chain) ≡ chain)
put_scopes-frames [] [] e = (refl, refl)
put_scopes-frames [] (x ∷ chain) e = cc
put_scopes-frames (c ∷ cs) [] e = cc
put_scopes-frames (c ∷ cs) (x ∷ chain) e =
    let (frames, scopes) = put_scopes-frames cs chain (cc) in
    let depth : x.scope_depth ≡ c.scopes.scope_depth = cc in
    (λ i. (depth i, c.type, c.function) ∷ frames i, ap (λ (l : List Compiler). x ∷ l) scopes)

pub length-map : {A B : Type 0} (f : A → B) (l : List A) → length (map f l) ≡ length l
length-map f [] = refl
length-map f (x ∷ l) = ap suc (length-map f l)

pub resolve_outside-Runs : {n : ℕ} (name : List ℕ) → Runs n (resolve_outside name)
unfolding resolve_outside
resolve_outside-Runs name = record {
  at = λ host s lt h.
      let chain = map scopes_of s.compilers in
      let (frames, scopes) =
        put_scopes-frames s.compilers (resolve_upvalue chain name).2
          (resolve_upvalue-depths chain name) in
      (
        _,
        _,
        refl,
        Quiet-Step h (record {
          kept = record { errors = λ t. t; frames = frames; classes = refl };
          sound = record {
            source = h.sound.source;
            panic = h.sound.panic;
            chained =
                subst IsChain (sym scopes)
                  (resolve_upvalue-Resolves chain name h.sound.chained).chained;
            compiling = omega (
              arith,
              h.sound.compiling,
              ap (λ (l : List Frame). length l) frames,
              length-map frame s.compilers,
              length-map frame (put_scopes s.compilers (resolve_upvalue chain name).2),
            );
          };
          scanner = refl;
          current = refl;
          previous = refl;
        }),
      );
}

pub lookup_upvalue-Runs : {n : ℕ} (name : List ℕ) → Runs n (lookup_upvalue name)
unfolding lookup_upvalue
lookup_upvalue-Runs name =
    bind-Runs (resolve_outside name) _ (resolve_outside-Runs name)
      (λ (arg, k). bind-Runs (errors k) _ (errors-Runs k) (λ _. pure-Runs arg))

use_global-Runs : {n : ℕ} (name : List ℕ) → Runs n (use_global name)
unfolding use_global
use_global-Runs name = bind-Runs _ _ (identifier_constant-Runs name) (λ arg. pure-Runs _)

use_upvalue-Runs : {n : ℕ} (name : List ℕ) (o : Option ℕ) → Runs n (use_upvalue name o)
use_upvalue-Runs name (some arg) = pure-Runs _
use_upvalue-Runs name none = use_global-Runs name

use_local-Runs : {n : ℕ} (name : List ℕ) (o : Option ℕ) → Runs n (use_local name o)
use_local-Runs name (some arg) = pure-Runs _
use_local-Runs name none = bind-Runs _ _ (lookup_upvalue-Runs name) (use_upvalue-Runs name)

pub resolve-Runs : {n : ℕ} (name : List ℕ) → Runs n (resolve name)
unfolding resolve
resolve-Runs name = bind-Runs _ _ (lookup_local-Runs name) (use_local-Runs name)
