-- ===== src/Compiler/Scopes.antt =====
-- Lexical scoping: the upvalue that a name resolves to stands for the variable of the nearest
-- enclosing function that has one of that name.
use my_clox.Prelude.{
  ℕ, zero, suc, ◌<◌, ◌%◌, ◌≡◌, refl, Bool, true, false, if◌then◌else◌, arith, List, [], ◌∷◌, Option,
  none, some, length, get_elem?, ap, sym, ◌∙◌, Option-cases, inl, inr, ◌⊎◌, some_inj, subst,
}
use my_clox.Compiler.{
  Local, Upvalue, Compiler, find_local, own_error, resolve_local, add_upvalue, capture,
  resolve_around, resolve_upvalue,
}
use my_clox.Compiler.Upvalues.{bump, refers, nearest, IsChain, find_local-lt, add_upvalue-Added}

abbrev pub outside : List Compiler → List Compiler
outside [] = []
outside (compiler ∷ outer) = outer

-- What `resolveUpvalue` does to a chain.
pub record Resolves (chain : List Compiler) (name : List ℕ) (r : Option ℕ × ℕ × List Compiler)
    : Type 0 where
  pub chained : IsChain r.2
  pub kept : (u : ℕ) (x : ℕ × ℕ) → refers chain u ≡ some x → refers r.2 u ≡ some x
  pub missing : r.0 ≡ none → nearest (outside chain) name ≡ none
  pub small : (u : ℕ) → r.0 ≡ some u → u < 256
  pub found :
      (u : ℕ)
      → r.0 ≡ some u
      → r.1 ≡ 0
      → (x : ℕ × ℕ) × (nearest (outside chain) name ≡ some x) × (refers r.2 u ≡ some x)

refers-at :
    (c : Compiler) (outer : List Compiler) (u : ℕ) (up : Upvalue)
    → get_elem? c.upvalues u ≡ some up
    → refers (c ∷ outer) u
      ≡ (if up.is_local then some (1, up.index) else bump (refers outer up.index))
unfolding refers
refers-at c outer u up here = rw (refers, here) refl

refers-none :
    (c : Compiler) (outer : List Compiler) (u : ℕ)
    → get_elem? c.upvalues u ≡ none
    → refers (c ∷ outer) u ≡ none
unfolding refers
refers-none c outer u gone = rw (refers, gone) refl

none≢some : {x : ℕ × ℕ} → none ≡ some x → ⊥
none≢some e = ground (arith, e)

bump-some : (o : Option (ℕ × ℕ)) (x : ℕ × ℕ) → bump o ≡ some x → (y : ℕ × ℕ) × (o ≡ some y)
bump-some none x e = absurd (none≢some e)
bump-some (some y) x e = (y, refl)

-- An added upvalue leaves what the others stand for.
refers-kept :
    (c c' : Compiler) (outer outer' : List Compiler)
    → ((i : ℕ) (up : Upvalue)
        → get_elem? c.upvalues i ≡ some up
        → get_elem? c'.upvalues i ≡ some up)
    → ((u : ℕ) (x : ℕ × ℕ) → refers outer u ≡ some x → refers outer' u ≡ some x)
    → (u : ℕ) (x : ℕ × ℕ) → refers (c ∷ outer) u ≡ some x
    → refers (c' ∷ outer') u ≡ some x
refers-kept c c' outer outer' upvalues kept u x e = elim (Option-cases (get_elem? c.upvalues u)) [
  | inl gone ↦ absurd (none≢some (sym (refers-none c outer u gone) ∙ e))
  | inr (up, here) ↦
      refers-at c' outer' u up (upvalues u up here)
      ∙ through up.is_local up.index (sym (refers-at c outer u up here) ∙ e)
]
  where
    through :
        (is_local : Bool) (index : ℕ)
        → (if is_local then some (1, index) else bump (refers outer index)) ≡ some x
        → (if is_local then some (1, index) else bump (refers outer' index)) ≡ some x
    through true index e = e
    through false index e =
        let (y, at_y) = bump-some (refers outer index) x e in
        ap bump (kept index y at_y ∙ sym at_y) ∙ e

-- Capturing a local changes no upvalue.
refers-capture :
    (c : Compiler) (outer : List Compiler) (i u : ℕ)
    → refers (record c { locals = capture c.locals i } ∷ outer) u ≡ refers (c ∷ outer) u
unfolding refers
refers-capture c outer i u = refl

length-capture : (locals : List Local) (i : ℕ) → length (capture locals i) ≡ length locals
length-capture [] i = refl
length-capture (local ∷ locals) zero = refl
length-capture (local ∷ locals) (suc i) = ap suc (length-capture locals i)

small_mod : (n : ℕ) → n < 256 → n % 256 ≡ n
small_mod n lt = omega arith

bare : {u : ℕ} → none ≡ some u → ⊥
bare h = ground (arith, h)

local_of :
    (e : Compiler) (name : List ℕ)
    → ((i : ℕ) × (depth : Option ℕ) × (find_local e.locals name ≡ some (i, depth))
        × (resolve_local e name ≡ (some i, own_error depth)))
      ⊎ ((find_local e.locals name ≡ none) × (resolve_local e name ≡ (none, 0)))
unfolding resolve_local
local_of e name = elim (Option-cases (find_local e.locals name)) [
  | inl missing ↦ inr (missing, rw (resolve_local, missing) refl)
  | inr ((i, depth), found) ↦ inl (i, depth, found, rw (resolve_local, found) refl)
]

module _ (c e : Compiler) (rest : List Compiler) (name : List ℕ) where
  nearest-local :
      (i : ℕ) (depth : Option ℕ)
      → find_local e.locals name ≡ some (i, depth)
      → nearest (e ∷ rest) name ≡ some (1, i)
  unfolding nearest
  nearest-local i depth found = rw (nearest, found) refl

  nearest-outer :
      find_local e.locals name ≡ none → nearest (e ∷ rest) name ≡ bump (nearest rest name)
  unfolding nearest
  nearest-outer missing = rw (nearest, missing) refl

  around-local :
      (i errors : ℕ) (outer : Option ℕ × ℕ × List Compiler) (depth : Option ℕ)
      → IsChain (c ∷ e ∷ rest)
      → find_local e.locals name ≡ some (i, depth)
      → Resolves (c ∷ e ∷ rest) name (resolve_around c e rest (some i, errors) outer)
  unfolding resolve_around
  around-local i errors outer depth (locals, upvalues, (e_locals, e_upvalues, chained)) found =
      let a = add_upvalue-Added c (i % 256) true upvalues in
      let lt = find_local-lt e.locals name i depth found in
      let new = (add_upvalue c (i % 256) true).2 in
      let enclosing : Compiler = record e { locals = capture e.locals i } in
      record {
        chained = (
          omega (arith, ap length a.locals),
          a.few,
          (omega (arith, length-capture e.locals i), e_upvalues, chained),
        );
        kept =
            refers-kept c (add_upvalue c (i % 256) true).2 (e ∷ rest) _ a.kept
              (λ u x at_u. refers-capture e rest i u ∙ at_u);
        missing = λ gone. absurd (bare (sym gone));
        small = λ u at_u. subst (λ n. n < 256) (some_inj at_u) a.small;
        found = λ u at_u fine. (
          (1, i),
          nearest-local i depth found,
          subst (λ n. refers (new ∷ enclosing ∷ rest) n ≡ some (1, i)) (some_inj at_u)
              (refers-at new (enclosing ∷ rest) (add_upvalue c (i % 256) true).0 _
                  (a.made (omega (arith, fine)))
                ∙ ap (λ (n : ℕ). some (1, n)) (small_mod i (omega (arith, lt)))),
        );
      }

  around-none :
      (errors : ℕ) (outer : List Compiler)
      → IsChain (c ∷ e ∷ rest)
      → find_local e.locals name ≡ none
      → Resolves (e ∷ rest) name (none, errors, outer)
      → Resolves (c ∷ e ∷ rest) name (resolve_around c e rest (none, 0) (none, errors, outer))
  unfolding resolve_around
  around-none errors outer (locals, upvalues, chained) missing r = record {
    chained = (locals, upvalues, r.chained);
    kept = refers-kept c c (e ∷ rest) outer (λ i up at_i. at_i) r.kept;
    missing = λ gone. nearest-outer missing ∙ ap bump (r.missing refl);
    small = λ u at_u. absurd (bare at_u);
    found = λ u at_u. absurd (bare at_u);
  }

  around-some :
      (v errors : ℕ) (outer : List Compiler)
      → IsChain (c ∷ e ∷ rest)
      → find_local e.locals name ≡ none
      → Resolves (e ∷ rest) name (some v, errors, outer)
      → Resolves (c ∷ e ∷ rest) name (resolve_around c e rest (none, 0) (some v, errors, outer))
  unfolding resolve_around
  around-some v errors outer (locals, upvalues, chained) missing r =
      let a = add_upvalue-Added c (v % 256) false upvalues in
      let lt = r.small v refl in
      let new = (add_upvalue c (v % 256) false).2 in
      record {
        chained = (omega (arith, ap length a.locals), a.few, r.chained);
        kept = refers-kept c (add_upvalue c (v % 256) false).2 (e ∷ rest) outer a.kept r.kept;
        missing = λ gone. absurd (bare (sym gone));
        small = λ u at_u. subst (λ n. n < 256) (some_inj at_u) a.small;
        found = λ u at_u fine.
            let (x, where_x, at_x) = r.found v refl (omega (arith, fine)) in
            (
              (suc x.0, x.1),
              nearest-outer missing ∙ ap bump where_x,
              subst (λ n. refers (new ∷ outer) n ≡ some (suc x.0, x.1)) (some_inj at_u)
                  (refers-at new outer (add_upvalue c (v % 256) false).0 _
                      (a.made (omega (arith, fine)))
                    ∙ ap (λ (n : ℕ). bump (refers outer n)) (small_mod v lt)
                    ∙ ap bump at_x),
            );
      }

-- In a chain of compilers with at most 256 locals and 256 upvalues each, where resolving a name
-- finds no variable, no enclosing function has a local of that name. Where it finds one and
-- reports no error, the upvalue stands for the local of the nearest enclosing function that has
-- one. What the other upvalues of the compiler stand for does not change.
pub resolve_upvalue-Resolves :
    (chain : List Compiler) (name : List ℕ)
    → IsChain chain
    → Resolves chain name (resolve_upvalue chain name)
unfolding resolve_upvalue nearest
resolve_upvalue-Resolves [] name w = record {
  chained = w;
  kept = λ u x e. e;
  missing = λ gone. refl;
  small = λ u at_u. absurd (bare at_u);
  found = λ u at_u. absurd (bare at_u);
}
resolve_upvalue-Resolves (c ∷ []) name w = record {
  chained = w;
  kept = λ u x e. e;
  missing = λ gone. refl;
  small = λ u at_u. absurd (bare at_u);
  found = λ u at_u. absurd (bare at_u);
}
resolve_upvalue-Resolves (c ∷ e ∷ rest) name (locals, upvalues, w) =
    combine (local_of e name) (resolve_upvalue (e ∷ rest) name)
      (resolve_upvalue-Resolves (e ∷ rest) name w)
  where
    combine :
        (((i : ℕ) × (depth : Option ℕ) × (find_local e.locals name ≡ some (i, depth))
            × (resolve_local e name ≡ (some i, own_error depth)))
          ⊎ ((find_local e.locals name ≡ none) × (resolve_local e name ≡ (none, 0))))
        → (r : Option ℕ × ℕ × List Compiler) → Resolves (e ∷ rest) name r
        → Resolves (c ∷ e ∷ rest) name (resolve_around c e rest (resolve_local e name) r)
    combine (inl (i, depth, found, run)) r outer =
        rw run (around-local c e rest name i (own_error depth) r depth (locals, upvalues, w) found)
    combine (inr (missing, run)) (none, errors, chain) outer =
        rw run (around-none c e rest name errors chain (locals, upvalues, w) missing outer)
    combine (inr (missing, run)) (some v, errors, chain) outer =
        rw run (around-some c e rest name v errors chain (locals, upvalues, w) missing outer)
