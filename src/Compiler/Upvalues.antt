-- ===== src/Compiler/Upvalues.antt =====
-- `addUpvalue`, and what an upvalue stands for in a chain of compilers.
use my_clox.Prelude.{
  ℕ, zero, suc, ◌+◌, ◌≤◌, ◌<◌, ◌≡◌, refl, Bool, true, false, ◌&&◌, ◌==◌, if◌then◌else◌, arith, List,
  [], ◌∷◌, ◌++◌, Option, none, some, length, get_elem?, ap, sym, Bool-cases, Option-cases, inl, inr,
  ◌⊎◌, length-append, some_inj,
}
use my_clox.Compiler.{Local, Upvalue, Compiler, find_local, same_flag, find_upvalue, add_upvalue}

abbrev pub bump : Option (ℕ × ℕ) → Option (ℕ × ℕ)
bump none = none
bump (some (levels, local)) = some (suc levels, local)

abbrev pub local_index : Option (ℕ × Option ℕ) → Option ℕ
local_index none = none
local_index (some (i, depth)) = some i

-- The variable that an upvalue of the first compiler stands for: how many functions out, and which
-- local there.
unfoldable pub refers : List Compiler → ℕ → Option (ℕ × ℕ)
refers [] u = none
refers (compiler ∷ outer) u = elim (get_elem? compiler.upvalues u) [
  | none ↦ none
  | some up ↦ if up.is_local then some (1, up.index) else bump (refers outer up.index)
]

-- The variable of a name in the nearest of the enclosing functions that has one.
unfoldable pub nearest : List Compiler → List ℕ → Option (ℕ × ℕ)
nearest [] name = none
nearest (enclosing ∷ rest) name = elim (find_local enclosing.locals name) [
  | none ↦ bump (nearest rest name)
  | some (i, depth) ↦ some (1, i)
]

abbrev pub IsChain : List Compiler → Type 0
IsChain [] = Unit {0}
IsChain (compiler ∷ rest) =
    (length compiler.locals ≤ 256) × (length compiler.upvalues ≤ 256) × IsChain rest

pub find_local-lt :
    (locals : List Local) (name : List ℕ) (i : ℕ) (depth : Option ℕ)
    → find_local locals name ≡ some (i, depth)
    → i < length locals
unfolding find_local
find_local-lt [] name i depth e = absurd (ground (arith, e))
find_local-lt (local ∷ locals) name i depth e = elim (Option-cases (find_local locals name)) [
  | inl missing ↦ ground (arith, e, missing)
  | inr ((j, d), found) ↦ ground (arith, e, found, find_local-lt locals name j d found)
]

-- What `addUpvalue` does.
pub record Added (compiler : Compiler) (index : ℕ) (is_local : Bool) (r : ℕ × ℕ × Compiler)
    : Type 0 where
  pub locals : r.2.locals ≡ compiler.locals
  pub kept :
      (i : ℕ) (up : Upvalue)
      → get_elem? compiler.upvalues i ≡ some up
      → get_elem? r.2.upvalues i ≡ some up
  pub few : length r.2.upvalues ≤ 256
  pub small : r.0 < 256
  pub one_more : length r.2.upvalues ≤ length compiler.upvalues + 1
  pub shared :
      (i : ℕ)
      → get_elem? compiler.upvalues i ≡ some (record { index = index; is_local = is_local })
      → (r.1 ≡ 0) × (r.2 ≡ compiler)
  pub outcome :
      (r.1 ≡ 0)
      ⊎ ((r.1 ≡ 1)
          × (r.2 ≡ compiler)
          × (length compiler.upvalues ≡ 256)
          × ((i : ℕ)
              → get_elem? compiler.upvalues i ≡ some (record { index = index; is_local = is_local })
              → ⊥))
  pub made :
      r.1 ≡ 0 → get_elem? r.2.upvalues r.0 ≡ some (record { index = index; is_local = is_local })

same_upvalue :
    (up : Upvalue) (index : ℕ) (is_local : Bool)
    → (up.index == index && same_flag up.is_local is_local) ≡ true
    → up ≡ record { index = index; is_local = is_local }
same_upvalue up index is_local same = λ i. record {
  index = indices up.index index (same_flag up.is_local is_local) same i;
  is_local = flags up.is_local is_local (up.index == index) same i;
}
  where
    indices : (a b : ℕ) (c : Bool) → (a == b && c) ≡ true → a ≡ b
    indices a b c h = ground (arith, h)

    flags : (a b c : Bool) → (c && same_flag a b) ≡ true → a ≡ b
    flags true true c h = refl
    flags true false c h = ground (arith, h)
    flags false true c h = ground (arith, h)
    flags false false c h = refl

find_upvalue-found :
    (upvalues : List Upvalue) (index : ℕ) (is_local : Bool) (i : ℕ)
    → find_upvalue upvalues index is_local ≡ some i
    → (i < length upvalues)
      × (get_elem? upvalues i ≡ some (record { index = index; is_local = is_local }))
unfolding find_upvalue
find_upvalue-found [] index is_local i e = absurd (ground (arith, e))
find_upvalue-found (up ∷ upvalues) index is_local i e =
    elim (Bool-cases (up.index == index && same_flag up.is_local is_local)) [
      | inl same ↦
          let at_zero : 0 ≡ i = some_inj (ground (arith, e, same)) in
          rw (sym at_zero) (omega arith, ap some (same_upvalue up index is_local same))
      | inr other ↦ elim (Option-cases (find_upvalue upvalues index is_local)) [
        | inl missing ↦ absurd (ground (arith, e, other, missing))
        | inr (j, found) ↦
            let at_suc : suc j ≡ i = some_inj (ground (arith, e, other, found)) in
            let (lt, here) = find_upvalue-found upvalues index is_local j found in
            rw (sym at_suc) (omega (arith, lt), here)
      ]
    ]

same_flag-same : (b : Bool) → same_flag b b ≡ true
same_flag-same true = refl
same_flag-same false = refl

find_upvalue-missing :
    (upvalues : List Upvalue) (index : ℕ) (is_local : Bool)
    → find_upvalue upvalues index is_local ≡ none
    → (i : ℕ) → get_elem? upvalues i ≡ some (record { index = index; is_local = is_local })
    → ⊥
unfolding find_upvalue
find_upvalue-missing [] index is_local missing i e = absurd (ground (arith, e))
find_upvalue-missing (up ∷ upvalues) index is_local missing zero e =
    let same : up ≡ record { index = index; is_local = is_local } = some_inj e in
    let found : (up.index == index && same_flag up.is_local is_local) ≡ true =
      rw (same, same_flag-same is_local) (ground arith) in
    ground (arith, missing, found)
find_upvalue-missing (up ∷ upvalues) index is_local missing (suc i) e =
    elim (Bool-cases (up.index == index && same_flag up.is_local is_local)) [
      | inl same ↦ ground (arith, missing, same)
      | inr other ↦ elim (Option-cases (find_upvalue upvalues index is_local)) [
        | inl later ↦ find_upvalue-missing upvalues index is_local later i e
        | inr (j, found) ↦ ground (arith, missing, other, found)
      ]
    ]

get_elem?-append :
    {A : Type 0} (xs ys : List A) (i : ℕ) (a : A)
    → get_elem? xs i ≡ some a
    → get_elem? (xs ++ ys) i ≡ some a
get_elem?-append [] ys i a e = absurd (ground (arith, e))
get_elem?-append (x ∷ xs) ys zero a e = e
get_elem?-append (x ∷ xs) ys (suc i) a e = get_elem?-append xs ys i a e

get_elem?-last : {A : Type 0} (xs : List A) (a : A) → get_elem? (xs ++ a ∷ []) (length xs) ≡ some a
get_elem?-last [] a = refl
get_elem?-last (x ∷ xs) a = get_elem?-last xs a

module _ (compiler : Compiler) (index : ℕ) (is_local : Bool) where
  add_found :
      (i : ℕ)
      → find_upvalue compiler.upvalues index is_local ≡ some i
      → add_upvalue compiler index is_local ≡ (i, 0, compiler)
  unfolding add_upvalue
  add_found i found = rw (add_upvalue, found) refl

  add_full :
      find_upvalue compiler.upvalues index is_local ≡ none
      → (length compiler.upvalues == 256) ≡ true
      → add_upvalue compiler index is_local ≡ (0, 1, compiler)
  unfolding add_upvalue
  add_full missing full = rw (add_upvalue, missing, full) refl

  add_new :
      find_upvalue compiler.upvalues index is_local ≡ none
      → (length compiler.upvalues == 256) ≡ false
      → add_upvalue compiler index is_local ≡ (
        length compiler.upvalues,
        0,
        record compiler {
          upvalues = compiler.upvalues ++ record { index = index; is_local = is_local } ∷ [];
        },
      )
  unfolding add_upvalue
  add_new missing room = rw (add_upvalue, missing, room) refl

  -- With at most 256 upvalues, `addUpvalue` reports an error exactly where there are 256 and none of
  -- them has the index and the flag; it then adds nothing. Otherwise the upvalue that it returns has
  -- the index and the flag: one that was there, with nothing added, or the one new upvalue. The ones
  -- before it stay, and there are still at most 256.
  pub add_upvalue-Added :
      length compiler.upvalues ≤ 256
      → Added compiler index is_local (add_upvalue compiler index is_local)
  add_upvalue-Added few = elim (Option-cases (find_upvalue compiler.upvalues index is_local)) [
    | inr (i, found) ↦
        let (lt, here) = find_upvalue-found compiler.upvalues index is_local i found in
        rw (add_found i found) (record {
          locals = refl;
          kept = λ j up e. e;
          few = few;
          small = omega arith;
          one_more = omega arith;
          shared = λ j e. (refl, refl);
          outcome = inl refl;
          made = λ e. here;
        })
    | inl missing ↦ elim (Bool-cases (length compiler.upvalues == 256)) [
      | inl full ↦ rw (add_full missing full) (record {
        locals = refl;
        kept = λ j up e. e;
        few = few;
        small = omega arith;
        one_more = omega arith;
        shared = λ j e. absurd (gone missing j e);
        outcome = inr (refl, refl, ground (arith, full), gone missing);
        made = λ e. absurd (one_error e);
      })
      | inr room ↦ rw (add_new missing room) (record {
        locals = refl;
        kept = λ j up e. get_elem?-append compiler.upvalues _ j up e;
        few = below (length compiler.upvalues) room few (length-append compiler.upvalues _);
        small = lt_of (length compiler.upvalues) room few;
        one_more = omega (
          arith,
          length-append compiler.upvalues (record { index = index; is_local = is_local } ∷ []),
        );
        shared = λ j e. absurd (gone missing j e);
        outcome = inl refl;
        made = λ e. get_elem?-last compiler.upvalues _;
      })
    ]
  ]
    where
      gone :
          find_upvalue compiler.upvalues index is_local ≡ none
          → (i : ℕ)
          → get_elem? compiler.upvalues i ≡ some (record { index = index; is_local = is_local })
          → ⊥
      gone missing = find_upvalue-missing compiler.upvalues index is_local missing

      one_error : ◌≡◌ {A = ℕ} 1 0 → ⊥
      one_error e = omega arith

      lt_of : (n : ℕ) → (n == 256) ≡ false → n ≤ 256 → n < 256
      lt_of n room few = ground (arith, room)

      below : (n : ℕ) {m : ℕ} → (n == 256) ≡ false → n ≤ 256 → m ≡ n + 1 → m ≤ 256
      below n room few e = ground (arith, room, e)
