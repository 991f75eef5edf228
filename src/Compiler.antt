-- ===== src/Compiler.antt =====
-- src/compiler.c: the scopes of the compiler, its locals and upvalues.
-- The chain of compilers through `enclosing` is a list, the current one first. An error
-- message is counted: `errors` are the calls of `error`, whether panic mode silences them or not.
pub mod Upvalues
pub mod Scopes
use my_clox.Prelude.{
  ◌>>=◌, ℕ, zero, suc, ◌+◌, ◌-◌, ◌*◌, ◌/◌, ◌%◌, Bool, true, false, not, ◌&&◌, ◌||◌, ltb, leb, ◌==◌,
  if◌then◌else◌, List, [], ◌∷◌, ◌++◌, Option, none, some, length, get_elem?, set,
}

-- `depth` is `none` for -1, a local whose initializer is being compiled.
pub record Local : Type 0 where
  pub name : List ℕ
  pub depth : Option ℕ
  pub is_captured : Bool

pub record Upvalue : Type 0 where
  pub index : ℕ
  pub is_local : Bool

-- The used parts of the arrays, in their order: `locals` is `localCount` long and `upvalues` is
-- `upvalueCount` long.
pub record Compiler : Type 0 where
  pub locals : List Local
  pub upvalues : List Upvalue
  pub scope_depth : ℕ

-- `identifersEqual`, on the texts of two tokens.
abbrev pub identifiers_equal : List ℕ → List ℕ → Bool
identifiers_equal [] [] = true
identifiers_equal (c ∷ a) (d ∷ b) = c == d && identifiers_equal a b
identifiers_equal _ _ = false

-- The loop of `resolveLocal`, which goes down from the last: the index found and its depth.
unfoldable pub find_local : List Local → List ℕ → Option (ℕ × Option ℕ)
find_local [] name = none
find_local (local ∷ locals) name = elim (find_local locals name) [
  | some (i, depth) ↦ some (suc i, depth)
  | none ↦ if identifiers_equal name local.name then some (0, local.depth) else none
]

abbrev pub own_error : Option ℕ → ℕ
own_error none = 1
own_error (some depth) = 0

-- The index, or `none` for -1, and the errors.
unfoldable pub resolve_local : Compiler → List ℕ → Option ℕ × ℕ
resolve_local compiler name = elim (find_local compiler.locals name) [
  | none ↦ (none, 0)
  | some (i, depth) ↦ (some i, own_error depth)
]

abbrev pub same_flag : Bool → Bool → Bool
same_flag true b = b
same_flag false b = not b

unfoldable pub find_upvalue : List Upvalue → ℕ → Bool → Option ℕ
find_upvalue [] index is_local = none
find_upvalue (upvalue ∷ upvalues) index is_local =
    if upvalue.index == index && same_flag upvalue.is_local is_local
    then some 0
    else elim (find_upvalue upvalues index is_local) [ none ↦ none | some i ↦ some (suc i) ]

-- The index, the errors, and the compiler afterwards.
unfoldable pub add_upvalue : Compiler → ℕ → Bool → ℕ × ℕ × Compiler
add_upvalue compiler index is_local = elim (find_upvalue compiler.upvalues index is_local) [
  | some i ↦ (i, 0, compiler)
  | none ↦ if length compiler.upvalues == 256 then (0, 1, compiler) else (
    length compiler.upvalues,
    0,
    record compiler {
      upvalues = compiler.upvalues ++ record { index = index; is_local = is_local } ∷ [];
    },
  )
]

abbrev pub capture : List Local → ℕ → List Local
capture [] i = []
capture (local ∷ locals) zero = record local { is_captured = true } ∷ locals
capture (local ∷ locals) (suc i) = local ∷ capture locals i

-- The steps of `resolveUpvalue` on a compiler, its enclosing one and the rest, with the results of
-- `resolveLocal` and of the recursive call, which is looked at where the first finds nothing.
unfoldable pub resolve_around :
    Compiler
    → Compiler
    → List Compiler
    → Option ℕ × ℕ
    → Option ℕ × ℕ × List Compiler
    → Option ℕ × ℕ × List Compiler
resolve_around compiler enclosing rest (some local, errors) outer =
    let added = add_upvalue compiler (local % 256) true in
    (
      some added.0,
      errors + added.1,
      added.2 ∷ record enclosing { locals = capture enclosing.locals local } ∷ rest,
    )
resolve_around compiler enclosing rest (none, errors) (none, outer_errors, outer) =
    (none, errors + outer_errors, compiler ∷ outer)
resolve_around compiler enclosing rest (none, errors) (some upvalue, outer_errors, outer) =
    let added = add_upvalue compiler (upvalue % 256) false in
    (some added.0, errors + outer_errors + added.1, added.2 ∷ outer)

-- On a chain of compilers, the first of which looks the name up in those around it.
unfoldable pub resolve_upvalue : List Compiler → List ℕ → Option ℕ × ℕ × List Compiler
resolve_upvalue [] name = (none, 0, [])
resolve_upvalue (compiler ∷ []) name = (none, 0, compiler ∷ [])
resolve_upvalue (compiler ∷ enclosing ∷ rest) name =
    resolve_around compiler enclosing rest (resolve_local enclosing name)
      (resolve_upvalue (enclosing ∷ rest) name)

unfoldable pub add_local : Compiler → List ℕ → ℕ × Compiler
add_local compiler name = if length compiler.locals == 256 then (1, compiler) else (
  0,
  record compiler {
    locals = compiler.locals ++ record { name = name; depth = none; is_captured = false } ∷ [];
  },
)
