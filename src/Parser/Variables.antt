-- ===== src/Parser/Variables.antt =====
-- src/compiler.c: variables of the parser.
use my_clox.Prelude.{
  ℕ, ◌+◌, Bool, true, false, ltb, ◌==◌, if◌then◌else◌, List, [], ◌∷◌, map, Option, none, some,
}
use my_clox.Value.{obj_val}
use my_clox.Tokens.{token_identifier}
use my_clox.Compiler.{Local, Upvalue, Compiler, identifiers_equal, resolve_local, resolve_upvalue}
use my_clox.Compiler
use my_clox.Opcodes.{
  op_define_global, op_get_local, op_set_local, op_get_upvalue, op_set_upvalue, op_get_global,
  op_set_global,
}
use my_clox.Parser.{
  FunctionCompiler, M, Act, ◌>>=◌, ◌>>◌, pure, errors, consume, previous_text, emit_bytes,
  make_constant,
}
use my_clox.Parser.Scopes.{copied, on_scopes}

unfoldable pub identifier_constant : List ℕ → M ℕ
identifier_constant name = do string ← copied name; make_constant (obj_val string)

-- `depth != -1 && depth < scopeDepth`
abbrev pub is_outer : ℕ → Option ℕ → Bool
is_outer scope none = false
is_outer scope (some depth) = ltb depth scope

-- The loop of `declareVariable`, which goes down from the last: its errors, and whether it broke.
unfoldable pub clashes : ℕ → List ℕ → List Local → ℕ × Bool
clashes scope name [] = (0, false)
clashes scope name (local ∷ locals) =
    let (n, broke) = clashes scope name locals in
    if broke
    then (n, true)
    else if is_outer scope local.depth
    then (n, true)
    else (if identifiers_equal name local.name then n + 1 else n, false)

unfoldable pub add_local : List ℕ → Act
add_local name = on_scopes (λ s c. Compiler.add_local c name) >>= errors

unfoldable pub is_global : M Bool
is_global = on_scopes (λ s c. (c.scope_depth == 0, c))

unfoldable pub declare_variable : Act
declare_variable = do
  global ← is_global
  name ← previous_text
  if global then pure tt else do
    n ← on_scopes (λ s c. ((clashes c.scope_depth name c.locals).0, c))
    errors n
    add_local name

unfoldable pub parse_variable : M ℕ
parse_variable = do
  consume token_identifier
  declare_variable
  global ← is_global
  name ← previous_text
  if global then identifier_constant name else pure 0

abbrev pub set_last_depth : ℕ → List Local → List Local
set_last_depth depth [] = []
set_last_depth depth (local ∷ []) = record local { depth = some depth } ∷ []
set_last_depth depth (local ∷ next ∷ locals) = local ∷ set_last_depth depth (next ∷ locals)

unfoldable pub mark_initialized : Act
mark_initialized = on_scopes (λ s c. (
  tt,
  if c.scope_depth == 0 then c else record c { locals = set_last_depth c.scope_depth c.locals },
))

unfoldable pub define_variable : ℕ → Act
define_variable global = do
  at_top ← is_global
  if at_top then emit_bytes op_define_global global else mark_initialized

unfoldable pub lookup_local : List ℕ → M (Option ℕ)
lookup_local name =
    on_scopes (λ s c. (resolve_local c name, c)) >>= λ (arg, n). errors n >> pure arg

abbrev pub scopes_of : FunctionCompiler → Compiler
scopes_of c = c.scopes

abbrev pub put_scopes : List FunctionCompiler → List Compiler → List FunctionCompiler
put_scopes (c ∷ cs) (scopes ∷ rest) = record c { scopes = scopes } ∷ put_scopes cs rest
put_scopes cs _ = cs

unfoldable pub resolve_outside : List ℕ → M (Option ℕ × ℕ)
resolve_outside name host s =
    let (arg, n, chain) = resolve_upvalue (map scopes_of s.compilers) name in
    some ((arg, n), record s { compilers = put_scopes s.compilers chain })

unfoldable pub lookup_upvalue : List ℕ → M (Option ℕ)
lookup_upvalue name = resolve_outside name >>= λ (arg, n). errors n >> pure arg

unfoldable pub use_global : List ℕ → M (ℕ × ℕ × ℕ)
use_global name = do arg ← identifier_constant name; pure (op_get_global, op_set_global, arg)

abbrev pub use_upvalue : List ℕ → Option ℕ → M (ℕ × ℕ × ℕ)
use_upvalue name (some arg) = pure (op_get_upvalue, op_set_upvalue, arg)
use_upvalue name none = use_global name

abbrev pub use_local : List ℕ → Option ℕ → M (ℕ × ℕ × ℕ)
use_local name (some arg) = pure (op_get_local, op_set_local, arg)
use_local name none = lookup_upvalue name >>= use_upvalue name

-- `getOp`, `setOp` and `arg` of `namedVariable`.
unfoldable pub resolve : List ℕ → M (ℕ × ℕ × ℕ)
resolve name = lookup_local name >>= use_local name
