-- ===== src/Parser/Scopes.antt =====
-- src/compiler.c: functions and scopes of the parser.
use my_clox.Prelude.{
  ℕ, zero, suc, ◌+◌, ◌-◌, Bool, false, ltb, if◌then◌else◌, List, [], ◌∷◌, Option, none, some,
  length,
}
use my_clox.Value.{Ptr, null}
use my_clox.Chunk.{init_chunk}
use my_clox.Object.{ObjFunction}
use my_clox.Compiler.{Local, Compiler}
use my_clox.Emit.{FunctionType, type_function, type_script}
use my_clox.Opcodes.{op_pop, op_close_upvalue}
use my_clox.Parser.{
  Host, FunctionCompiler, State, M, Act, ◌>>=◌, ◌>>◌, pure, text_of, on_current, emit_byte,
  emit_return,
}

-- `copyString`
unfoldable pub copied : List ℕ → M Ptr
copied text host s = some (host.copy_string text, s)

-- Slot 0 of a function's frame: "this", or a name that no variable has.
abbrev pub slot_name : FunctionType → List ℕ
slot_name type_function = []
slot_name _ = 116 ∷ 104 ∷ 105 ∷ 115 ∷ []

abbrev pub function_name : Host → State → FunctionType → Ptr
function_name host s type_script = null
function_name host s _ = host.copy_string (text_of s.previous)

abbrev pub first_scope : FunctionType → Compiler
first_scope type = record {
  locals = record { name = slot_name type; depth = some 0; is_captured = false } ∷ [];
  upvalues = [];
  scope_depth = 0;
}

unfoldable pub init_compiler : FunctionType → Act
init_compiler type host s = some (
  tt,
  record s {
    made = suc s.made;
    compilers =
        record {
          function = host.new_function s.made;
          type = type;
          scopes = first_scope type;
          chunk = init_chunk;
          arity = 0;
          name = function_name host s type;
        }
        ∷ s.compilers;
  },
)

abbrev pub finished : FunctionCompiler → ObjFunction
finished c = record {
  arity = c.arity;
  upvalue_count = length c.scopes.upvalues;
  chunk = c.chunk;
  name = c.name;
}

unfoldable pub leave_compiler : M FunctionCompiler
leave_compiler host s = elim s.compilers [
  | [] ↦ none
  | c ∷ cs ↦
      some (c, record s { compilers = cs; functions = (c.function, finished c) ∷ s.functions })
]

-- The compiler that it leaves, whose arrays are read once more.
unfoldable pub end_compiler : M FunctionCompiler
end_compiler = emit_return >> leave_compiler

unfoldable pub on_scopes : {A : Type 0} → (State → Compiler → A × Compiler) → M A
on_scopes f =
    on_current (λ s c. let (a, scopes) = f s c.scopes in (a, record c { scopes = scopes }))

unfoldable pub begin_scope : Act
begin_scope = on_scopes (λ s c. (tt, record c { scope_depth = c.scope_depth + 1 }))

unfoldable pub lower_scope : Act
lower_scope = on_scopes (λ s c. (tt, record c { scope_depth = c.scope_depth - 1 }))

abbrev pub last : List Local → Option Local
last [] = none
last (local ∷ []) = some local
last (_ ∷ local ∷ locals) = last (local ∷ locals)

abbrev pub drop_last : List Local → List Local
drop_last [] = []
drop_last (local ∷ []) = []
drop_last (local ∷ next ∷ locals) = local ∷ drop_last (next ∷ locals)

-- `depth > scopeDepth`; -1 is not.
abbrev pub is_deeper : ℕ → Option ℕ → Bool
is_deeper scope none = false
is_deeper scope (some depth) = ltb scope depth

-- What is emitted for the last local when it leaves its scope; `none` where none does.
abbrev pub leaving : Compiler → Option ℕ
leaving c = elim (last c.locals) [
  | none ↦ none
  | some local ↦
      if is_deeper c.scope_depth local.depth
      then some (if local.is_captured then op_close_upvalue else op_pop)
      else none
]

unfoldable pub last_leaving : M (Option ℕ)
last_leaving = on_scopes (λ s c. (leaving c, c))

unfoldable pub drop_local : Act
drop_local = on_scopes (λ s c. (tt, record c { locals = drop_last c.locals }))

-- The loop of `endScope`, on the number of locals.
unfoldable pub pop_locals : ℕ → Act
pop_locals zero = pure tt
pop_locals (suc count) = last_leaving >>= λ o. elim o [
  | none ↦ pure tt
  | some byte ↦ emit_byte byte >> drop_local >> pop_locals count
]

unfoldable pub end_scope : Act
end_scope = do lower_scope; count ← on_scopes (λ s c. (length c.locals, c)); pop_locals count
