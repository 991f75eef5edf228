-- ===== src/Parser.antt =====
-- src/compiler.c: the parser's state, tokens and emitted code. An operation takes what it needs of
-- its surroundings and the globals, and returns its result and the globals afterwards: `none` is a
-- null pointer that is followed, or a loop that runs out of rounds. What is printed is left out.
pub mod Scopes
pub mod Variables
pub mod Literals
pub mod Expressions
pub mod Simple
pub mod Statements
pub mod Steps
pub mod Rules
pub mod Scanning
pub mod Advancing
pub mod Matching
pub mod Keeping
pub mod Naming
pub mod Capturing
pub mod Operators
pub mod Precedence
pub mod Looping
pub mod Scoping
pub mod Functions
pub mod Bodies
pub mod Classes
pub mod Declaring
pub mod Toplevel
pub mod Compiling
pub mod Constants
use my_clox.Prelude.{
  ℕ, zero, suc, ◌+◌, ◌-◌, ◌%◌, Bool, true, false, ◌==◌, if◌then◌else◌, List, [], ◌∷◌, Option, none,
  some, length, take,
}
use my_clox.Value.{Value, Double, Ptr}
use my_clox.Chunk.{Position, Chunk, Junk}
use my_clox.Object.{ObjFunction}
use my_clox.Tokens.{TokenType}
use my_clox.Tokens.Numbers.{same_type}
use my_clox.Scanner.{Scanner, Token, scan_token, is_error}
use my_clox.Compiler.{Compiler}
use my_clox.Emit
use my_clox.Emit.{FunctionType}

-- `copy_string` is `copyString` of src/object.c, which gives equal texts one address;
-- `new_function` is the address of the n-th object that `newFunction` makes; `strtod` is the C
-- library's, on the text that follows; `junk` and `junk_type` are what uninitialised cells hold.
pub record Host : Type 0 where
  pub copy_string : List ℕ → Ptr
  pub new_function : ℕ → Ptr
  pub strtod : List ℕ → Double
  pub junk : Junk
  pub junk_type : TokenType

-- `Compiler` of the source, with the function that it fills: `scopes` are its arrays.
pub record FunctionCompiler : Type 0 where
  pub function : Ptr
  pub type : FunctionType
  pub scopes : Compiler
  pub chunk : Chunk
  pub arity : ℕ
  pub name : Ptr

-- The globals `parser`, `current`, `currentClass` and `scanner`: the chains through `enclosing` are
-- lists, the innermost first, and a class is its `hasSuperclass`. `made` counts the functions made,
-- and `functions` are those that are finished, at their addresses.
pub record State : Type 0 where
  pub current : Token
  pub previous : Token
  pub had_error : Bool
  pub panic_mode : Bool
  pub scanner : Scanner
  pub compilers : List FunctionCompiler
  pub classes : List Bool
  pub made : ℕ
  pub functions : List (Ptr × ObjFunction)

abbrev pub M : Type 0 → Type 0
M A = Host → State → Option (A × State)

abbrev pub Act : Type 0
Act = M (Unit {0})

infixl 5 ◌>>=◌ ◌>>◌
unfoldable pub ◌>>=◌ : {A B : Type 0} → M A → (A → M B) → M B
◌>>=◌ m f host s = elim (m host s) [ none ↦ none | some (a, s') ↦ f a host s' ]

abbrev pub ◌>>◌ : {A B : Type 0} → M A → M B → M B
m >> n = m >>= λ _. n

unfoldable pub pure : {A : Type 0} → A → M A
pure a host s = some (a, s)

unfoldable pub stuck : {A : Type 0} → M A
stuck host s = none

unfoldable pub gets : {A : Type 0} → (State → A) → M A
gets f host s = some (f s, s)

-- A loop: each round says whether there is another. It starts with more rounds than there are
-- characters and tokens left.
unfoldable pub loop : {A : Type 0} → ℕ → (A → M (Bool × A)) → A → M A
loop zero round a = stuck
loop (suc rounds) round a = round a >>= λ (more, b). if more then loop rounds round b else pure b

abbrev pub rounds : State → ℕ
rounds s = suc (suc (suc (length s.scanner.current)))

unfoldable pub repeat : {A : Type 0} → (A → M (Bool × A)) → A → M A
repeat round a = gets rounds >>= λ n. loop n round a

-- `while (test) body`
abbrev pub while_true : M Bool → Act → Unit {0} → M (Bool × Unit {0})
while_true test body _ = test >>= λ go. if go then body >> pure (true, tt) else pure (false, tt)

-- `errorAt`, whatever the token and the message.
unfoldable pub error : Act
error host s =
    some (tt, if s.panic_mode then s else record s { panic_mode = true; had_error = true })

unfoldable pub errors : ℕ → Act
errors zero = pure tt
errors (suc n) = error >> errors n

unfoldable pub scan : M Token
scan host s = elim (scan_token host.junk_type s.scanner) [
  | none ↦ none
  | some (token, scanner) ↦ some (token, record s { current = token; scanner = scanner })
]

unfoldable pub keep_previous : Act
keep_previous host s = some (tt, record s { previous = s.current })

unfoldable pub advance : Act
advance =
    keep_previous
    >> repeat
        (λ _. scan >>= λ token.
          if is_error token.type then error >> pure (true, tt) else pure (false, tt))
        tt

abbrev pub check_now : TokenType → State → Bool
check_now type s = same_type s.current.type type

unfoldable pub check : TokenType → M Bool
check type = gets (check_now type)

unfoldable pub consume : TokenType → Act
consume type = check type >>= λ there. if there then advance else error

unfoldable pub match : TokenType → M Bool
match type = check type >>= λ there. if there then advance >> pure true else pure false

-- The text of a token.
abbrev pub text_of : Token → List ℕ
text_of token = take token.length token.start

unfoldable pub previous_text : M (List ℕ)
previous_text = gets (λ s. text_of s.previous)

-- On `current`, the compiler of the innermost function.
unfoldable pub on_current : {A : Type 0} → (State → FunctionCompiler → A × FunctionCompiler) → M A
on_current f host s = elim s.compilers [
  | [] ↦ none
  | c ∷ cs ↦ let (a, c') = f s c in some (a, record s { compilers = c' ∷ cs })
]

-- On `currentChunk`, with the position that `emitByte` writes.
unfoldable pub on_chunk : {A : Type 0} → (Junk → Position → Chunk → A × Chunk) → M A
on_chunk f host =
    on_current
      (λ s c.
        let (a, chunk) = f host.junk s.previous.position c.chunk in (a, record c { chunk = chunk }))
      host

unfoldable pub emit_byte : ℕ → Act
emit_byte byte = on_chunk (λ junk position chunk. (tt, Emit.emit_byte junk position byte chunk))

unfoldable pub emit_bytes : ℕ → ℕ → Act
emit_bytes byte1 byte2 = emit_byte byte1 >> emit_byte byte2

unfoldable pub emit_loop : ℕ → Act
emit_loop start =
    on_chunk (λ junk position chunk. Emit.emit_loop junk position start chunk) >>= errors

unfoldable pub emit_jump : ℕ → M ℕ
emit_jump instruction =
    on_chunk (λ junk position chunk. Emit.emit_jump junk position instruction chunk)

unfoldable pub patch_jump : ℕ → Act
patch_jump offset = on_chunk (λ junk position chunk. Emit.patch_jump offset chunk) >>= errors

unfoldable pub make_constant : Value → M ℕ
make_constant value =
    on_chunk (λ junk position chunk.
      let (n, index, chunk') = Emit.make_constant junk value chunk in ((n, index), chunk'))
    >>= λ (n, index). errors n >> pure index

unfoldable pub emit_constant : Value → Act
emit_constant value =
    on_chunk (λ junk position chunk. Emit.emit_constant junk position value chunk) >>= errors

unfoldable pub emit_return : Act
emit_return host =
    on_current
      (λ s c.
        (tt, record c { chunk = Emit.emit_return host.junk s.previous.position c.type c.chunk }))
      host
