-- ===== src/Lib.antt =====
-- my-clox: a bytecode interpreter for the Lox language in C (src/*.c, src/*.h). The scanner feeds
-- the compiler, which writes chunks of byte code; the virtual machine runs them on a stack of
-- values. Values are words with boxed doubles and pointers; strings are interned in a hash table;
-- globals, fields and methods are hash tables of the same kind; the heap objects are collected by
-- marking and sweeping. What each file models:
--
-- Prelude        names passed on, Boolean tests, lists by native numbers, bit masks, integers.
-- Value          src/value.h, src/value.c: NaN boxing (`Value`, `number_val`, `is_nil`,
--                `values_equal`, named as the macros) beside the tagged union (`Tagged`) that the
--                other build uses. A double is its 64 bits, and `==` is IEEE's on them.
-- Table          src/table.h, src/table.c: the open-addressing hash table, one function for each of
--                the C functions. A key is the address of an interned string, `hash` reads its
--                hash. Child modules: Slots (lists of entries), Probe (the probe sequence), Placed
--                (where keys stand), Write, Grow, Valid (the invariant), Methods (set, get,
--                delete), Bulk (add all), Sweep (remove white), Count (the number of entries).
-- Strings        src/object.c, src/table.c: FNV-1a, the search by text, interning. Bytes, Find and
--                Intern hold the lemmas.
-- Chunk          src/value.c, src/chunk.c: growing arrays. Growth and Laws hold the lemmas.
-- Object         src/object.h: the structs of the heap objects.
-- Allocation     src/memory.c, src/memory.h: the bytes that `reallocate` counts, and the blocks of an
--                object. Frees (blocks that are freed in order).
-- Gc             src/memory.c: marking with a gray stack, tracing, the sweep. Refs (what an object
--                refers to), Mark (marking a list of addresses), Trace (reachability), Sweep,
--                Sweeping, Left and Survive (what is left), Collect (the whole collection).
-- Tokens         src/tokens_regexes.c: the kinds of token, their regular expressions and
--                `matchRegexes`. Language (what an expression matches), Search (one expression),
--                Munch (the longest match), Spelling (operators and keywords).
-- Scanner        src/scanner.c: the scanner. Moves (positions), Skip (white space and comments),
--                Scan (one call of `scanToken`).
-- Compiler       src/compiler.c: locals, upvalues and the resolution of names. Upvalues (adding one),
--                Scopes (lexical scoping).
-- Emit           src/compiler.c and src/vm.c: emitted bytes, jumps and loops, and how the machine
--                reads them. Jumps holds the round trips, Constants the operands of constants.
-- Opcodes        src/chunk.h: the numbers of the instructions.
-- Parser         src/compiler.c: the parser's state and monad, tokens, errors, emitted code. Scopes
--                and Variables, Literals and Expressions (`parsePrecedence` and its table), Simple
--                and Statements (statements, functions, classes, `compile`) hold the rest of the
--                source. Steps (what is kept, and what is left to parse), Rules and Looping (rules for
--                the monad and its loops), Scanning, Advancing and Matching (tokens), Keeping, Naming
--                and Capturing (variables), Scoping and Functions (scopes and functions that are
--                entered and left), Operators, Precedence, Bodies, Classes, Declaring, Toplevel and
--                Compiling (that each parse function ends), Constants (names).
-- Vm             src/vm.c: open upvalues, calls, methods, properties and the return. Open (the order
--                of the open upvalues), Frames (the frame limit, what a caller gets back), Falsey
--                (false conditions), Callees (calls of values, methods and properties), Objects (the
--                heap after an allocation), Methods (a method called in one instruction or two),
--                Properties (an assignment and the reading after it).
-- Debug          src/debug.c: the disassembler, which returns its lines. Reads (an instruction is the
--                bytes that it is shown for), Walk (a whole chunk), Targets (jumps).
-- Tests          runs on small inputs.
--
-- Fuel and bounds. `findEntry` and `tableFindString` loop without a bound; the model gives them one
-- round for each slot, which is enough where a slot is empty, as the load bound guarantees. The
-- capacities stay below 2 ^ 30, so that the doubled capacity is an `int` and the masks are those of
-- a power of two. `traceReferences` gets one round for each object: every object is pushed on the
-- gray stack once. The scanner's loops get one round for each character that is left, and one to
-- stop. The parse functions that call one another get a round for each character and token that is
-- left, statements and declarations two; so do the parser's loops. `Parser.Steps.measure` is what is
-- left. Other loops run over a list. `regexec` of the C library is POSIX's leftmost longest match.
--
-- `none` is what the source leaves undefined or what it does not end on: a read out of bounds, a
-- read through a dangling pointer, a jump to before the code, a loop that runs out of rounds. A cell
-- of a grown array holds an unknown value (`Junk`) until it is written. The address of a new object
-- is a parameter (`fresh`).
--
-- Not modelled: the rest of the virtual machine; the clock; the command line, the prompt and files,
-- which are input and output; printing; the collection that an operation may run when it allocates;
-- what follows where a free of the sweep starts another collection, for which the result is
-- `collects`. The sizes of the structs are a parameter (`Sizes`). The gray stack's own array is a
-- list. The arithmetic of doubles is not modelled either.
pub mod Prelude
pub mod Value
pub mod Table
pub mod Strings
pub mod Chunk
pub mod Object
pub mod Allocation
pub mod Gc
pub mod Tokens
pub mod Scanner
pub mod Compiler
pub mod Opcodes
pub mod Emit
pub mod Parser
pub mod Vm
pub mod Debug
mod Tests
