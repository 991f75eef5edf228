-- ===== src/Object.antt =====
-- src/object.h: the heap objects. An object's header holds the mark; the chain through `next` is
-- a list of addresses. A native function is named by a number.
use my_clox.Prelude.{ℕ, Bool, true, false, ◌==◌, List, Option}
use my_clox.Value.{Value, Ptr}
use my_clox.Table.{Table}
use my_clox.Strings.{ObjString}
use my_clox.Chunk.{Chunk}

pub record ObjFunction : Type 0 where
  pub arity : ℕ
  pub upvalue_count : ℕ
  pub chunk : Chunk
  pub name : Ptr

-- `location` is a slot of the value stack, or the upvalue's own `closed` field.
pub data Location : Type 0 where
  stack_slot : ℕ → Location
  own_closed : Location

pub record ObjUpvalue : Type 0 where
  pub location : Location
  pub closed : Value

pub record ObjClosure : Type 0 where
  pub function : Ptr
  pub upvalues : List Ptr

pub record ObjClass : Type 0 where
  pub name : Ptr
  pub methods : Table

pub record ObjInstance : Type 0 where
  pub klass : Ptr
  pub fields : Table

pub record ObjBoundMethod : Type 0 where
  pub receiver : Value
  pub method : Ptr

-- `ObjType` and the struct that each type stands for.
pub data Body : Type 0 where
  bound_method : ObjBoundMethod → Body
  klass : ObjClass → Body
  closure : ObjClosure → Body
  function : ObjFunction → Body
  native : ℕ → Body
  text : ObjString → Body
  upvalue : ObjUpvalue → Body
  instance_of : ObjInstance → Body

pub record Obj : Type 0 where
  pub is_marked : Bool
  pub body : Body

-- `none` where no object is allocated.
abbrev pub Heap : Type 0
Heap = Ptr → Option Obj

abbrev pub store : Heap → Ptr → Option Obj → Heap
store h p o q = elim (q == p) [ true ↦ o | false ↦ h q ]
