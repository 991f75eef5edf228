-- ===== src/Strings.antt =====
-- src/object.c and src/table.c: hashing, `tableFindString` and the interning of strings. The state
-- is the string objects of the heap and the table `vm.strings`. `fresh` is the address that the
-- allocator returns; a collection that the allocation may run is not part of these functions.
pub mod Bytes
pub mod Find
pub mod Intern
use my_clox.Prelude.{
  ℕ, zero, suc, ◌+◌, ◌*◌, ◌%◌, ◌^◌, Bool, true, false, ◌&&◌, ◌==◌, if◌then◌else◌, bit_and, bit_xor,
  List, [], ◌∷◌, Option, none, some, length, get_elem?,
}
use my_clox.Value.{Ptr, null, nil_val, is_nil}
use my_clox.Table.{Table, Entry, mask, next_index, table_set}

-- `chars` without the final zero byte.
pub record ObjString : Type 0 where
  pub length : ℕ
  pub chars : List ℕ
  pub hash : ℕ

pub record Strings : Type 0 where
  pub object : Ptr → ObjString
  pub table : Table

-- `hash ^= (uint8_t)key[i]; hash *= 16777619;` on `uint32_t`
abbrev pub hash_byte : ℕ → ℕ → ℕ
hash_byte hash byte = bit_xor hash byte * 16777619 % 2 ^ 32

unfoldable pub hash_loop : ℕ → List ℕ → ℕ
hash_loop hash [] = hash
hash_loop hash (byte ∷ key) = hash_loop (hash_byte hash byte) key

unfoldable pub hash_string : List ℕ → ℕ
hash_string key = hash_loop 2166136261 key

-- `memcmp(a, b, n) == 0`
unfoldable pub same_bytes : ℕ → List ℕ → List ℕ → Bool
same_bytes zero a b = true
same_bytes (suc n) (x ∷ a) (y ∷ b) = x == y && same_bytes n a b
same_bytes (suc n) _ _ = false

unfoldable pub is_text : ObjString → List ℕ → ℕ → ℕ → Bool
is_text key chars length hash =
    key.length == length && key.hash == hash && same_bytes length key.chars chars

-- The loop of `tableFindString`, with one round for each slot.
unfoldable pub find_string_loop :
    ℕ → (Ptr → ObjString) → Table → List ℕ → ℕ → ℕ → ℕ → Option (Option Ptr)
find_string_loop zero object table chars length hash index = none
find_string_loop (suc fuel) object table chars length hash index =
    let next =
      find_string_loop fuel object table chars length hash (next_index table.capacity index) in
    elim (get_elem? table.entries index) [
      | none ↦ none
      | some entry ↦
          if entry.key == null
          then (if is_nil entry.value then some none else next)
          else if is_text (object entry.key) chars length hash
          then some (some entry.key)
          else next
    ]

unfoldable pub table_find_string : (Ptr → ObjString) → Table → List ℕ → ℕ → ℕ → Option (Option Ptr)
table_find_string object table chars length hash =
    if table.count == 0
    then some none
    else find_string_loop (my_clox.Prelude.length table.entries) object table chars length hash
        (bit_and hash (mask table.capacity))

abbrev pub update : (Ptr → ObjString) → Ptr → ObjString → Ptr → ObjString
update object p s q = if q == p then s else object q

abbrev pub hash_of : (Ptr → ObjString) → Ptr → ℕ
hash_of object p = (object p).hash

unfoldable pub allocate_string : Strings → Ptr → List ℕ → ℕ → Option (Ptr × Strings)
allocate_string s fresh chars hash =
    let object =
      update s.object fresh (record { length = length chars; chars = chars; hash = hash }) in
    elim (table_set (hash_of object) s.table fresh nil_val) [
      | none ↦ none
      | some (is_new_key, table) ↦ some (fresh, record { object = object; table = table })
    ]

-- `copyString`; `takeString` differs in who owns the bytes.
unfoldable pub copy_string : Strings → Ptr → List ℕ → Option (Ptr × Strings)
copy_string s fresh chars =
    let hash = hash_string chars in
    elim (table_find_string s.object s.table chars (length chars) hash) [
      | none ↦ none
      | some (some interned) ↦ some (interned, s)
      | some none ↦ allocate_string s fresh chars hash
    ]
