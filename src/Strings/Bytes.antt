-- ===== src/Strings/Bytes.antt =====
-- `memcmp` over the whole length of two strings decides their equality.
use my_clox.Prelude.{ℕ, ◌≡◌, refl, true, arith, List, [], ◌∷◌, length, ap}
use my_clox.Strings.{ObjString, same_bytes, is_text, hash_string}

pub same_bytes_refl : (a : List ℕ) → same_bytes (length a) a a ≡ true
unfolding same_bytes
same_bytes_refl [] = refl
same_bytes_refl (x ∷ a) = ground (arith, same_bytes_refl a)

pub same_bytes_sound :
    (a b : List ℕ) → length a ≡ length b → same_bytes (length b) a b ≡ true → a ≡ b
unfolding same_bytes
same_bytes_sound [] [] e h = refl
same_bytes_sound [] (y ∷ b) e h = absurd (omega arith)
same_bytes_sound (x ∷ a) [] e h = absurd (omega arith)
same_bytes_sound (x ∷ a) (y ∷ b) e h = ground (arith, same_bytes_sound a b)

-- A string object whose length and hash are those of its bytes.
pub record IsString (s : ObjString) : Type 0 where
  pub length_eq : s.length ≡ length s.chars
  pub hash_eq : s.hash ≡ hash_string s.chars

-- The test of `tableFindString` decides whether a string has the text.
pub is_text_sound :
    (s : ObjString) (chars : List ℕ)
    → IsString s
    → is_text s chars (length chars) (hash_string chars) ≡ true
    → s.chars ≡ chars
unfolding is_text
is_text_sound s chars w h = ground (arith, same_bytes_sound s.chars chars, w.length_eq)

pub is_text_complete :
    (s : ObjString) (chars : List ℕ)
    → IsString s
    → s.chars ≡ chars
    → is_text s chars (length chars) (hash_string chars) ≡ true
unfolding is_text
is_text_complete s chars w e =
    ground (
      arith,
      same_bytes_refl chars,
      w.length_eq,
      w.hash_eq,
      ap hash_string e,
      ap (length {A = ℕ}) e,
    )
