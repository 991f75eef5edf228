-- ===== src/Scanner/Moves.antt =====
-- Where the scanner stands after some characters, and the lines and columns that it counts.
use my_clox.Prelude.{
  ℕ, zero, suc, ◌+◌, ◌≤◌, ◌≡◌, ◌≢◌, refl, Bool, ◌==◌, if◌then◌else◌, arith, List, [], ◌∷◌, some,
  length, take, drop, ap, sym, ◌∙◌,
}
use my_clox.Chunk.{Position}
use my_clox.Scanner.{Scanner, step, advance, advance_n}

unfoldable pub position_after : List ℕ → Position → Position
position_after [] p = p
position_after (c ∷ w) p = position_after w (step c p)

-- The scanner after `n` characters.
unfoldable pub moved : ℕ → Scanner → Scanner
moved n s = record s {
  current = drop n s.current;
  position = position_after (take n s.current) s.position;
}

unfoldable pub newlines : List ℕ → ℕ
newlines [] = 0
newlines (c ∷ w) = (if c == 10 then 1 else 0) + newlines w

-- The line is counted up by the newlines; the column is set to 0 by a newline, and never counted.
pub position_after-newlines :
    (w : List ℕ) (p : Position)
    → ((position_after w p).line ≡ p.line + newlines w)
      × ((position_after w p).column ≡ (if newlines w == 0 then p.column else 0))
unfolding position_after newlines
position_after-newlines [] p = (omega arith, refl)
position_after-newlines (c ∷ w) p =
    let (line, column) = position_after-newlines w (step c p) in
    (ground (arith, line), ground (arith, column))

-- No zero byte stands in the source.
abbrev pub IsSource : List ℕ → Type 0
IsSource [] = Unit {0}
IsSource (c ∷ w) = (c ≢ 0) × IsSource w

pub drop-IsSource : (n : ℕ) (w : List ℕ) → IsSource w → IsSource (drop n w)
drop-IsSource zero w ok = ok
drop-IsSource (suc n) [] ok = tt
drop-IsSource (suc n) (c ∷ w) (c_ok, ok) = drop-IsSource n w ok

pub advance_n-moved :
    (n : ℕ) (start current : List ℕ) (p : Position) (repl : Bool)
    → n ≤ length current
    → advance_n n (record { start = start; current = current; position = p; repl_mode = repl })
      ≡ some (moved n (record { start = start; current = current; position = p; repl_mode = repl }))
unfolding advance_n advance moved position_after
advance_n-moved zero start current p repl h = refl
advance_n-moved (suc n) start [] p repl h = absurd (omega arith)
advance_n-moved (suc n) start (c ∷ w) p repl h =
    advance_n-moved n start w (step c p) repl (omega arith)

drop-nil : (k : ℕ) → drop {A = ℕ} k [] ≡ []
drop-nil zero = refl
drop-nil (suc k) = refl

take-nil : (k : ℕ) → take {A = ℕ} k [] ≡ []
take-nil zero = refl
take-nil (suc k) = refl

pub drop_plus : (m n : ℕ) (w : List ℕ) → drop n (drop m w) ≡ drop (m + n) w
drop_plus zero n w = let e : n ≡ 0 + n = omega arith in ap (λ (k : ℕ). drop k w) e
drop_plus (suc m) n [] = drop-nil n ∙ sym (drop-nil (suc m + n))
drop_plus (suc m) n (c ∷ w) =
    let e : suc (m + n) ≡ suc m + n = omega arith in
    drop_plus m n w ∙ ap (λ (k : ℕ). drop k (c ∷ w)) e

pub position_after-plus :
    (m n : ℕ) (w : List ℕ) (p : Position)
    → position_after (take n (drop m w)) (position_after (take m w) p)
      ≡ position_after (take (m + n) w) p
unfolding position_after
position_after-plus zero n w p =
    let e : n ≡ 0 + n = omega arith in ap (λ (k : ℕ). position_after (take k w) p) e
position_after-plus (suc m) n [] p =
    ap (λ w. position_after w p) (take-nil n ∙ sym (take-nil (suc m + n)))
position_after-plus (suc m) n (c ∷ w) p =
    let e : suc (m + n) ≡ suc m + n = omega arith in
    position_after-plus m n w (step c p) ∙ ap (λ (k : ℕ). position_after (take k (c ∷ w)) p) e

pub moved-moved : (m n : ℕ) (s : Scanner) → moved n (moved m s) ≡ moved (m + n) s
unfolding moved
moved-moved m n s = λ i. record s {
  current = drop_plus m n s.current i;
  position = position_after-plus m n s.current s.position i;
}

pub length-drop : (k : ℕ) (w : List ℕ) → k ≤ length w → length (drop k w) + k ≡ length w
length-drop zero w h = omega arith
length-drop (suc k) [] h = absurd (omega arith)
length-drop (suc k) (c ∷ w) h = omega (arith, length-drop k w)

abbrev pub scanner_at : List ℕ → List ℕ → Position → Bool → Scanner
scanner_at start current p repl = record {
  start = start;
  current = current;
  position = p;
  repl_mode = repl;
}

pub moved_zero : (s : Scanner) → moved 0 s ≡ s
unfolding moved position_after
moved_zero s = refl

pub moved_space :
    (k : ℕ) (start : List ℕ) (c : ℕ) (w : List ℕ) (p : Position) (repl : Bool)
    → moved k (scanner_at start w (step c p) repl) ≡ moved (suc k) (scanner_at start (c ∷ w) p repl)
unfolding moved position_after
moved_space k start c w p repl = refl

pub moved_at :
    (n : ℕ) (start current : List ℕ) (p : Position) (repl : Bool)
    → moved n (scanner_at start current p repl)
      ≡ scanner_at start (drop n current) (position_after (take n current) p) repl
unfolding moved
moved_at n start current p repl = refl
