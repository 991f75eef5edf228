-- ===== src/Scanner/Skip.antt =====
-- What `skipWhitespace` skips.
use my_clox.Prelude.{
  subst, ℕ, zero, suc, ◌+◌, ◌≤◌, ◌<◌, ◌≡◌, ◌≢◌, refl, Bool, true, false, ◌&&◌, ◌==◌, if◌then◌else◌,
  arith, List, [], ◌∷◌, some, length, take, drop, ap, sym, ◌∙◌, Bool-cases, inl, inr,
}
use my_clox.Chunk.{Position}
use my_clox.Scanner.{
  Scanner, first, step, is_at_end, advance, peek, peek_next, is_space, skip_line, skip_whitespace,
}
use my_clox.Scanner.Moves.{
  IsSource, drop-IsSource, position_after, moved, moved-moved, length-drop, scanner_at, moved_zero,
  moved_space, moved_at,
}

-- How far the line goes.
unfoldable pub line_length : List ℕ → ℕ
line_length [] = 0
line_length (c ∷ w) = if c == 10 then 0 else suc (line_length w)

skip_line-moved :
    (fuel : ℕ) (start current : List ℕ) (p : Position) (repl : Bool)
    → IsSource current
    → length current < fuel
    → skip_line fuel (record { start = start; current = current; position = p; repl_mode = repl })
      ≡ some (
          moved
            (line_length current)
            (record { start = start; current = current; position = p; repl_mode = repl }))
unfolding skip_line advance moved position_after line_length peek is_at_end
skip_line-moved zero start current p repl ok h = absurd (omega arith)
skip_line-moved (suc fuel) start [] p repl ok h = refl
skip_line-moved (suc fuel) start (c ∷ w) p repl (c_ok, ok) h = elim (Bool-cases (c == 10)) [
  | inl newline ↦ rw newline refl
  | inr other ↦
      let live : (c == 0) ≡ false = ground (arith, c_ok) in
      let here : step c p ≡ p =
        ap (λ b. if b then record { line = p.line + 1; column = 0 } else p) other in
      rw (other, live)
        (skip_line-moved fuel start w p repl ok (omega arith)
          ∙ ap
              (λ (q : Position). some (record {
                start = start;
                current = drop (line_length w) w;
                position = position_after (take (line_length w) w) q;
                repl_mode = repl;
              }))
              (sym here))
]

abbrev pub is_comment : List ℕ → Bool
is_comment [] = false
is_comment (c ∷ w) = c == 47 && first w == 47

-- What white space and comments take off the head of a text: all that is there.
pub data Skips : List ℕ → ℕ → Type 0 where
  stop : (w : List ℕ) → is_space (first w) ≡ false → is_comment w ≡ false → Skips w 0
  space : (c : ℕ) (w : List ℕ) (k : ℕ) → is_space c ≡ true → Skips w k → Skips (c ∷ w) (suc k)
  comment :
      (w : List ℕ) (k : ℕ)
      → is_comment w ≡ true
      → Skips (drop (line_length w) w) k
      → Skips w (line_length w + k)

line-le : (w : List ℕ) → line_length w ≤ length w
unfolding line_length
line-le [] = omega arith
line-le (c ∷ w) = ground (arith, line-le w)

skip_end :
    (fuel : ℕ) (start : List ℕ) (p : Position) (repl : Bool)
    → skip_whitespace (suc fuel) (scanner_at start [] p repl)
      ≡ some (moved 0 (scanner_at start [] p repl))
unfolding skip_whitespace peek moved position_after
skip_end fuel start p repl = refl

module _ (fuel : ℕ) (start : List ℕ) (c : ℕ) (w : List ℕ) (p : Position) (repl : Bool) where
  skip_space :
      is_space c ≡ true
      → skip_whitespace (suc fuel) (scanner_at start (c ∷ w) p repl)
        ≡ skip_whitespace fuel (scanner_at start w (step c p) repl)
  unfolding skip_whitespace peek advance
  skip_space blank = rw blank refl

  skip_comment :
      (s : Scanner)
      → c ≢ 0
      → is_space c ≡ false
      → is_comment (c ∷ w) ≡ true
      → skip_line (suc (suc (length w))) (scanner_at start (c ∷ w) p repl) ≡ some s
      → skip_whitespace (suc fuel) (scanner_at start (c ∷ w) p repl) ≡ skip_whitespace fuel s
  unfolding skip_whitespace peek peek_next is_at_end
  skip_comment s real other slashes run =
      let live : (c == 0) ≡ false = ground (arith, real) in rw (other, live, slashes, run) refl

  skip_none :
      c ≢ 0
      → is_space c ≡ false
      → is_comment (c ∷ w) ≡ false
      → skip_whitespace (suc fuel) (scanner_at start (c ∷ w) p repl)
        ≡ some (scanner_at start (c ∷ w) p repl)
  unfolding skip_whitespace peek peek_next is_at_end
  skip_none real other plain =
      let live : (c == 0) ≡ false = ground (arith, real) in rw (other, live, plain) refl

-- A comment is not empty.
comment-long : (c : ℕ) (w : List ℕ) → is_comment (c ∷ w) ≡ true → 0 < line_length (c ∷ w)
unfolding line_length
comment-long c w slashes = ground (arith, slashes)

-- On a source without a zero byte, and with more rounds than characters, `skipWhitespace` ends;
-- white space and comments are skipped to the last, and nothing else.
pub skip_whitespace-Skips :
    (fuel : ℕ) (start current : List ℕ) (p : Position) (repl : Bool)
    → IsSource current
    → length current < fuel
    → (k : ℕ) × Skips current k
      × (k ≤ length current)
      × (skip_whitespace fuel (scanner_at start current p repl)
          ≡ some (moved k (scanner_at start current p repl)))
skip_whitespace-Skips zero start current p repl ok h = absurd (omega arith)
skip_whitespace-Skips (suc fuel) start [] p repl ok h =
    (0, stop [] refl refl, omega arith, skip_end fuel start p repl)
skip_whitespace-Skips (suc fuel) start (c ∷ w) p repl (c_ok, ok) h =
    elim (Bool-cases (is_space c)) [
      | inl blank ↦
          let (k, skips, le, run) =
            skip_whitespace-Skips fuel start w (step c p) repl ok (omega arith) in
          (
            suc k,
            space c w k blank skips,
            omega arith,
            skip_space fuel start c w p repl blank ∙ run ∙ ap some (moved_space k start c w p repl),
          )
      | inr other ↦ elim (Bool-cases (is_comment (c ∷ w))) [
        | inl slashes ↦
            let n = line_length (c ∷ w) in
            let fits = line-le (c ∷ w) in
            let shorter = length-drop n (c ∷ w) fits in
            let (k, skips, le, run) =
              skip_whitespace-Skips fuel start (drop n (c ∷ w)) (position_after (take n (c ∷ w)) p)
                repl (drop-IsSource n (c ∷ w) (c_ok, ok))
                (omega (arith, comment-long c w slashes, shorter)) in
            (
              n + k,
              comment (c ∷ w) k slashes skips,
              omega (arith, shorter),
              skip_comment fuel start c w p repl (moved n (scanner_at start (c ∷ w) p repl)) c_ok
                    other slashes (skip_line-moved _ start (c ∷ w) p repl (c_ok, ok) (omega arith))
                  ∙ subst (λ s. skip_whitespace fuel s ≡ some (moved k s))
                      (sym (moved_at n start (c ∷ w) p repl)) run
                  ∙ ap some (moved-moved n k (scanner_at start (c ∷ w) p repl)),
            )
        | inr plain ↦ (
          0,
          stop (c ∷ w) other plain,
          omega arith,
          skip_none fuel start c w p repl c_ok other plain
              ∙ ap some (sym (moved_zero (scanner_at start (c ∷ w) p repl))),
        )
      ]
    ]
