-- ===== src/Tokens/Search.antt =====
-- `regexec` for one type of token: the longest prefix of the source in the type's language.
use my_clox.Prelude.{
  ℕ, suc, ◌-◌, ◌≤◌, ◌≡◌, refl, ltb, ◌==◌, if◌then◌else◌, arith, List, [], ◌∷◌, Option, none, some,
  ◌∙◌, ap, sym, subst, inl, inr, Bool-cases, Option-cases, length, take, Elem, some_inj,
}
use my_clox.Tokens.{TokenType, Regex, regex_of, lengths, longest, regexec, from_start, match_at}
use my_clox.Tokens.Language.{Matches, lengths-Matches, take-lengths}

pub longest-none : (ks : List ℕ) → longest ks ≡ none → (k : ℕ) → Elem k ks → ⊥
unfolding longest
longest-none [] e k here = here
longest-none (j ∷ ks) e k here = elim (Option-cases (longest ks)) [
  | inl none_left ↦ ground (arith, none_left, e)
  | inr (m, found) ↦ ground (arith, found, e)
]

pub longest-some :
    (ks : List ℕ) (n : ℕ) → longest ks ≡ some n → Elem n ks × ((k : ℕ) → Elem k ks → k ≤ n)
unfolding longest
longest-some [] n e = absurd (ground (arith, e))
longest-some (k ∷ ks) n e = elim (Option-cases (longest ks)) [
  | inl none_left ↦
      let same : k ≡ n = some_inj (ground (arith, none_left, e)) in
      (
        inl (sym same),
        λ j here. elim here [
          | inl j_is ↦ omega (arith, same, j_is)
          | inr later ↦ absurd (longest-none ks none_left j later)
        ],
      )
  | inr (m, found) ↦
      let (in_ks, most) = longest-some ks m found in
      elim (Bool-cases (ltb k m)) [
        | inl less ↦
            let same : m ≡ n = some_inj (ground (arith, found, e, less)) in
            (
              inr (subst (λ z. Elem z ks) same in_ks),
              λ j here. elim here [
                | inl j_is ↦ ground (arith, same, less, j_is)
                | inr later ↦ omega (arith, same, most j later)
              ],
            )
        | inr at_least ↦
            let same : k ≡ n = some_inj (ground (arith, found, e, at_least)) in
            (
              inl (sym same),
              λ j here. elim here [
                | inl j_is ↦ omega (arith, same, j_is)
                | inr later ↦ ground (arith, same, most j later, at_least)
              ],
            )
      ]
]

-- What `regexec` finds at the head of the source, in terms of the expression's language.
pub record Finds (r : Regex) (source : List ℕ) (o : Option ℕ) : Type 0 where
  pub found :
      (n : ℕ)
      → o ≡ some n
      → Matches r (take n source)
        × (n ≤ length source)
        × ((k : ℕ) → k ≤ length source → Matches r (take k source) → k ≤ n)
  pub missed : o ≡ none → (k : ℕ) → k ≤ length source → Matches r (take k source) → ⊥

-- A search that must start at 0 is a match of a prefix.
from_start-regexec :
    (r : Regex) (source : List ℕ) → from_start (regexec r source) ≡ longest (lengths r source)
unfolding from_start regexec
from_start-regexec r [] = elim (Option-cases (longest (lengths r []))) [
  | inl nowhere ↦ rw (regexec, nowhere) refl
  | inr (n, found) ↦ rw (regexec, found) (ap some (omega arith))
]
from_start-regexec r (c ∷ source) = elim (Option-cases (longest (lengths r (c ∷ source)))) [
  | inr (n, found) ↦ rw (regexec, found) (ap some (omega arith))
  | inl not_here ↦
      rw (regexec, not_here)
        (elim (Option-cases (regexec r source)) [
          | inl nowhere ↦ rw (from_start, nowhere) refl
          | inr ((so, eo), found) ↦ rw (from_start, found) (elsewhere so eo)
        ])
]
  where
    elsewhere : (so eo : ℕ) → (if suc so == 0 then some (suc eo - suc so) else none) ≡ none
    elsewhere so eo = ground arith

pub match_at-longest :
    (type : TokenType) (r : Regex) (source : List ℕ)
    → regex_of type ≡ some r
    → match_at type source ≡ longest (lengths r source)
unfolding match_at
match_at-longest type r source e = rw (match_at, e) (from_start-regexec r source)

-- A token's expression is matched at the longest prefix that is in its language, and not matched
-- where no prefix is.
pub match_at-Finds :
    (type : TokenType) (r : Regex) (source : List ℕ)
    → regex_of type ≡ some r
    → Finds r source (match_at type source)
match_at-Finds type r source e =
    let found_by = match_at-longest type r source e in
    record {
      found = λ n o.
          let (here, most) = longest-some (lengths r source) n (sym found_by ∙ o) in
          let (m, fits) = lengths-Matches r source n here in
          (m, fits, λ k le k_matches. most k (take-lengths r source k le k_matches));
      missed = λ o k le m.
          longest-none (lengths r source) (sym found_by ∙ o) k (take-lengths r source k le m);
    }
