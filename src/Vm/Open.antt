-- ===== src/Vm/Open.antt =====
-- The open upvalues are in the order of their slots, from the top of the stack down, one for a slot:
-- closures that capture the same variable share it, and closing takes exactly the slots above.
use my_clox.Prelude.{
  ℕ, ◌≤◌, ◌<◌, ◌≡◌, refl, true, false, ltb, leb, ◌==◌, arith, List, [], ◌∷◌, ap, sym, inl, inr, ◌⊎◌,
  Bool-cases, Elem,
}
use my_clox.Value.{Value, Ptr}
use my_clox.Vm.{OpenUpvalue, ClosedUpvalue, capture_upvalue, close_upvalues}

-- Every slot of the list is below `bound`, and they go down.
abbrev pub IsBelow : ℕ → List OpenUpvalue → Type 0
IsBelow bound [] = Unit {0}
IsBelow bound (upvalue ∷ next) = (upvalue.slot < bound) × IsBelow upvalue.slot next

abbrev pub open_at : Ptr → ℕ → OpenUpvalue
open_at object slot = record { object = object; slot = slot }

IsBelow-le : (m n : ℕ) (us : List OpenUpvalue) → m ≤ n → IsBelow m us → IsBelow n us
IsBelow-le m n [] le b = tt
IsBelow-le m n (u ∷ us) le (lt, b) = (omega arith, b)

below-slot :
    (bound : ℕ) (us : List OpenUpvalue) (u : OpenUpvalue)
    → IsBelow bound us
    → Elem u us
    → u.slot < bound
below-slot bound [] u b e = elim e [ ]
below-slot bound (v ∷ us) u (lt, b) (inl same) =
    omega (arith, ap (λ (z : OpenUpvalue). z.slot) same)
below-slot bound (v ∷ us) u (lt, b) (inr later) = omega (arith, below-slot v.slot us u b later)

pub record Captures (us : List OpenUpvalue) (bound : ℕ) (fresh : Ptr) (local : ℕ)
    (r : Ptr × List OpenUpvalue) : Type 0 where
  pub sorted : IsBelow bound r.1
  pub captured : Elem (open_at r.0 local) r.1
  pub kept : (u : OpenUpvalue) → Elem u us → Elem u r.1
  pub only_new : (u : OpenUpvalue) → Elem u r.1 → Elem u us ⊎ (u ≡ open_at fresh local)
  pub shared : (object : Ptr) → Elem (open_at object local) us → r ≡ (object, us)

ltb_lt : (m n : ℕ) → ltb m n ≡ true → m < n
ltb_lt m n h = ground (arith, h)

eq_of : (m n : ℕ) → (m == n) ≡ true → m ≡ n
eq_of m n h = ground (arith, h)

lt_of : (m n : ℕ) → ltb m n ≡ false → (n == m) ≡ false → n < m
lt_of m n h h' = ground (arith, h, h')

slot_of : {u v : OpenUpvalue} → u ≡ v → u.slot ≡ v.slot
slot_of e = ap (λ (z : OpenUpvalue). z.slot) e

module _ (v : OpenUpvalue) (us : List OpenUpvalue) (bound : ℕ) (fresh : Ptr) (local : ℕ) where
  past :
      {r : Ptr × List OpenUpvalue}
      → v.slot < bound
      → ltb local v.slot ≡ true
      → Captures us v.slot fresh local r
      → Captures (v ∷ us) bound fresh local (r.0, v ∷ r.1)
  past {r} v_lt under c = record {
    sorted = (v_lt, c.sorted);
    captured = inr c.captured;
    kept = λ u e. elim e [ inl same ↦ inl same | inr later ↦ inr (c.kept u later) ];
    only_new = λ u e. elim e [
      | inl same ↦ inl (inl same)
      | inr later ↦ elim (c.only_new u later) [ inl old ↦ inl (inr old) | inr new ↦ inr new ]
    ];
    shared = λ object e. elim e [
      | inl same ↦ absurd (not_here (slot_of same))
      | inr later ↦ λ i. ((c.shared object later i).0, v ∷ (c.shared object later i).1)
    ];
  }
    where
      not_here : local ≡ v.slot → ⊥
      not_here e = omega (arith, ltb_lt local v.slot under, e)

  at_slot :
      v.slot < bound
      → IsBelow v.slot us
      → v.slot ≡ local
      → Captures (v ∷ us) bound fresh local (v.object, v ∷ us)
  at_slot v_lt b same = record {
    sorted = (v_lt, b);
    captured = inl (λ i. open_at v.object (sym same i));
    kept = λ u e. e;
    only_new = λ u e. inl e;
    shared = λ object e. elim e [
      | inl here ↦ λ i. ((sym here i).object, v ∷ us)
      | inr later ↦ absurd (not_later object later)
    ];
  }
    where
      not_later : (object : Ptr) → Elem (open_at object local) us → ⊥
      not_later object e = omega (arith, same, below-slot v.slot us (open_at object local) b e)

  before :
      local < bound
      → IsBelow v.slot us
      → v.slot < local
      → Captures (v ∷ us) bound fresh local (fresh, open_at fresh local ∷ v ∷ us)
  before lt b less = record {
    sorted = (lt, (less, b));
    captured = inl refl;
    kept = λ u e. inr e;
    only_new = λ u e. elim e [ inl same ↦ inr same | inr later ↦ inl later ];
    shared = λ object e. absurd (not_there object e);
  }
    where
      not_there : (object : Ptr) → Elem (open_at object local) (v ∷ us) → ⊥
      not_there object e =
          omega (arith, below-slot local (v ∷ us) (open_at object local) (less, b) e)

-- Where the slots of the open upvalues go down from below a bound, capturing a slot below it
-- keeps that order and the open upvalues, and adds at most the new object. A slot that has an
-- open upvalue gets that one, and the list is as it was.
pub capture_upvalue-Captures :
    (us : List OpenUpvalue) (bound : ℕ) (fresh : Ptr) (local : ℕ)
    → local < bound
    → IsBelow bound us
    → Captures us bound fresh local (capture_upvalue us fresh local)
unfolding capture_upvalue
capture_upvalue-Captures [] bound fresh local lt b = record {
  sorted = (lt, tt);
  captured = inl refl;
  kept = λ u e. elim e [ ];
  only_new = λ u e. elim e [ inl same ↦ inr same | inr gone ↦ elim gone [ ] ];
  shared = λ object e. elim e [ ];
}
capture_upvalue-Captures (v ∷ us) bound fresh local lt (v_lt, b) =
    elim (Bool-cases (ltb local v.slot)) [
      | inl under ↦ rw under (
          past v us bound fresh local v_lt under
            (capture_upvalue-Captures us v.slot fresh local (ltb_lt local v.slot under) b))
      | inr not_under ↦ elim (Bool-cases (v.slot == local)) [
        | inl same ↦
            rw (not_under, same) (at_slot v us bound fresh local v_lt b (eq_of v.slot local same))
        | inr other ↦
            rw (not_under, other)
              (before v us bound fresh local lt b (lt_of local v.slot not_under other))
      ]
    ]

pub record Closes (stack : ℕ → Value) (us : List OpenUpvalue) (last : ℕ)
    (r : List ClosedUpvalue × List OpenUpvalue) : Type 0 where
  pub sorted : IsBelow last r.1
  pub stays : (u : OpenUpvalue) → Elem u us → u.slot < last → Elem u r.1
  pub from_open : (u : OpenUpvalue) → Elem u r.1 → Elem u us
  pub closes :
      (u : OpenUpvalue)
      → Elem u us
      → last ≤ u.slot
      → Elem (record { object = u.object; closed = stack u.slot }) r.0
  pub from_closed :
      (c : ClosedUpvalue)
      → Elem c r.0
      → (u : OpenUpvalue) × Elem u us
        × (last ≤ u.slot)
        × (c ≡ record { object = u.object; closed = stack u.slot })

module _ (stack : ℕ → Value) (v : OpenUpvalue) (us : List OpenUpvalue) (last : ℕ) where
  closing :
      {r : List ClosedUpvalue × List OpenUpvalue}
      → leb last v.slot ≡ true
      → Closes stack us last r
      → Closes stack (v ∷ us) last (record { object = v.object; closed = stack v.slot } ∷ r.0, r.1)
  closing {r} above c = record {
    sorted = c.sorted;
    stays = λ u e lt. elim e [
      | inl same ↦ absurd (not_here (slot_of same) lt)
      | inr later ↦ c.stays u later lt
    ];
    from_open = λ u e. inr (c.from_open u e);
    closes = λ u e le. elim e [
      | inl same ↦ inl (λ i. record { object = (same i).object; closed = stack (same i).slot })
      | inr later ↦ inr (c.closes u later le)
    ];
    from_closed = λ d e. elim e [
      | inl same ↦ (v, inl refl, le_of, same)
      | inr later ↦ let (u, in_us, le, is_u) = c.from_closed d later in (u, inr in_us, le, is_u)
    ];
  }
    where
      le_of : last ≤ v.slot
      le_of = ground (arith, above)

      not_here : {n : ℕ} → n ≡ v.slot → n < last → ⊥
      not_here e lt = ground (arith, above, e, lt)

  staying : leb last v.slot ≡ false → IsBelow v.slot us → Closes stack (v ∷ us) last ([], v ∷ us)
  staying below b = record {
    sorted = (less, b);
    stays = λ u e lt. e;
    from_open = λ u e. e;
    closes = λ u e le. absurd (not_above u e le);
    from_closed = λ c e. elim e [ ];
  }
    where
      less : v.slot < last
      less = ground (arith, below)

      not_above : (u : OpenUpvalue) → Elem u (v ∷ us) → last ≤ u.slot → ⊥
      not_above u e le = omega (arith, below-slot last (v ∷ us) u (less, b) e)

-- Where the slots of the open upvalues go down, closing from a slot on closes exactly the
-- upvalues of that slot and of those above it, each with the value of its slot, and leaves
-- exactly the others open, in their order.
pub close_upvalues-Closes :
    (stack : ℕ → Value) (us : List OpenUpvalue) (bound last : ℕ)
    → IsBelow bound us
    → Closes stack us last (close_upvalues stack us last)
unfolding close_upvalues
close_upvalues-Closes stack [] bound last b = record {
  sorted = tt;
  stays = λ u e. elim e [ ];
  from_open = λ u e. e;
  closes = λ u e. elim e [ ];
  from_closed = λ c e. elim e [ ];
}
close_upvalues-Closes stack (v ∷ us) bound last (v_lt, b) = elim (Bool-cases (leb last v.slot)) [
  | inl above ↦
      rw above (closing stack v us last above (close_upvalues-Closes stack us v.slot last b))
  | inr below ↦ rw below (staying stack v us last below b)
]
