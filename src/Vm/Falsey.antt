-- ===== src/Vm/Falsey.antt =====
-- `isFalsey`: the values that a condition takes as false.
use my_clox.Prelude.{◌≡◌, ◌⊎◌, true, false, arith}
use my_clox.Value.{Value, nil_val, false_val, is_nil, is_bool, as_bool}
use my_clox.Value.Words.{bit_or-one}
use my_clox.Vm.{is_falsey}

-- Exactly `nil` and `false` are false conditions; every other word, numbers and objects included,
-- is a true one.
pub is_falsey-nil_or_false :
    (v : Value)
    → ((is_falsey v ≡ true) × ((v ≡ nil_val) ⊎ (v ≡ false_val)))
      ⊎ ((is_falsey v ≡ false) × ((v ≡ nil_val → ⊥) × (v ≡ false_val → ⊥)))
unfolding is_falsey is_nil is_bool as_bool
is_falsey-nil_or_false v = ground (arith, bit_or-one v)
