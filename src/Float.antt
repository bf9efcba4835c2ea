-- ===== src/Float.antt =====
-- The C++ `float`: the code only compares values of this type, so the model takes the type and its
-- two comparisons as a parameter, with what IEEE 754 says of them as a field.
use Prim.Native.Nat.{ℕ}
use mathlib.Core.Bool.{false≢true}
use lclva.Prelude.{◌≡◌, Bool, true, false, not, ltb, arith}

-- `ge a b` is `a >= b`, `lt a b` is `a < b` and `is_nan` is `std::isnan`. Both comparisons are false
-- at a NaN, so neither is the other's negation, but no pair of values satisfies both.
pub record Float : Type 1 where
  pub F : Type 0
  pub ge : F → F → Bool
  pub lt : F → F → Bool
  pub is_nan : F → Bool
  pub ge-lt : (a b : F) → ge a b ≡ true → lt a b ≡ false
  pub ge-nan : (a b : F) → is_nan a ≡ true → ge a b ≡ false

pub ge-lt_ℕ : (a b : ℕ) → not (ltb a b) ≡ true → ltb a b ≡ false
ge-lt_ℕ a b h = ground arith

-- Probabilities in hundredths: an instance of the parameter.
abbrev pub hundredths : Float
hundredths = record {
  F = ℕ;
  ge = λ a b. not (ltb a b);
  lt = ltb;
  is_nan = λ a. false;
  ge-lt = ge-lt_ℕ;
  ge-nan = λ a b h. absurd (false≢true h);
}
