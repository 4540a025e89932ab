-- ===== src/Rollout/Floats.antt =====
-- Go's `float64` as far as the rollout code uses it: comparisons and three constants. The operations
-- are a parameter. The laws are those of IEEE 754 on numbers that are not NaN; a comparison with NaN
-- is false, but for `!=`.
use deploy_sentry.Base.{nat_eq, string_eq, ◌≡◌, Bool, true, false}
use deploy_sentry.Base.Int.{ℤ}

pub record Floats : Type 1 where
  pub F : Type 0
  pub lt : F → F → Bool
  pub le : F → F → Bool
  pub eq : F → F → Bool
  pub minus_one : F
  pub zero_f : F
  pub one_f : F
  pub hundred : F
  pub of_int : ℤ → F

-- `x == x` fails exactly for NaN.
abbrev pub IsNumber : (fl : Floats) → fl.F → Type 0
IsNumber fl x = fl.eq x x ≡ true

pub record IsIeee (fl : Floats) : Type 0 where
  -- On numbers, `!(a < b)` is `b <= a`, and `<=` is transitive; `<` and `<=` hold of numbers only.
  pub not_lt : (a b : fl.F) → IsNumber fl a → IsNumber fl b → fl.lt a b ≡ false → fl.le b a ≡ true
  pub lt_not_le : (a b : fl.F) → fl.lt a b ≡ true → fl.le b a ≡ false
  pub lt_nan : (a b : fl.F) → fl.eq a a ≡ false → (fl.lt a b ≡ false) × (fl.lt b a ≡ false)
  pub le_trans : (a b c : fl.F) → fl.le a b ≡ true → fl.le b c ≡ true → fl.le a c ≡ true
  pub eq_number : (a b : fl.F) → fl.eq a b ≡ true → IsNumber fl a × IsNumber fl b
  pub hundred_number : IsNumber fl fl.hundred
  pub zero_number : IsNumber fl fl.zero_f
