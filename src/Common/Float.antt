-- ===== src/Common/Float.antt =====
-- The double-precision numbers of Go, as an interface: the operations that the code uses, and the
-- facts of IEEE 754 arithmetic that the proofs rely on.
use Prim.Native.Nat.{ℕ, suc, ◌+◌, ◌-◌, ◌*◌, ◌/◌, ◌≤◌}
use mathlib.Core.Path.{◌≡◌, refl}
use mathlib.Core.Bool.{Bool}
use native.Mathlib.Omega.{arith}
use general_pod_autoscaler.Common.Tests.{if◌then◌else◌}
use general_pod_autoscaler.Common.Int.{
  ℤ, pos, negsuc, pos_part, neg_part, ◌+ℤ◌, ◌*ℤ◌, sub_ℕ, ltb_ℤ, leb_ℤ, max_ℤ, ◌/ℤ◌, ◌-ℤ◌,
}
use general_pod_autoscaler.Common.Machine.{IsInt32, wrap32, wrap64, wrap32_self}

pub record Float64 : Type 1 where
  pub F : Type 0
  pub of_int : ℤ → F  -- float64(n), and a constant that is a whole number
  pub add : F → F → F
  pub sub : F → F → F
  pub mul : F → F → F
  pub div : F → F → F
  pub lt : F → F → Bool  -- `<`, which is false on a NaN
  pub le : F → F → Bool
  pub abs : F → F  -- math.Abs
  pub ceil : F → F  -- math.Ceil
  pub max : F → F → F  -- math.Max
  pub to_int32 : F → ℤ  -- int32(x), truncated towards zero
  pub to_int64 : F → ℤ

-- A double holds every integer up to 2^53 exactly.
abbrev pub IsExact : ℤ → Type 0
IsExact z = (pos_part z ≤ 9007199254740992) × (neg_part z ≤ 9007199254740992)

-- Arithmetic on whole numbers is exact as long as the result is.
pub record IsIeee (f : Float64) : Type 0 where
  pub mul_exact :
      (a b : ℤ)
      → IsExact a
      → IsExact b
      → IsExact (a *ℤ b)
      → f.mul (f.of_int a) (f.of_int b) ≡ f.of_int (a *ℤ b)
  pub max_exact :
      (a b : ℤ) → IsExact a → IsExact b → f.max (f.of_int a) (f.of_int b) ≡ f.of_int (max_ℤ a b)
  pub to_int32_exact : (a : ℤ) → IsInt32 a → f.to_int32 (f.of_int a) ≡ a

-- Exact fractions, a numerator over a denominator: an instance of the interface that runs.
abbrev Fraction : Type 0
Fraction = ℤ × ℕ

abbrev frac_max : Fraction → Fraction → Fraction
frac_max (a, m) (b, n) = if leb_ℤ (b *ℤ pos m) (a *ℤ pos n) then (a, m) else (b, n)

-- `a / b` for a divisor below zero turns both signs.
abbrev frac_div : Fraction → Fraction → Fraction
frac_div (a, m) (pos b, n) = (a *ℤ pos n, m * b)
frac_div (a, m) (negsuc b, n) = (pos 0 -ℤ a *ℤ pos n, m * suc b)

abbrev frac_ceil : Fraction → Fraction
frac_ceil (pos a, m) = (pos ((a + m - 1) / m), 1)
frac_ceil (negsuc a, m) = (sub_ℕ 0 (suc a / m), 1)

unfoldable pub fractions : Float64
unfolding ◌+ℤ◌ ◌-ℤ◌ ◌*ℤ◌ ◌/ℤ◌ wrap32 wrap64
fractions = record {
  F = Fraction;
  of_int = λ a. (a, 1);
  add = λ (x : Fraction) (y : Fraction). (x.0 *ℤ pos y.1 +ℤ y.0 *ℤ pos x.1, x.1 * y.1);
  sub = λ (x : Fraction) (y : Fraction). (x.0 *ℤ pos y.1 -ℤ y.0 *ℤ pos x.1, x.1 * y.1);
  mul = λ (x : Fraction) (y : Fraction). (x.0 *ℤ y.0, x.1 * y.1);
  div = frac_div;
  lt = λ (x : Fraction) (y : Fraction). ltb_ℤ (x.0 *ℤ pos y.1) (y.0 *ℤ pos x.1);
  le = λ (x : Fraction) (y : Fraction). leb_ℤ (x.0 *ℤ pos y.1) (y.0 *ℤ pos x.1);
  abs = λ (x : Fraction). (pos (pos_part x.0 + neg_part x.0), x.1);
  ceil = frac_ceil;
  max = frac_max;
  to_int32 = λ (x : Fraction). wrap32 (x.0 /ℤ pos x.1);
  to_int64 = λ (x : Fraction). wrap64 (x.0 /ℤ pos x.1);
}

*ℤ_one : (a : ℤ) → a *ℤ pos 1 ≡ a
unfolding ◌*ℤ◌
*ℤ_one a = ground arith

/ℤ_one : (a : ℤ) → a /ℤ pos 1 ≡ a
unfolding ◌/ℤ◌
/ℤ_one (pos a) = ground arith
/ℤ_one (negsuc a) = ground arith

frac_max_lem : (a b : ℤ) → frac_max (a, 1) (b, 1) ≡ (max_ℤ a b, 1)
frac_max_lem a b = rw (*ℤ_one a, *ℤ_one b) (ground arith)

pub fractions-IsIeee : IsIeee fractions
unfolding fractions
fractions-IsIeee = record {
  mul_exact = λ a b _ _ _. refl;
  max_exact = λ a b _ _. frac_max_lem a b;
  to_int32_exact = λ a h. rw (/ℤ_one a) (wrap32_self a h);
}
