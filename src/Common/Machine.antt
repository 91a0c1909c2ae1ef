-- ===== src/Common/Machine.antt =====
-- Go's `int32` and `int64`: the integers that they hold, and the wrap-around of their arithmetic.
use Prim.Native.Nat.{ℕ, ◌+◌, ◌-◌, ◌*◌, ◌%◌, ◌/◌, ◌≤◌, ◌<◌}
use mathlib.Core.Path.{◌≡◌}
use mathlib.Core.Logic.{inl, inr}
use native.Mathlib.Omega.{arith}
use general_pod_autoscaler.Common.Tests.{ltb, if◌then◌else◌, Bool-cases}
use general_pod_autoscaler.Common.Int.{
  ℤ, pos, negsuc, pos_part, neg_part, ◌+ℤ◌, +ℤ_parts, eq_of_parts,
}

-- The integers of an `int32`.
abbrev pub IsInt32 : ℤ → Type 0
IsInt32 z = (pos_part z < 2147483648) × (neg_part z ≤ 2147483648)

-- The integers of an `int64`.
abbrev pub IsInt64 : ℤ → Type 0
IsInt64 z = (pos_part z < 9223372036854775808) × (neg_part z ≤ 9223372036854775808)

-- A bit pattern read as a signed number.
abbrev pub signed32 : ℕ → ℤ
signed32 u = if ltb u 2147483648 then pos u else negsuc (4294967295 - u)

-- The value that an `int32` holds after an operation whose exact result is `z`.
unfoldable pub wrap32 : ℤ → ℤ
wrap32 (pos n) = signed32 (n % 4294967296)
wrap32 (negsuc n) = signed32 (4294967295 - n % 4294967296)

abbrev pub signed64 : ℕ → ℤ
signed64 u = if ltb u 9223372036854775808 then pos u else negsuc (18446744073709551615 - u)

unfoldable pub wrap64 : ℤ → ℤ
wrap64 (pos n) = signed64 (n % 18446744073709551616)
wrap64 (negsuc n) = signed64 (18446744073709551615 - n % 18446744073709551616)

pub wrap32_self : (z : ℤ) → IsInt32 z → wrap32 z ≡ z
unfolding wrap32
wrap32_self z h = ground arith

pub wrap32-IsInt32 : (z : ℤ) → IsInt32 (wrap32 z)
unfolding wrap32
wrap32-IsInt32 z = ground arith

-- The value differs from the exact result by whole multiples of the modulus.
abbrev pub SameBits : ℤ → ℤ → Type 0
SameBits a b =
    (k : ℕ) × (l : ℕ) × (pos_part a + neg_part b + k * 4294967296
      ≡ neg_part a + pos_part b + l * 4294967296)

pub wrap32-SameBits : (z : ℤ) → SameBits (wrap32 z) z
unfolding wrap32
wrap32-SameBits (pos n) = elim (Bool-cases (ltb (n % 4294967296) 2147483648)) [
  | inl low ↦ rw low (n / 4294967296, 0, omega arith)
  | inr high ↦ rw high (n / 4294967296 + 1, 0, omega arith)
]
wrap32-SameBits (negsuc n) = elim (Bool-cases (ltb (4294967295 - n % 4294967296) 2147483648)) [
  | inl low ↦ rw low (0, n / 4294967296 + 1, omega arith)
  | inr high ↦ rw high (0, n / 4294967296, omega arith)
]

int32_unique : (a b : ℤ) → IsInt32 a → IsInt32 b → SameBits a b → a ≡ b
int32_unique a b ha hb (k, l, e) = omega (arith, eq_of_parts)

-- A later wrap-around absorbs an earlier one.
pub wrap32-wrap32_add : (a b : ℤ) → wrap32 (wrap32 a +ℤ b) ≡ wrap32 (a +ℤ b)
wrap32-wrap32_add a b =
    let (k, l, e) = wrap32-SameBits a in
    let (k', l', e') = wrap32-SameBits (wrap32 a +ℤ b) in
    let (k'', l'', e'') = wrap32-SameBits (a +ℤ b) in
    int32_unique _ _ (wrap32-IsInt32 _) (wrap32-IsInt32 _)
      (k + k' + l'', l + l' + k'', omega (arith, +ℤ_parts))
