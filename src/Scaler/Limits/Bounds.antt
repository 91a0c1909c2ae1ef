-- ===== src/Scaler/Limits/Bounds.antt =====
-- What the limits guarantee.
use general_pod_autoscaler.Common.{◌≡◌, ◌*◌, arith}
use general_pod_autoscaler.Common.Int.{ℤ, pos, pos_part, ◌*ℤ◌, ◌≤ℤ◌, max_ℤ}
use general_pod_autoscaler.Common.Float.{Float64, IsIeee}
use general_pod_autoscaler.Scaler.Limits.{
  calculate_scale_up_limit, convert_desired_replicas_with_rules,
}

two-*ℤ_parts : (a : ℤ) → pos 0 ≤ℤ a → pos 2 *ℤ a ≡ pos (2 * pos_part a)
unfolding ◌*ℤ◌
two-*ℤ_parts a h = ground arith

module _ (f : Float64) (ieee : IsIeee f) where
  -- The limit computed in floating point is the larger of twice the current count and four,
  -- exactly, for every count from 0 up to half of the largest int32.
  pub calculate_scale_up_limit_exact :
      (current : ℤ)
      → pos 0 ≤ℤ current
      → current ≤ℤ pos 1073741823
      → calculate_scale_up_limit f current ≡ max_ℤ (pos (2 * pos_part current)) (pos 4)
  unfolding calculate_scale_up_limit
  calculate_scale_up_limit_exact current nonneg small =
      let e = two-*ℤ_parts current nonneg in
      rw
        (
          ieee.mul_exact (pos 2) current (omega arith) (ground arith) (rw e (ground arith)),
          e,
          calculate_scale_up_limit,
        )
        (rw (ieee.max_exact (pos (2 * pos_part current)) (pos 4) (ground arith) (omega arith))
          (ieee.to_int32_exact _ (ground arith)))

  -- For an autoscaler whose minimum is from 0 to its maximum, and a target whose current count is
  -- at least the minimum and at most 1073741823 (half of the largest int32, up to which twice the
  -- count is exact and fits): the new count lies between the minimum and the maximum; it is at
  -- most twice the current count or four, whichever is more; and it is the desired count whenever
  -- that meets these bounds.
  pub convert_desired_replicas_bounds :
      (current desired lowest highest : ℤ)
      → pos 0 ≤ℤ lowest
      → lowest ≤ℤ highest
      → lowest ≤ℤ current
      → current ≤ℤ pos 1073741823
      → let r = (convert_desired_replicas_with_rules f current desired lowest highest).0 in
        let limit = max_ℤ (pos (2 * pos_part current)) (pos 4) in
        (lowest ≤ℤ r)
        × (r ≤ℤ highest)
        × (r ≤ℤ limit)
        × (lowest ≤ℤ desired → desired ≤ℤ highest → desired ≤ℤ limit → r ≡ desired)
  unfolding convert_desired_replicas_with_rules
  convert_desired_replicas_bounds current desired lowest highest nonneg ordered above small =
      rw (calculate_scale_up_limit_exact current (omega arith) small)
        (ground arith, ground arith, ground arith, λ a b c. ground arith)
