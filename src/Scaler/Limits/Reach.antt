-- ===== src/Scaler/Limits/Reach.antt =====
-- The limits let the count come closer to what is desired.
use general_pod_autoscaler.Common.{◌≡◌, ◌⊎◌, inl, inr, ◌*◌, arith, Bool-cases}
use general_pod_autoscaler.Common.Int.{ℤ, pos, pos_part, ◌≤ℤ◌, ◌<ℤ◌, max_ℤ, leb_ℤ}
use general_pod_autoscaler.Common.Float.{Float64, IsIeee}
use general_pod_autoscaler.Scaler.Limits.Bounds.{calculate_scale_up_limit_exact}
use general_pod_autoscaler.Scaler.Limits.{convert_desired_replicas_with_rules}

module _ (f : Float64) (ieee : IsIeee f) (desired lowest highest : ℤ) where
  -- The new count is the desired one, or closer to it from below.
  pub closer :
      (current : ℤ)
      → pos 0 ≤ℤ lowest
      → lowest ≤ℤ desired
      → desired ≤ℤ highest
      → lowest ≤ℤ current
      → current ≤ℤ pos 1073741823
      → let r = (convert_desired_replicas_with_rules f current desired lowest highest).0 in
        (r ≡ desired) ⊎ ((current <ℤ r) × (r <ℤ desired))
  unfolding convert_desired_replicas_with_rules
  closer current nonneg lo hi above small =
      rw (calculate_scale_up_limit_exact f ieee current (omega arith) small)
        (elim (Bool-cases (leb_ℤ desired (max_ℤ (pos (2 * pos_part current)) (pos 4)))) [
          | inl reached ↦ inl (ground arith)
          | inr limited ↦ inr (ground arith, ground arith)
        ])
