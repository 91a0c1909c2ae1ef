-- ===== src/Scaler/Limits.antt =====
-- The limits of an autoscaler without a behaviour: `convertDesiredReplicasWithRules` and what it
-- calls (pkg/scaler/general.go).
pub mod Bounds
pub mod Reach
use general_pod_autoscaler.Common.{String, if◌then◌else◌}
use general_pod_autoscaler.Common.Int.{ℤ, pos, leb_ℤ, ltb_ℤ}
use general_pod_autoscaler.Common.Float.{Float64}

unfoldable pub max : ℤ → ℤ → ℤ
max a b = if leb_ℤ b a then a else b

unfoldable pub min : ℤ → ℤ → ℤ
min a b = if leb_ℤ a b then a else b

module _ (f : Float64) where
  abbrev pub scale_up_limit_factor : f.F
  scale_up_limit_factor = f.of_int (pos 2)

  abbrev pub scale_up_limit_minimum : f.F
  scale_up_limit_minimum = f.of_int (pos 4)

  pub calculate_scale_up_limit : ℤ → ℤ
  calculate_scale_up_limit current_replicas =
      f.to_int32
        (f.max (f.mul scale_up_limit_factor (f.of_int current_replicas)) scale_up_limit_minimum)

  -- The allowed maximum, with the condition and the reason to report when it limits.
  pub maximum_allowed : ℤ → ℤ → ℤ × String × String
  maximum_allowed scale_up_limit gpa_max_replicas =
      if ltb_ℤ scale_up_limit gpa_max_replicas
      then (
        scale_up_limit, "ScaleUpLimit",
        "the desired replica count is increasing faster than the maximum scale rate",
      )
      else (
        gpa_max_replicas, "TooManyReplicas",
        "the desired replica count is more than the maximum replica count",
      )

  pub convert_desired_replicas_with_rules : ℤ → ℤ → ℤ → ℤ → ℤ × String × String
  unfolding maximum_allowed
  convert_desired_replicas_with_rules current_replicas desired_replicas gpa_min_replicas
        gpa_max_replicas =
      let allowed = maximum_allowed (calculate_scale_up_limit current_replicas) gpa_max_replicas in
      if ltb_ℤ desired_replicas gpa_min_replicas
      then (
        gpa_min_replicas, "TooFewReplicas",
        "the desired replica count is less than the minimum replica count",
      )
      else if ltb_ℤ allowed.0 desired_replicas
      then allowed
      else (
        desired_replicas, "DesiredWithinRange", "the desired count is within the acceptable range",
      )
