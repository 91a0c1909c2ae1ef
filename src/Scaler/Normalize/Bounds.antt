-- ===== src/Scaler/Normalize/Bounds.antt =====
-- The count that is applied lies within the bounds of the autoscaler.
use general_pod_autoscaler.Common.{
  ℕ, ◌+◌, ◌*◌, ◌≡◌, refl, String, arith, some, if◌then◌else◌, is_nil, Option-cases, inl, inr, ◌∙◌,
}
use general_pod_autoscaler.Common.Int.{ℤ, pos, pos_part, ◌≤ℤ◌, max_ℤ}
use general_pod_autoscaler.Common.Float.{IsIeee}
use general_pod_autoscaler.Common.Runtime.{Runtime}
use general_pod_autoscaler.Api.Extern.{K8s, Time}
use general_pod_autoscaler.Api.Behavior.{GpaScalingRules, GeneralPodAutoscalerBehavior}
use general_pod_autoscaler.Api.Autoscaler.{GeneralPodAutoscaler}
use general_pod_autoscaler.Scaler.State.{GeneralController}
use general_pod_autoscaler.Scaler.Limits.Bounds.{convert_desired_replicas_bounds}
use general_pod_autoscaler.Scaler.Policies.{NormalizationArg}
use general_pod_autoscaler.Scaler.Policies.Rate.{HasPolicies, convert_with_behavior_rate-IsBetween}
use general_pod_autoscaler.Scaler.Recommendations.{stabilize_recommendation}
use general_pod_autoscaler.Scaler.Recommendations.Stable.{stabilize_total}
use general_pod_autoscaler.Scaler.Normalize.{
  normalize_desired_replicas, normalize_desired_replicas_with_behaviors,
}

-- Without a behaviour, for an autoscaler whose minimum is from 0 to its maximum and a target whose
-- current count is at least the minimum and at most 1073741823 (half of the largest int32, up to
-- which twice the count is exact and fits): whatever the metrics ask for and whatever was
-- recommended before, the count that is applied is between the minimum and the maximum, and at most
-- twice the current count or four, whichever is more.
pub normalize_desired_replicas_bounds :
    {k : K8s} (rt : Runtime) (clock : ℕ → Time) (gpa : GeneralPodAutoscaler k)
    (a : GeneralController) (key : String) (current desired lowest : ℤ)
    → IsIeee rt.float
    → pos 0 ≤ℤ lowest
    → lowest ≤ℤ gpa.spec.max_replicas
    → lowest ≤ℤ current
    → current ≤ℤ pos 1073741823
    → let r = (normalize_desired_replicas rt clock gpa a key current desired lowest).0 in
      (lowest ≤ℤ r)
      × (r ≤ℤ gpa.spec.max_replicas)
      × (r ≤ℤ max_ℤ (pos (2 * pos_part current)) (pos 4))
unfolding normalize_desired_replicas
normalize_desired_replicas_bounds rt clock gpa a key current desired lowest ieee nonneg ordered
      above small =
    let stabilized = (stabilize_recommendation (clock 0) (clock 1) key desired a).0 in
    let (lo, hi, limit, _) =
      convert_desired_replicas_bounds rt.float ieee current stabilized lowest gpa.spec.max_replicas
        nonneg ordered above small in
    (lo, hi, limit)

-- What a behaviour must hold for the controller not to dereference a nil pointer: rules in both
-- directions, each with a selection, and a window in the direction up (that of the direction down
-- is filled in).
pub record IsComplete (behavior : GeneralPodAutoscalerBehavior) : Type 0 where
  pub up : GpaScalingRules
  pub up_select : String
  pub up_window : ℤ
  pub down : GpaScalingRules
  pub down_select : String
  pub up_is : behavior.scale_up ≡ some up
  pub up_selects : up.select_policy ≡ some up_select
  pub up_waits : up.stabilization_window_seconds ≡ some up_window
  pub down_is : behavior.scale_down ≡ some down
  pub down_selects : down.select_policy ≡ some down_select

-- The rules for scaling down, once their window is filled in.
abbrev filled : Runtime → GeneralController → GpaScalingRules → GpaScalingRules
filled rt a rules =
    if is_nil rules.stabilization_window_seconds
    then record rules {
      stabilization_window_seconds =
          some (rt.float.to_int32 (rt.duration_seconds a.downscale_stabilisation_window));
    }
    else rules

filled-window :
    (rt : Runtime) (a : GeneralController) (rules : GpaScalingRules)
    → (w : ℤ) × ((filled rt a rules).stabilization_window_seconds ≡ some w)
filled-window rt a rules = elim (Option-cases rules.stabilization_window_seconds) [
  | inl e ↦ rw (e, filled) (_, refl)
  | inr (w, e) ↦ (w, rw (e, filled))
]

filled-select :
    (rt : Runtime) (a : GeneralController) (rules : GpaScalingRules)
    → (filled rt a rules).select_policy ≡ rules.select_policy
filled-select rt a rules = ground arith

-- With a complete behaviour, from a count within the bounds: the controller does not dereference a
-- nil pointer, and the count that is applied is within the bounds again, whatever the metrics ask
-- for, whatever was recommended or scaled before, and whatever the policies are.
pub normalize_with_behaviors_bounds :
    {k : K8s} (rt : Runtime) (clock : ℕ → Time) (gpa : GeneralPodAutoscaler k)
    (a : GeneralController) (key : String) (current desired lowest : ℤ)
    (behavior : GeneralPodAutoscalerBehavior)
    → gpa.spec.behavior ≡ some behavior
    → IsComplete behavior
    → lowest ≤ℤ current
    → current ≤ℤ gpa.spec.max_replicas
    → (r : ℤ × GeneralPodAutoscaler k × GeneralController)
      × (normalize_desired_replicas_with_behaviors rt clock gpa a key current desired lowest
          ≡ some r)
      × (lowest ≤ℤ r.0)
      × (r.0 ≤ℤ gpa.spec.max_replicas)
unfolding normalize_desired_replicas_with_behaviors
normalize_with_behaviors_bounds rt clock gpa a key current desired lowest behavior has complete lo
      hi =
    let down = filled rt a complete.down in
    let (down_delay, waits) = filled-window rt a complete.down in
    let arg : NormalizationArg = record {
      key = key;
      scale_up_behavior = some complete.up;
      scale_down_behavior = some down;
      min_replicas = lowest;
      max_replicas = gpa.spec.max_replicas;
      current_replicas = current;
      desired_replicas = desired;
    } in
    let (r, er) =
      stabilize_total (clock 0) (clock 1) (clock 2) arg a complete.up down complete.up_window
        down_delay refl complete.up_waits refl waits in
    let arg' : NormalizationArg = record arg { desired_replicas = r.0.0 } in
    let policies : HasPolicies arg' = record {
      up_rules = complete.up;
      up_select = complete.up_select;
      down_rules = down;
      down_select = complete.down_select;
      up_is = refl;
      up_selects = complete.up_selects;
      down_is = refl;
      down_selects = filled-select rt a complete.down ∙ complete.down_selects;
    } in
    let (s, es, between) =
      convert_with_behavior_rate-IsBetween rt.float (λ i. clock (i + 5)) r.1 arg' policies lo hi in
    rw (has, complete.up_is, complete.down_is, er, es)
      (_, refl, between.at_least_min, between.at_most_max)
