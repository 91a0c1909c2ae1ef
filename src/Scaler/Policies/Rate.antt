-- ===== src/Scaler/Policies/Rate.antt =====
-- What the rate limits of a behaviour guarantee.
use general_pod_autoscaler.Common.{ℕ, ◌≡◌, refl, some, arith, String, Bool-cases, inl, inr}
use general_pod_autoscaler.Common.Int.{ℤ, ◌≤ℤ◌, ◌<ℤ◌, ltb_ℤ, ltb_ℤ→<ℤ}
use general_pod_autoscaler.Common.Dict.{items}
use general_pod_autoscaler.Common.Float.{Float64}
use general_pod_autoscaler.Api.Extern.{Time}
use general_pod_autoscaler.Api.Behavior.{GpaScalingRules}
use general_pod_autoscaler.Scaler.State.{GeneralController}
use general_pod_autoscaler.Scaler.Policies.{
  calculate_scale_up_limit_with_scaling_rules, calculate_scale_down_limit_with_behaviors,
  NormalizationArg, rate_up, rate_down, within_range, convert_desired_replicas_with_behavior_rate,
}

-- The count of a result lies between the current and the desired count, and within the bounds.
pub record IsBetween (args : NormalizationArg) (r : ℤ) : Type 0 where
  pub at_least_min : args.min_replicas ≤ℤ r
  pub at_most_max : r ≤ℤ args.max_replicas
  pub up :
      args.current_replicas ≤ℤ args.desired_replicas
      → (args.current_replicas ≤ℤ r) × (r ≤ℤ args.desired_replicas)
  pub down :
      args.desired_replicas ≤ℤ args.current_replicas
      → (args.desired_replicas ≤ℤ r) × (r ≤ℤ args.current_replicas)

module _ (args : NormalizationArg) where
  rate_up-IsBetween :
      (limit : ℤ)
      → args.min_replicas ≤ℤ args.current_replicas
      → args.current_replicas ≤ℤ args.max_replicas
      → args.current_replicas <ℤ args.desired_replicas
      → IsBetween args (rate_up args limit).0
  unfolding rate_up
  rate_up-IsBetween limit lo hi up = ground arith

  rate_down-IsBetween :
      (limit : ℤ)
      → args.min_replicas ≤ℤ args.current_replicas
      → args.current_replicas ≤ℤ args.max_replicas
      → args.desired_replicas <ℤ args.current_replicas
      → IsBetween args (rate_down args limit).0
  unfolding rate_down
  rate_down-IsBetween limit lo hi down = ground arith

-- Both directions have rules, and each of them selects a policy.
pub record HasPolicies (args : NormalizationArg) : Type 0 where
  pub up_rules : GpaScalingRules
  pub up_select : String
  pub down_rules : GpaScalingRules
  pub down_select : String
  pub up_is : args.scale_up_behavior ≡ some up_rules
  pub up_selects : up_rules.select_policy ≡ some up_select
  pub down_is : args.scale_down_behavior ≡ some down_rules
  pub down_selects : down_rules.select_policy ≡ some down_select

module _ (f : Float64) (clock : ℕ → Time) (a : GeneralController) (args : NormalizationArg) where
  up_total :
      HasPolicies args
      → (limit : ℤ) × (calculate_scale_up_limit_with_scaling_rules f clock args.current_replicas
            (items args.key a.scale_up_events)
            args.scale_up_behavior
          ≡ some limit)
  unfolding calculate_scale_up_limit_with_scaling_rules
  up_total h = rw (h.up_is, h.up_selects) (_, refl)

  down_total :
      HasPolicies args
      → (limit : ℤ) × (calculate_scale_down_limit_with_behaviors f clock args.current_replicas
            (items args.key a.scale_down_events)
            args.scale_down_behavior
          ≡ some limit)
  unfolding calculate_scale_down_limit_with_behaviors
  down_total h = rw (h.down_is, h.down_selects) (_, refl)

-- With rules that select a policy in both directions, and from a count within the bounds, the code
-- has a result. The new count is within the bounds again, and it lies between the current and the
-- desired count: it neither overshoots the desired count nor moves the other way.
pub convert_with_behavior_rate-IsBetween :
    (f : Float64) (clock : ℕ → Time) (a : GeneralController) (args : NormalizationArg)
    → HasPolicies args
    → args.min_replicas ≤ℤ args.current_replicas
    → args.current_replicas ≤ℤ args.max_replicas
    → (r : ℤ × String × String) × (convert_desired_replicas_with_behavior_rate f clock a args
        ≡ some r)
      × IsBetween args r.0
unfolding convert_desired_replicas_with_behavior_rate
convert_with_behavior_rate-IsBetween f clock a args h lo hi =
    let (u, eu) = up_total f clock a args h in
    let (d, ed) = down_total f clock a args h in
    elim (Bool-cases (ltb_ℤ args.current_replicas args.desired_replicas)) [
      | inl up ↦
          rw (up, eu)
            (
              rate_up args u,
              refl,
              rate_up-IsBetween args u lo hi
                  (ltb_ℤ→<ℤ args.current_replicas args.desired_replicas up),
            )
      | inr not_up ↦ elim (Bool-cases (ltb_ℤ args.desired_replicas args.current_replicas)) [
        | inl down ↦
            rw (not_up, down, ed)
              (
                rate_down args d,
                refl,
                rate_down-IsBetween args d lo hi
                    (ltb_ℤ→<ℤ args.desired_replicas args.current_replicas down),
              )
        | inr not_down ↦
            rw (not_up, not_down) (within_range args.desired_replicas, refl, ground arith)
      ]
    ]
