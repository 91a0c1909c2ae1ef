-- ===== src/Scaler/Policies/Select.antt =====
-- What the selection "Min" and "Disabled" do to the rate limits of a behaviour.
use general_pod_autoscaler.Common.{ℕ, zero, suc, ◌≡◌, refl, List, [], ◌∷◌, some, arith, String}
use general_pod_autoscaler.Common.Int.{ℤ, pos, ◌≤ℤ◌, ◌<ℤ◌, ◌-ℤ◌, ◌+ℤ◌, <ℤ→ltb_ℤ, ≤ℤ→ltb_ℤ}
use general_pod_autoscaler.Common.Machine.{wrap32}
use general_pod_autoscaler.Common.Dict.{items}
use general_pod_autoscaler.Common.Float.{Float64}
use general_pod_autoscaler.Api.Extern.{Time}
use general_pod_autoscaler.Api.Behavior.{
  disabled_policy_select, min_policy_select, GpaScalingPolicy, GpaScalingRules,
}
use general_pod_autoscaler.Scaler.Limits.{max, min}
use general_pod_autoscaler.Scaler.State.{TimestampedScaleEvent, GeneralController}
use general_pod_autoscaler.Scaler.Policies.{
  get_replicas_change_per_period, propose_up, propose_down, fold_up, fold_down,
  calculate_scale_up_limit_with_scaling_rules, calculate_scale_down_limit_with_behaviors,
  NormalizationArg, rate_up, rate_down, convert_desired_replicas_with_behavior_rate,
}

min_nonpos : (a b : ℤ) → a ≤ℤ pos 0 → min a b ≤ℤ pos 0
unfolding min
min_nonpos a b h = ground arith

max_large : (a b : ℤ) → pos 2147483647 ≤ℤ a → pos 2147483647 ≤ℤ max a b
unfolding max
max_large a b h = ground arith

module _ (f : Float64) (clock : ℕ → Time) (current : ℤ) (events : List TimestampedScaleEvent) where
  fold_up-min_nonpos :
      (i : ℕ) (policies : List GpaScalingPolicy) (result proposed : ℤ)
      → result ≤ℤ pos 0
      → fold_up f clock current events min i policies result proposed ≤ℤ pos 0
  unfolding fold_up
  fold_up-min_nonpos i [] result proposed h = h
  fold_up-min_nonpos i (p ∷ ps) result proposed h =
      let added = get_replicas_change_per_period (clock i) p.period_seconds events in
      let next = propose_up f p (wrap32 (current -ℤ added)) proposed in
      fold_up-min_nonpos (suc i) ps (min result next) next (min_nonpos result next h)

  fold_down-max_large :
      (i : ℕ) (policies : List GpaScalingPolicy) (result proposed : ℤ)
      → pos 2147483647 ≤ℤ result
      → pos 2147483647 ≤ℤ fold_down f clock current events max i policies result proposed
  unfolding fold_down
  fold_down-max_large i [] result proposed h = h
  fold_down-max_large i (p ∷ ps) result proposed h =
      let deleted = get_replicas_change_per_period (clock i) p.period_seconds events in
      let next = propose_down f p (wrap32 (current +ℤ deleted)) proposed in
      fold_down-max_large (suc i) ps (max result next) next (max_large result next h)

rate_up_blocked :
    (args : NormalizationArg) (limit : ℤ)
    → limit ≤ℤ args.current_replicas
    → args.current_replicas <ℤ args.desired_replicas
    → args.current_replicas ≤ℤ args.max_replicas
    → (rate_up args limit).0 ≡ args.current_replicas
unfolding rate_up
rate_up_blocked args limit low up hi = ground arith

rate_down_blocked :
    (args : NormalizationArg) (limit : ℤ)
    → args.current_replicas ≤ℤ limit
    → args.desired_replicas <ℤ args.current_replicas
    → args.min_replicas ≤ℤ args.current_replicas
    → (rate_down args limit).0 ≡ args.current_replicas
unfolding rate_down
rate_down_blocked args limit high down lo = ground arith

-- Selecting the policy "Min" stops an autoscaler from scaling up at all: whatever the policies,
-- the recorded events, the time and the desired count, the new count is the current one, as long
-- as that is not negative and within the maximum.
pub min_select_never_scales_up :
    (f : Float64) (clock : ℕ → Time) (a : GeneralController) (args : NormalizationArg)
    (rules : GpaScalingRules)
    → args.scale_up_behavior ≡ some rules
    → rules.select_policy ≡ some min_policy_select
    → pos 0 ≤ℤ args.current_replicas
    → args.current_replicas <ℤ args.desired_replicas
    → args.current_replicas ≤ℤ args.max_replicas
    → (r : ℤ × String × String) × (convert_desired_replicas_with_behavior_rate f clock a args
        ≡ some r)
      × (r.0 ≡ args.current_replicas)
unfolding convert_desired_replicas_with_behavior_rate calculate_scale_up_limit_with_scaling_rules
min_select_never_scales_up f clock a args rules is selects nonneg up hi =
    let events = items args.key a.scale_up_events in
    let start = pos 0 in
    let limit = fold_up f clock args.current_replicas events min zero rules.policies start start in
    let low : limit ≤ℤ start =
      fold_up-min_nonpos f clock args.current_replicas events zero rules.policies start start
        (omega arith) in
    rw (<ℤ→ltb_ℤ args.current_replicas args.desired_replicas up, is, selects)
      (rate_up args limit, refl, rate_up_blocked args limit (omega arith) up hi)

-- Selecting the policy "Min" stops an autoscaler from scaling down at all: the new count is the
-- current one, as long as that is an int32 and at least the minimum.
pub min_select_never_scales_down :
    (f : Float64) (clock : ℕ → Time) (a : GeneralController) (args : NormalizationArg)
    (rules : GpaScalingRules)
    → args.scale_down_behavior ≡ some rules
    → rules.select_policy ≡ some min_policy_select
    → args.current_replicas ≤ℤ pos 2147483647
    → args.desired_replicas <ℤ args.current_replicas
    → args.min_replicas ≤ℤ args.current_replicas
    → (r : ℤ × String × String) × (convert_desired_replicas_with_behavior_rate f clock a args
        ≡ some r)
      × (r.0 ≡ args.current_replicas)
unfolding convert_desired_replicas_with_behavior_rate calculate_scale_down_limit_with_behaviors
min_select_never_scales_down f clock a args rules is selects small down lo =
    let events = items args.key a.scale_down_events in
    let start = pos 2147483647 in
    let limit =
      fold_down f clock args.current_replicas events max zero rules.policies start (pos 0) in
    let high : start ≤ℤ limit =
      fold_down-max_large f clock args.current_replicas events zero rules.policies start (pos 0)
        (omega arith) in
    rw
      (
        ≤ℤ→ltb_ℤ args.current_replicas args.desired_replicas (omega arith),
        <ℤ→ltb_ℤ args.desired_replicas args.current_replicas down,
        is,
        selects,
      )
      (rate_down args limit, refl, rate_down_blocked args limit (omega arith) down lo)

-- Selecting "Disabled" in a direction keeps the count as it is in that direction, whatever
-- the policies and the events, from a count within the bounds.
pub disabled_select_keeps :
    (f : Float64) (clock : ℕ → Time) (a : GeneralController) (args : NormalizationArg)
    (rules : GpaScalingRules)
    → rules.select_policy ≡ some disabled_policy_select
    → args.min_replicas ≤ℤ args.current_replicas
    → args.current_replicas ≤ℤ args.max_replicas
    → (args.current_replicas <ℤ args.desired_replicas
        → args.scale_up_behavior ≡ some rules
        → (r : ℤ × String × String) × (convert_desired_replicas_with_behavior_rate f clock a args
            ≡ some r)
          × (r.0 ≡ args.current_replicas))
      × (args.desired_replicas <ℤ args.current_replicas
          → args.scale_down_behavior ≡ some rules
          → (r : ℤ × String × String) × (convert_desired_replicas_with_behavior_rate f clock a args
              ≡ some r)
            × (r.0 ≡ args.current_replicas))
unfolding convert_desired_replicas_with_behavior_rate calculate_scale_down_limit_with_behaviors
    calculate_scale_up_limit_with_scaling_rules
disabled_select_keeps f clock a args rules selects lo hi = (
  λ up is.
      rw (<ℤ→ltb_ℤ args.current_replicas args.desired_replicas up, is, selects)
        (
          rate_up args args.current_replicas,
          refl,
          rate_up_blocked args args.current_replicas (omega arith) up hi,
        ),
  λ down is.
      rw
        (
          ≤ℤ→ltb_ℤ args.current_replicas args.desired_replicas (omega arith),
          <ℤ→ltb_ℤ args.desired_replicas args.current_replicas down,
          is,
          selects,
        )
        (
          rate_down args args.current_replicas,
          refl,
          rate_down_blocked args args.current_replicas (omega arith) down lo,
        ),
)
