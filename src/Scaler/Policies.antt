-- ===== src/Scaler/Policies.antt =====
-- The scaling policies of a behaviour: how many replicas they let an autoscaler add or remove
-- (`calculateScaleUpLimitWithScalingRules`, `calculateScaleDownLimitWithBehaviors`,
-- `convertDesiredReplicasWithBehaviorRate` of pkg/scaler/general.go).
--
-- The code reads the clock once for each policy: `clock i` is the reading for the policy number i.
-- `none` is the panic of a nil pointer that is dereferenced.
pub mod Window
pub mod Rate
pub mod Select
use text.Mathlib.Text.{◌==◌ as str_eq}
use general_pod_autoscaler.Common.{
  ℕ, zero, suc, String, List, [], ◌∷◌, Option, none, some, ◌>>=◌, if◌then◌else◌,
}
use general_pod_autoscaler.Common.Int.{ℤ, pos, leb_ℤ, ltb_ℤ, ◌+ℤ◌, ◌-ℤ◌}
use general_pod_autoscaler.Common.Machine.{wrap32}
use general_pod_autoscaler.Common.Dict.{items}
use general_pod_autoscaler.Common.Float.{Float64}
use general_pod_autoscaler.Api.Extern.{Time}
use general_pod_autoscaler.Api.Behavior.{
  disabled_policy_select, min_policy_select, pods_scaling_policy, percent_scaling_policy,
  GpaScalingPolicy, GpaScalingRules,
}
use general_pod_autoscaler.Scaler.Limits.{max, min}
use general_pod_autoscaler.Scaler.State.{TimestampedScaleEvent, GeneralController, seconds}

-- The loop of `getReplicasChangePerPeriod`, an `int32` sum.
unfoldable pub change_after : Time → ℤ → List TimestampedScaleEvent → ℤ
change_after cutoff replicas [] = replicas
change_after cutoff replicas (rec ∷ rest) =
    change_after cutoff
      (if ltb_ℤ cutoff rec.timestamp then wrap32 (replicas +ℤ rec.replica_change) else replicas)
      rest

unfoldable pub get_replicas_change_per_period : Time → ℤ → List TimestampedScaleEvent → ℤ
unfolding change_after
get_replicas_change_per_period now period_seconds scale_events =
    change_after (now -ℤ seconds period_seconds) (pos 0) scale_events

module _ (f : Float64) where
  -- What one policy proposes; a policy of no known type repeats the last proposal.
  pub propose_up : GpaScalingPolicy → ℤ → ℤ → ℤ
  propose_up policy period_start_replicas proposed =
      if str_eq policy.type pods_scaling_policy
      then wrap32 (period_start_replicas +ℤ policy.value)
      else if str_eq policy.type percent_scaling_policy
      then f.to_int32 (
          f.ceil (
            f.mul (f.of_int period_start_replicas)
              (f.add (f.of_int (pos 1)) (f.div (f.of_int policy.value) (f.of_int (pos 100))))))
      else proposed

  pub propose_down : GpaScalingPolicy → ℤ → ℤ → ℤ
  propose_down policy period_start_replicas proposed =
      if str_eq policy.type pods_scaling_policy
      then wrap32 (period_start_replicas -ℤ policy.value)
      else if str_eq policy.type percent_scaling_policy
      then f.to_int32 (
          f.mul (f.of_int period_start_replicas)
            (f.sub (f.of_int (pos 1)) (f.div (f.of_int policy.value) (f.of_int (pos 100)))))
      else proposed

  module _ (clock : ℕ → Time) (current_replicas : ℤ) (events : List TimestampedScaleEvent) where
    -- The loop over the policies, with the variables `result` and `proposed`.
    pub fold_up : (ℤ → ℤ → ℤ) → ℕ → List GpaScalingPolicy → ℤ → ℤ → ℤ
    unfolding get_replicas_change_per_period propose_up
    fold_up select_policy i [] result proposed = result
    fold_up select_policy i (policy ∷ rest) result proposed =
        let added = get_replicas_change_per_period (clock i) policy.period_seconds events in
        let proposed' = propose_up policy (wrap32 (current_replicas -ℤ added)) proposed in
        fold_up select_policy (suc i) rest (select_policy result proposed') proposed'

    pub fold_down : (ℤ → ℤ → ℤ) → ℕ → List GpaScalingPolicy → ℤ → ℤ → ℤ
    unfolding get_replicas_change_per_period propose_down
    fold_down select_policy i [] result proposed = result
    fold_down select_policy i (policy ∷ rest) result proposed =
        let deleted = get_replicas_change_per_period (clock i) policy.period_seconds events in
        let proposed' = propose_down policy (wrap32 (current_replicas +ℤ deleted)) proposed in
        fold_down select_policy (suc i) rest (select_policy result proposed') proposed'

    pub calculate_scale_up_limit_with_scaling_rules : Option GpaScalingRules → Option ℤ
    unfolding fold_up
    calculate_scale_up_limit_with_scaling_rules scaling_rules = do
      rules ← scaling_rules
      select ← rules.select_policy
      some (
          if str_eq select disabled_policy_select
          then current_replicas
          else if str_eq select min_policy_select
          then fold_up min zero rules.policies (pos 0) (pos 0)
          else fold_up max zero rules.policies (pos 0) (pos 0))

    -- The initial result is math.MaxInt32.
    pub calculate_scale_down_limit_with_behaviors : Option GpaScalingRules → Option ℤ
    unfolding fold_down
    calculate_scale_down_limit_with_behaviors scaling_rules = do
      rules ← scaling_rules
      select ← rules.select_policy
      some (
          if str_eq select disabled_policy_select
          then current_replicas
          else if str_eq select min_policy_select
          then fold_down max zero rules.policies (pos 2147483647) (pos 0)
          else fold_down min zero rules.policies (pos 2147483647) (pos 0))

pub record NormalizationArg : Type 0 where
  pub key : String
  pub scale_up_behavior : Option GpaScalingRules
  pub scale_down_behavior : Option GpaScalingRules
  pub min_replicas : ℤ
  pub max_replicas : ℤ
  pub current_replicas : ℤ
  pub desired_replicas : ℤ

abbrev pub within_range : ℤ → ℤ × String × String
within_range desired =
    (desired, "DesiredWithinRange", "the desired count is within the acceptable range")

-- The branch that scales up, once the policies have given their limit.
pub rate_up : NormalizationArg → ℤ → ℤ × String × String
rate_up args limit =
    let scale_up_limit =
      if ltb_ℤ limit args.current_replicas then args.current_replicas else limit in
    let allowed =
      if ltb_ℤ scale_up_limit args.max_replicas then scale_up_limit else args.max_replicas in
    if ltb_ℤ allowed args.desired_replicas
    then if ltb_ℤ scale_up_limit args.max_replicas
      then (
        allowed, "ScaleUpLimit",
        "the desired replica count is increasing faster than the maximum scale rate",
      )
      else (
        allowed, "TooManyReplicas",
        "the desired replica count is more than the maximum replica count",
      )
    else within_range args.desired_replicas

pub rate_down : NormalizationArg → ℤ → ℤ × String × String
rate_down args limit =
    let scale_down_limit =
      if ltb_ℤ args.current_replicas limit then args.current_replicas else limit in
    let allowed =
      if ltb_ℤ args.min_replicas scale_down_limit then scale_down_limit else args.min_replicas in
    if ltb_ℤ args.desired_replicas allowed
    then if ltb_ℤ args.min_replicas scale_down_limit
      then (
        allowed, "ScaleDownLimit",
        "the desired replica count is decreasing faster than the maximum scale rate",
      )
      else (
        allowed, "TooFewReplicas",
        "the desired replica count is less than the minimum replica count",
      )
    else within_range args.desired_replicas

-- `convertDesiredReplicasWithBehaviorRate`: the new count, the reason and the message.
pub convert_desired_replicas_with_behavior_rate :
    Float64 → (ℕ → Time) → GeneralController → NormalizationArg → Option (ℤ × String × String)
unfolding rate_up rate_down
convert_desired_replicas_with_behavior_rate f clock a args =
    if ltb_ℤ args.current_replicas args.desired_replicas
    then calculate_scale_up_limit_with_scaling_rules f clock args.current_replicas
        (items args.key a.scale_up_events) args.scale_up_behavior
      >>= (λ limit. some (rate_up args limit))
    else if ltb_ℤ args.desired_replicas args.current_replicas
    then calculate_scale_down_limit_with_behaviors f clock args.current_replicas
        (items args.key a.scale_down_events) args.scale_down_behavior
      >>= (λ limit. some (rate_down args limit))
    else some (within_range args.desired_replicas)
