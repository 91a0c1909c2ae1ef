-- ===== src/Scaler/Policies/Window.antt =====
-- The change of the replica count over a period, and the rate that a policy enforces with it.
use general_pod_autoscaler.Common.{
  ℕ, ◌≡◌, refl, ap, ◌∙◌, List, [], ◌∷◌, some, arith, String, if◌then◌else◌, Bool-cases, inl, inr,
  ◌⊎◌,
}
use general_pod_autoscaler.Common.Int.{
  ℤ, pos, ◌≤ℤ◌, ◌<ℤ◌, ◌-ℤ◌, ◌+ℤ◌, ltb_ℤ, +ℤ_assoc, int_laws, <ℤ→ltb_ℤ, +ℤ_zero, zero_+ℤ,
}
use general_pod_autoscaler.Common.Machine.{
  IsInt32, wrap32, wrap32_self, wrap32-wrap32_add, wrap32-IsInt32,
}
use general_pod_autoscaler.Common.Dict.{items}
use general_pod_autoscaler.Common.Sum.{sum_by}
use general_pod_autoscaler.Common.Float.{Float64}
use general_pod_autoscaler.Api.Extern.{Time}
use general_pod_autoscaler.Api.Behavior.{
  max_policy_select, pods_scaling_policy, GpaScalingRules, GpaScalingPolicy,
}
use general_pod_autoscaler.Scaler.Limits.{max}
use general_pod_autoscaler.Scaler.State.{TimestampedScaleEvent, GeneralController, seconds}
use general_pod_autoscaler.Scaler.Policies.{
  change_after, get_replicas_change_per_period, propose_up, fold_up,
  calculate_scale_up_limit_with_scaling_rules, NormalizationArg, rate_up,
  convert_desired_replicas_with_behavior_rate,
}

-- What an event counts for: its change if it is newer than the cutoff.
unfoldable pub in_window : Time → TimestampedScaleEvent → ℤ
in_window cutoff e = if ltb_ℤ cutoff e.timestamp then e.replica_change else pos 0

step_sum :
    (cutoff : Time) (acc : ℤ) (e : TimestampedScaleEvent)
    → IsInt32 acc
    → (if ltb_ℤ cutoff e.timestamp then wrap32 (acc +ℤ e.replica_change) else acc)
      ≡ wrap32 (acc +ℤ in_window cutoff e)
unfolding in_window
step_sum cutoff acc e h = elim (Bool-cases (ltb_ℤ cutoff e.timestamp)) [
  | inl newer ↦ rw newer
  | inr older ↦ rw (older, +ℤ_zero acc, wrap32_self acc h)
]

change_after_lem :
    (cutoff : Time) (acc : ℤ) (events : List TimestampedScaleEvent)
    → IsInt32 acc
    → change_after cutoff acc events ≡ wrap32 (acc +ℤ sum_by (in_window cutoff) events)
unfolding change_after sum_by
change_after_lem cutoff acc [] h = rw (+ℤ_zero acc, wrap32_self acc h)
change_after_lem cutoff acc (e ∷ es) h =
    let rest = sum_by (in_window cutoff) es in
    rw (step_sum cutoff acc e h) (
      change_after_lem cutoff (wrap32 (acc +ℤ in_window cutoff e)) es (wrap32-IsInt32 _)
      ∙ wrap32-wrap32_add (acc +ℤ in_window cutoff e) rest
      ∙ ap wrap32 (+ℤ_assoc acc (in_window cutoff e) rest))

-- The change over a period is the sum of the changes of the events newer than the period's start,
-- as an int32; whether an event is marked as outdated plays no part.
pub get_replicas_change-sum_by :
    (now : Time) (period : ℤ) (events : List TimestampedScaleEvent)
    → get_replicas_change_per_period now period events
      ≡ wrap32 (sum_by (in_window (now -ℤ seconds period)) events)
unfolding get_replicas_change_per_period
get_replicas_change-sum_by now period events =
    let cutoff = now -ℤ seconds period in
    change_after_lem cutoff (pos 0) events (omega arith)
    ∙ ap wrap32 (zero_+ℤ (sum_by (in_window cutoff) events))

rate_bound :
    (args : NormalizationArg) (x : ℤ)
    → args.current_replicas <ℤ args.desired_replicas
    → args.current_replicas ≤ℤ args.max_replicas
    → pos 0 ≤ℤ args.current_replicas
    → ((rate_up args (max (pos 0) x)).0 ≡ args.current_replicas)
      ⊎ ((rate_up args (max (pos 0) x)).0 ≤ℤ x)
unfolding rate_up max
rate_bound args x up hi nonneg = ground arith

rearranged : (added r c v : ℤ) → r ≤ℤ c -ℤ added +ℤ v → added +ℤ (r -ℤ c) ≤ℤ v
rearranged added r c v h = omega int_laws

-- The rate that a single policy "Pods" enforces under the selection "Max": when the desired count
-- is above the current one, the code has a result, and either the count stays as it is, or the
-- replicas added over the policy's period, together with those that the new count adds, are at
-- most the value of the policy. (The current count is at most the maximum and not negative, and
-- the two sums that the code forms fit in 32 bits.)
pub pods_policy_rate :
    (f : Float64) (clock : ℕ → Time) (a : GeneralController) (args : NormalizationArg)
    (rules : GpaScalingRules) (policy : GpaScalingPolicy)
    → args.scale_up_behavior ≡ some rules
    → rules.select_policy ≡ some max_policy_select
    → rules.policies ≡ policy ∷ []
    → policy.type ≡ pods_scaling_policy
    → args.current_replicas <ℤ args.desired_replicas
    → args.current_replicas ≤ℤ args.max_replicas
    → pos 0 ≤ℤ args.current_replicas
    → let added =
        get_replicas_change_per_period
          (clock 0)
          policy.period_seconds
          (items args.key a.scale_up_events) in
      IsInt32 (args.current_replicas -ℤ added)
      → IsInt32 (args.current_replicas -ℤ added +ℤ policy.value)
      → (r : ℤ × String × String) × (convert_desired_replicas_with_behavior_rate f clock a args
          ≡ some r)
        × ((r.0 ≡ args.current_replicas)
            ⊎ (added +ℤ (r.0 -ℤ args.current_replicas) ≤ℤ policy.value))
unfolding convert_desired_replicas_with_behavior_rate calculate_scale_up_limit_with_scaling_rules
    fold_up propose_up
pods_policy_rate f clock a args rules policy is selects single pods up hi nonneg fits fits' =
    let added =
      get_replicas_change_per_period (clock 0) policy.period_seconds
        (items args.key a.scale_up_events) in
    rw
      (
        <ℤ→ltb_ℤ args.current_replicas args.desired_replicas up,
        is,
        selects,
        single,
        pods,
        wrap32_self (args.current_replicas -ℤ added) fits,
        wrap32_self (args.current_replicas -ℤ added +ℤ policy.value) fits',
      )
      (
        rate_up args (max (pos 0) (args.current_replicas -ℤ added +ℤ policy.value)),
        refl,
        elim (rate_bound args (args.current_replicas -ℤ added +ℤ policy.value) up hi nonneg) [
          | inl same ↦ inl same
          | inr low ↦ inr (rearranged added _ args.current_replicas policy.value low)
        ],
      )
