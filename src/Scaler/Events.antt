-- ===== src/Scaler/Events.antt =====
-- The record of past scalings: `storeScaleEvent`, `markScaleEventsOutdated`,
-- `getLongestPolicyPeriod` of pkg/scaler/general.go. The code reads the clock when it marks the
-- old events and again when it makes the new one.
pub mod Account
pub mod Total
pub mod Store
use general_pod_autoscaler.Common.{
  ℕ, String, Bool, true, false, List, [], ◌∷◌, Option, none, some, ◌>>=◌, if◌then◌else◌, last_index,
  replace_or_append,
}
use general_pod_autoscaler.Common.Int.{ℤ, pos, ltb_ℤ, ◌-ℤ◌}
use general_pod_autoscaler.Common.Machine.{wrap32}
use general_pod_autoscaler.Common.Dict.{items, insert}
use general_pod_autoscaler.Api.Extern.{Time}
use general_pod_autoscaler.Api.Behavior.{
  GpaScalingPolicy, GpaScalingRules, GeneralPodAutoscalerBehavior,
}
use general_pod_autoscaler.Scaler.State.{TimestampedScaleEvent, GeneralController, seconds}

-- `if event.timestamp.Before(cutoff) { event.outdated = true }`
unfoldable pub mark_event : Time → TimestampedScaleEvent → TimestampedScaleEvent
mark_event cutoff event =
    if ltb_ℤ event.timestamp cutoff then record event { outdated = true } else event

unfoldable pub mark_before : Time → List TimestampedScaleEvent → List TimestampedScaleEvent
mark_before cutoff [] = []
mark_before cutoff (event ∷ rest) = mark_event cutoff event ∷ mark_before cutoff rest

pub mark_scale_events_outdated : Time → List TimestampedScaleEvent → ℤ → List TimestampedScaleEvent
unfolding mark_before
mark_scale_events_outdated now scale_events longest_policy_period =
    mark_before (now -ℤ seconds longest_policy_period) scale_events

longest_period : ℤ → List GpaScalingPolicy → ℤ
longest_period longest [] = longest
longest_period longest (policy ∷ rest) =
    longest_period (if ltb_ℤ longest policy.period_seconds then policy.period_seconds else longest)
      rest

pub get_longest_policy_period : GpaScalingRules → ℤ
unfolding longest_period
get_longest_policy_period scaling_rules = longest_period (pos 0) scaling_rules.policies

abbrev pub is_outdated : TimestampedScaleEvent → Bool
is_outdated event = event.outdated

-- What happens to the events of one direction: the old ones are marked, and the new one takes the
-- place of the last that is outdated, or is appended.
pub record_event : Time → Time → ℤ → ℤ → List TimestampedScaleEvent → List TimestampedScaleEvent
unfolding mark_scale_events_outdated
record_event mark_now event_now longest_policy_period replica_change scale_events =
    let marked = mark_scale_events_outdated mark_now scale_events longest_policy_period in
    replace_or_append (last_index is_outdated 0 none marked)
      (record { replica_change = replica_change; timestamp = event_now; outdated = false }) marked

-- `none` is the panic of a nil rule that is dereferenced.
pub store_scale_event :
    Time
    → Time
    → GeneralController
    → Option GeneralPodAutoscalerBehavior
    → String
    → ℤ
    → ℤ
    → Option GeneralController
unfolding record_event get_longest_policy_period
store_scale_event mark_now event_now a none key prev_replicas new_replicas = some a
store_scale_event mark_now event_now a (some behavior) key prev_replicas new_replicas =
    if ltb_ℤ prev_replicas new_replicas
    then behavior.scale_up >>= (λ rules. some (record a {
      scale_up_events =
          insert key
            (record_event mark_now event_now (get_longest_policy_period rules)
              (wrap32 (new_replicas -ℤ prev_replicas)) (items key a.scale_up_events))
            a.scale_up_events;
    }))
    else behavior.scale_down >>= (λ rules. some (record a {
      scale_down_events =
          insert key
            (record_event mark_now event_now (get_longest_policy_period rules)
              (wrap32 (prev_replicas -ℤ new_replicas)) (items key a.scale_down_events))
            a.scale_down_events;
    }))
