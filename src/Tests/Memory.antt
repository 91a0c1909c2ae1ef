-- ===== src/Tests/Memory.antt =====
-- The theorems on recommendations, scale events and conditions, at concrete data.
use text.Mathlib.Text.{◌==◌ as str_eq}
use general_pod_autoscaler.Common.{
  ◌≡◌, refl, ◌⊎◌, String, [], ◌∷◌, some, arith, true, false, if◌then◌else◌, All,
}
use general_pod_autoscaler.Common.Int.{ℤ, pos, ◌≤ℤ◌, ◌<ℤ◌, ◌+ℤ◌, ◌-ℤ◌, ◌*ℤ◌}
use general_pod_autoscaler.Common.Machine.{wrap32, wrap64}
use general_pod_autoscaler.Common.Dict.{lookup, items}
use general_pod_autoscaler.Api.Autoscaler.{
  GeneralPodAutoscalerCondition, scaling_active, able_to_scale, condition_true, condition_false,
}
use general_pod_autoscaler.Scaler.Limits.{max}
use general_pod_autoscaler.Scaler.State.{GeneralController, seconds}
use general_pod_autoscaler.Scaler.Policies.{get_replicas_change_per_period}
use general_pod_autoscaler.Scaler.Events.{store_scale_event}
use general_pod_autoscaler.Scaler.Events.Account.{MarksAreOld}
use general_pod_autoscaler.Scaler.Events.Store.{
  OnlyUpChanged, OnlyDownChanged, store_scale_event_up, store_scale_event_down,
}
use general_pod_autoscaler.Scaler.Recommendations.{
  stabilize_recommendation, stabilize_recommendation_with_behaviors,
}
use general_pod_autoscaler.Scaler.Recommendations.Scan.{IsOneOf, IsFresh, IsRecent}
use general_pod_autoscaler.Scaler.Recommendations.Stable.{
  Keeps, stabilize_recommendation_max, stabilize_recommendation-Keeps, stabilize_with_behaviors_up,
  stabilize_with_behaviors_down,
}
use general_pod_autoscaler.Scaler.Conditions.{set_condition_in_list}
use general_pod_autoscaler.Scaler.Conditions.Lookup.{
  condition_of, existing, OnePerType, condition_of-set_condition_in_list,
  set_condition_in_list-OnePerType,
}
use general_pod_autoscaler.Tests.{
  runtime, four_pods, up_rules, down_rules, behavior, now, controller, args_of,
}

abbrev later : ℤ
later = pos 60000000000

stabilize_recommendation_max_example :
    let r = (stabilize_recommendation now now "default/web" (pos 5) controller).0 in
    let fresh = IsFresh (now -ℤ pos 300000000000) in
    let recs = items "default/web" controller.recommendations in
    (pos 5 ≤ℤ r)
    × All (λ rec. fresh rec → rec.recommendation ≤ℤ r) recs
    × ((r ≡ pos 5) ⊎ IsOneOf fresh r recs)
stabilize_recommendation_max_example =
    stabilize_recommendation_max now now "default/web" (pos 5) controller

stabilize_recommendation-Keeps_example :
    Keeps "default/web"
      (now -ℤ pos 300000000000)
      (record { recommendation = pos 5; timestamp = now })
      controller
      (stabilize_recommendation now now "default/web" (pos 5) controller).1
stabilize_recommendation-Keeps_example =
    stabilize_recommendation-Keeps now now "default/web" (pos 5) controller

stabilize_with_behaviors_up_example :
    let args = args_of up_rules down_rules (pos 5) (pos 30) in
    let recent = IsRecent (now -ℤ seconds (pos 30)) in
    let recs = items "default/web" controller.recommendations in
    (r : (ℤ × String × String) × GeneralController) × (stabilize_recommendation_with_behaviors now
        now now args controller
      ≡ some r)
    × (r.0.0 ≤ℤ pos 30)
    × All (λ rec. recent rec → r.0.0 ≤ℤ rec.recommendation) recs
    × ((r.0.0 ≡ pos 30) ⊎ IsOneOf recent r.0.0 recs)
    × Keeps "default/web"
        (now -ℤ seconds (max (pos 30) (pos 300)))
        (record { recommendation = pos 30; timestamp = now })
        controller
        r.1
stabilize_with_behaviors_up_example =
    stabilize_with_behaviors_up now now now (args_of up_rules down_rules (pos 5) (pos 30))
      controller (pos 30) (pos 300) refl refl (omega arith)

stabilize_with_behaviors_down_example :
    let args = args_of up_rules down_rules (pos 5) (pos 3) in
    let recent = IsRecent (now -ℤ seconds (pos 300)) in
    let recs = items "default/web" controller.recommendations in
    (r : (ℤ × String × String) × GeneralController) × (stabilize_recommendation_with_behaviors now
        now now args controller
      ≡ some r)
    × (pos 3 ≤ℤ r.0.0)
    × All (λ rec. recent rec → rec.recommendation ≤ℤ r.0.0) recs
    × ((r.0.0 ≡ pos 3) ⊎ IsOneOf recent r.0.0 recs)
    × Keeps "default/web"
        (now -ℤ seconds (max (pos 30) (pos 300)))
        (record { recommendation = pos 3; timestamp = now })
        controller
        r.1
stabilize_with_behaviors_down_example =
    stabilize_with_behaviors_down now now now (args_of up_rules down_rules (pos 5) (pos 3))
      controller (pos 30) (pos 300) refl refl (omega arith)

-- The start of the period of a policy, ten seconds later, is before the present.
period_is_recent : later -ℤ seconds (pos 60) <ℤ now
unfolding ◌-ℤ◌ seconds wrap64 ◌*ℤ◌
period_is_recent = omega arith

-- The event of the test data is not marked.
unmarked : (t : ℤ) → false ≡ true → pos 10000000000 ≤ℤ t
unmarked t h = cc

no_up_marks : (t : ℤ) → MarksAreOld t (items "default/web" controller.scale_up_events)
unfolding items lookup
no_up_marks t = (unmarked t, tt)

no_down_marks : (t : ℤ) → MarksAreOld t (items "default/web" controller.scale_down_events)
unfolding items lookup
no_down_marks t = tt

store_scale_event_up_example :
    (a' : GeneralController) × (store_scale_event now now controller
        (some behavior)
        "default/web"
        (pos 5)
        (pos 7)
      ≡ some a')
    × (get_replicas_change_per_period later (pos 60) (items "default/web" a'.scale_up_events)
        ≡ wrap32 (
            get_replicas_change_per_period later
              (pos 60)
              (items "default/web" controller.scale_up_events)
            +ℤ (pos 7 -ℤ pos 5)))
    × OnlyUpChanged "default/web" controller a'
store_scale_event_up_example =
    store_scale_event_up now now later controller behavior "default/web" (pos 5) (pos 7) up_rules
      four_pods 0 refl (omega arith) (omega arith) period_is_recent refl (omega arith)
      (no_up_marks _)

store_scale_event_down_example :
    (a' : GeneralController) × (store_scale_event now now controller
        (some behavior)
        "default/web"
        (pos 7)
        (pos 5)
      ≡ some a')
    × (get_replicas_change_per_period later (pos 60) (items "default/web" a'.scale_down_events)
        ≡ wrap32 (
            get_replicas_change_per_period later
              (pos 60)
              (items "default/web" controller.scale_down_events)
            +ℤ (pos 7 -ℤ pos 5)))
    × OnlyDownChanged "default/web" controller a'
store_scale_event_down_example =
    store_scale_event_down now now later controller behavior "default/web" (pos 7) (pos 5)
      down_rules four_pods 0 refl (omega arith) (omega arith) period_is_recent refl (omega arith)
      (no_down_marks _)

-- A condition that is there.
abbrev active : GeneralPodAutoscalerCondition
active = record {
  type = scaling_active;
  status = condition_true;
  last_transition_time = some (pos 7);
  reason = "ValidMetricFound";
  message = "";
}

condition_of-set_condition_in_list_example :
    condition_of scaling_active (
      set_condition_in_list runtime now
        (active ∷ [])
        scaling_active
        condition_false
        "Failed"
        "m"
        [])
    ≡ (if str_eq scaling_active scaling_active
        then some (
            let old = existing scaling_active (condition_of scaling_active (active ∷ [])) in
            record old {
              last_transition_time =
                  if str_eq old.status condition_false then old.last_transition_time else some now;
              status = condition_false;
              reason = "Failed";
              message = runtime.sprintf "m" [];
            })
        else condition_of scaling_active (active ∷ []))
condition_of-set_condition_in_list_example =
    condition_of-set_condition_in_list runtime now (active ∷ []) scaling_active condition_false
      "Failed" "m" [] scaling_active

only_active : OnePerType (active ∷ [])
unfolding condition_of
only_active = (refl, tt)

set_condition_in_list-OnePerType_example :
    OnePerType
      (set_condition_in_list runtime now (active ∷ []) able_to_scale condition_true "Ok" "m" [])
set_condition_in_list-OnePerType_example =
    set_condition_in_list-OnePerType runtime now (active ∷ []) able_to_scale condition_true "Ok" "m"
      [] only_active
