-- ===== src/Scaler/Events/Total.antt =====
-- A scaling is recorded without a panic when the behaviour has rules in both directions.
use general_pod_autoscaler.Common.{
  String, Option, none, some, ◌≢◌, bind_ne_none, if_ne_none, some_ne_none,
}
use general_pod_autoscaler.Common.Int.{ℤ, ltb_ℤ}
use general_pod_autoscaler.Api.Extern.{Time}
use general_pod_autoscaler.Api.Behavior.{GeneralPodAutoscalerBehavior}
use general_pod_autoscaler.Scaler.State.{GeneralController}
use general_pod_autoscaler.Scaler.Normalize.Rules.{HasBothRules}
use general_pod_autoscaler.Scaler.Events.{store_scale_event}

pub store_scale_event_total :
    (mark_now event_now : Time) (a : GeneralController)
    (behavior : Option GeneralPodAutoscalerBehavior) (key : String) (prev new : ℤ)
    → HasBothRules behavior
    → store_scale_event mark_now event_now a behavior key prev new ≢ none
unfolding store_scale_event
store_scale_event_total mark_now event_now a none key prev new has = some_ne_none
store_scale_event_total mark_now event_now a (some behavior) key prev new (up, down) =
    if_ne_none (ltb_ℤ prev new) _ _ (bind_ne_none behavior.scale_up _ up (λ rules. some_ne_none))
      (bind_ne_none behavior.scale_down _ down (λ rules. some_ne_none))
