-- ===== src/Scaler/Events/Store.antt =====
-- `storeScaleEvent`: what it changes, and what it keeps.
use general_pod_autoscaler.Common.{ℕ, ◌≡◌, refl, ◌≢◌, some, String, All, get_elem?, ap, ◌∙◌}
use general_pod_autoscaler.Common.Int.{ℤ, ◌≤ℤ◌, ◌<ℤ◌, ◌-ℤ◌, ◌+ℤ◌, <ℤ→ltb_ℤ, ≤ℤ→ltb_ℤ, +ℤ_comm}
use general_pod_autoscaler.Common.Machine.{IsInt32, wrap32, wrap32-wrap32_add}
use general_pod_autoscaler.Common.Dict.{items, items-insert_self, items-insert_ne}
use general_pod_autoscaler.Api.Extern.{Time}
use general_pod_autoscaler.Api.Behavior.{
  GpaScalingPolicy, GpaScalingRules, GeneralPodAutoscalerBehavior,
}
use general_pod_autoscaler.Scaler.State.{GeneralController, seconds}
use general_pod_autoscaler.Scaler.Policies.{get_replicas_change_per_period}
use general_pod_autoscaler.Scaler.Events.{
  get_longest_policy_period, record_event, store_scale_event,
}
use general_pod_autoscaler.Scaler.Events.Account.{MarksAreOld, record_event-counts}

-- Only the events of this key, in the direction that grew, are new.
abbrev pub OnlyUpChanged : String → GeneralController → GeneralController → Type 0
OnlyUpChanged key a a' =
    (a'.scale_down_events ≡ a.scale_down_events)
    × (a'.recommendations ≡ a.recommendations)
    × ((j : String) → key ≢ j → items j a'.scale_up_events ≡ items j a.scale_up_events)

abbrev pub OnlyDownChanged : String → GeneralController → GeneralController → Type 0
OnlyDownChanged key a a' =
    (a'.scale_up_events ≡ a.scale_up_events)
    × (a'.recommendations ≡ a.recommendations)
    × ((j : String) → key ≢ j → items j a'.scale_down_events ≡ items j a.scale_down_events)

change_last :
    (old new prev : ℤ) → wrap32 (old +ℤ wrap32 (new -ℤ prev)) ≡ wrap32 (old +ℤ (new -ℤ prev))
change_last old new prev =
    ap wrap32 (+ℤ_comm old (wrap32 (new -ℤ prev)))
    ∙ wrap32-wrap32_add (new -ℤ prev) old
    ∙ ap wrap32 (+ℤ_comm (new -ℤ prev) old)

module _ (mark_now event_now now : Time) (a : GeneralController)
    (behavior : GeneralPodAutoscalerBehavior) (key : String) (prev new : ℤ)
    (rules : GpaScalingRules) (policy : GpaScalingPolicy) (i : ℕ)
    (listed : get_elem? rules.policies i ≡ some policy)
    (fits : All (λ p. IsInt32 p.period_seconds) rules.policies) (ordered : mark_now ≤ℤ now)
    (recent : now -ℤ seconds policy.period_seconds <ℤ event_now) where
  -- A recorded scale-up counts: for every policy of the rules, and at any later time within the
  -- policy's period, the change over the period is what it was before plus the replicas added, in
  -- 32 bits. No other state changes. (The entries that are reused were marked as outdated when
  -- they had left the longest period.)
  pub store_scale_event_up :
      behavior.scale_up ≡ some rules
      → prev <ℤ new
      → MarksAreOld
          (mark_now -ℤ seconds (get_longest_policy_period rules))
          (items key a.scale_up_events)
      → (a' : GeneralController) × (store_scale_event mark_now event_now a
            (some behavior)
            key
            prev
            new
          ≡ some a')
        × (get_replicas_change_per_period now policy.period_seconds (items key a'.scale_up_events)
            ≡ wrap32 (
                get_replicas_change_per_period now policy.period_seconds
                  (items key a.scale_up_events)
                +ℤ (new -ℤ prev)))
        × OnlyUpChanged key a a'
  unfolding store_scale_event
  store_scale_event_up is up old =
      let events = items key a.scale_up_events in
      let longest = get_longest_policy_period rules in
      let change = wrap32 (new -ℤ prev) in
      let events' = record_event mark_now event_now longest change events in
      rw (<ℤ→ltb_ℤ prev new up, is)
        (
          _,
          refl,
          rw (items-insert_self key events' a.scale_up_events) (
              record_event-counts rules policy i mark_now event_now now change events listed fits
                ordered recent old
              ∙ change_last (get_replicas_change_per_period now policy.period_seconds events) new
                  prev),
          (refl, refl, λ j ne. items-insert_ne key j events' a.scale_up_events ne),
        )

  -- A recorded scale-down counts in the same way among the events that scale down; so does a call
  -- with an unchanged count.
  pub store_scale_event_down :
      behavior.scale_down ≡ some rules
      → new ≤ℤ prev
      → MarksAreOld
          (mark_now -ℤ seconds (get_longest_policy_period rules))
          (items key a.scale_down_events)
      → (a' : GeneralController) × (store_scale_event mark_now event_now a
            (some behavior)
            key
            prev
            new
          ≡ some a')
        × (get_replicas_change_per_period now policy.period_seconds (items key a'.scale_down_events)
            ≡ wrap32 (
                get_replicas_change_per_period now policy.period_seconds
                  (items key a.scale_down_events)
                +ℤ (prev -ℤ new)))
        × OnlyDownChanged key a a'
  unfolding store_scale_event
  store_scale_event_down is down old =
      let events = items key a.scale_down_events in
      let longest = get_longest_policy_period rules in
      let change = wrap32 (prev -ℤ new) in
      let events' = record_event mark_now event_now longest change events in
      rw (≤ℤ→ltb_ℤ prev new down, is)
        (
          _,
          refl,
          rw (items-insert_self key events' a.scale_down_events) (
              record_event-counts rules policy i mark_now event_now now change events listed fits
                ordered recent old
              ∙ change_last (get_replicas_change_per_period now policy.period_seconds events) prev
                  new),
          (refl, refl, λ j ne. items-insert_ne key j events' a.scale_down_events ne),
        )
