-- ===== src/Scaler/Recommendations/Stable.antt =====
-- What the stabilization guarantees, and what it keeps of the earlier recommendations.
use general_pod_autoscaler.Common.{
  ℕ, ◌≡◌, refl, ◌≢◌, ◌⊎◌, String, Option, none, some, All, get_elem?, last_index, replace_or_append,
  replace_or_append_keeps, replace_or_append_has, Bool-cases, inl, inr,
}
use general_pod_autoscaler.Common.Int.{ℤ, ◌≤ℤ◌, ◌<ℤ◌, ◌-ℤ◌, ≤ℤ→ltb_ℤ, ≤ℤ→leb_ℤ, <ℤ→leb_ℤ, leb_ℤ}
use general_pod_autoscaler.Common.Dict.{items, insert, items-insert_self, items-insert_ne}
use general_pod_autoscaler.Api.Extern.{Time}
use general_pod_autoscaler.Api.Behavior.{GpaScalingRules}
use general_pod_autoscaler.Scaler.Limits.{max, min}
use general_pod_autoscaler.Scaler.State.{TimestampedRecommendation, GeneralController, seconds}
use general_pod_autoscaler.Scaler.Policies.{NormalizationArg}
use general_pod_autoscaler.Scaler.Recommendations.{
  stabilize_recommendation, window_seconds, stabilize_recommendation_with_behaviors,
}
use general_pod_autoscaler.Scaler.Recommendations.Scan.{
  is_before, IsOneOf, IsFresh, IsRecent, scan_stabilize_index, scan_stabilize_max,
  scan_behaviors_index, scan_behaviors_best, min-IsChoice, max-IsChoice,
}

-- Without a behaviour: the stabilized recommendation is the largest of the new one and of the
-- earlier ones that are within the window. It is at least each of these, and it is one of them.
pub stabilize_recommendation_max :
    (now store_now : Time) (key : String) (desired : ℤ) (a : GeneralController)
    → let r = (stabilize_recommendation now store_now key desired a).0 in
      let fresh = IsFresh (now -ℤ a.downscale_stabilisation_window) in
      let recs = items key a.recommendations in
      (desired ≤ℤ r)
      × All (λ rec. fresh rec → rec.recommendation ≤ℤ r) recs
      × ((r ≡ desired) ⊎ IsOneOf fresh r recs)
unfolding stabilize_recommendation
stabilize_recommendation_max now store_now key desired a =
    scan_stabilize_max (now -ℤ a.downscale_stabilisation_window) 0 desired none
      (items key a.recommendations)

-- What became of the recommendations of a key: those that are not before the cutoff keep their
-- place, the new one is among them, and the other keys and the scale events are as before.
pub record Keeps (key : String) (cutoff : Time) (new : TimestampedRecommendation)
    (a a' : GeneralController) : Type 0 where
  pub kept :
      (j : ℕ) (rec : TimestampedRecommendation)
      → get_elem? (items key a.recommendations) j ≡ some rec
      → cutoff ≤ℤ rec.timestamp
      → get_elem? (items key a'.recommendations) j ≡ some rec
  pub added : (j : ℕ) × (get_elem? (items key a'.recommendations) j ≡ some new)
  pub others : (j : String) → key ≢ j → items j a'.recommendations ≡ items j a.recommendations
  pub up_events : a'.scale_up_events ≡ a.scale_up_events
  pub down_events : a'.scale_down_events ≡ a.scale_down_events

store_recommendation-Keeps :
    (key : String) (cutoff : Time) (new : TimestampedRecommendation) (a : GeneralController)
    (found : Option ℕ)
    → found ≡ last_index (is_before cutoff) 0 none (items key a.recommendations)
    → Keeps key cutoff new a (record a {
      recommendations =
          insert key (replace_or_append found new (items key a.recommendations)) a.recommendations;
    })
store_recommendation-Keeps key cutoff new a found e =
    let recs = items key a.recommendations in
    let recs' = replace_or_append found new recs in
    record {
      kept = λ j rec at fresh.
          rw (items-insert_self key recs' a.recommendations, e)
            (replace_or_append_keeps (is_before cutoff) new recs j at
              (≤ℤ→ltb_ℤ rec.timestamp cutoff fresh));
      added =
          rw (items-insert_self key recs' a.recommendations, e)
            (replace_or_append_has (is_before cutoff) new recs);
      others = λ j ne. items-insert_ne key j recs' a.recommendations ne;
      up_events = refl;
      down_events = refl;
    }

-- Without a behaviour: the new recommendation is recorded with its time, no recommendation that
-- is still within the window is lost, and no other key and no scale event changes.
pub stabilize_recommendation-Keeps :
    (now store_now : Time) (key : String) (desired : ℤ) (a : GeneralController)
    → Keeps key
        (now -ℤ a.downscale_stabilisation_window)
        (record { recommendation = desired; timestamp = store_now })
        a
        (stabilize_recommendation now store_now key desired a).1
unfolding stabilize_recommendation
stabilize_recommendation-Keeps now store_now key desired a =
    store_recommendation-Keeps key (now -ℤ a.downscale_stabilisation_window) _ a _ (
      scan_stabilize_index (now -ℤ a.downscale_stabilisation_window) 0 desired none
        (items key a.recommendations))

module _ (obsolete_now now store_now : Time) (args : NormalizationArg) (a : GeneralController)
    (up_delay down_delay : ℤ) (up_is : window_seconds args.scale_up_behavior ≡ some up_delay)
    (down_is : window_seconds args.scale_down_behavior ≡ some down_delay) where
  -- With a behaviour that has both windows, and a desired count of at least the current one: the
  -- code has a result, which is the smallest of the desired count and of the recommendations
  -- newer than the window for scaling up. The new recommendation is recorded, and none is lost
  -- that is within the longer of the two windows.
  pub stabilize_with_behaviors_up :
      args.current_replicas ≤ℤ args.desired_replicas
      → let recent = IsRecent (now -ℤ seconds up_delay) in
        let recs = items args.key a.recommendations in
        (r : (ℤ × String × String) × GeneralController) × (stabilize_recommendation_with_behaviors
            obsolete_now now store_now args a
          ≡ some r)
        × (r.0.0 ≤ℤ args.desired_replicas)
        × All (λ rec. recent rec → r.0.0 ≤ℤ rec.recommendation) recs
        × ((r.0.0 ≡ args.desired_replicas) ⊎ IsOneOf recent r.0.0 recs)
        × Keeps args.key
            (obsolete_now -ℤ seconds (max up_delay down_delay))
            (record { recommendation = args.desired_replicas; timestamp = store_now })
            a
            r.1
  unfolding stabilize_recommendation_with_behaviors
  stabilize_with_behaviors_up up =
      let cutoff = now -ℤ seconds up_delay in
      let obsolete = obsolete_now -ℤ seconds (max up_delay down_delay) in
      let recs = items args.key a.recommendations in
      let (low, covers, picked) =
        scan_behaviors_best ◌≤ℤ◌ min min-IsChoice cutoff obsolete 0 args.desired_replicas none
          recs in
      rw (≤ℤ→leb_ℤ args.current_replicas args.desired_replicas up, up_is, down_is)
        (
          _,
          refl,
          low,
          covers,
          picked,
          store_recommendation-Keeps args.key obsolete _ a _
              (scan_behaviors_index min cutoff obsolete 0 args.desired_replicas none recs),
        )

  -- With such a behaviour and a desired count below the current one: the result is the largest of
  -- the desired count and of the recommendations newer than the window for scaling down.
  pub stabilize_with_behaviors_down :
      args.desired_replicas <ℤ args.current_replicas
      → let recent = IsRecent (now -ℤ seconds down_delay) in
        let recs = items args.key a.recommendations in
        (r : (ℤ × String × String) × GeneralController) × (stabilize_recommendation_with_behaviors
            obsolete_now now store_now args a
          ≡ some r)
        × (args.desired_replicas ≤ℤ r.0.0)
        × All (λ rec. recent rec → rec.recommendation ≤ℤ r.0.0) recs
        × ((r.0.0 ≡ args.desired_replicas) ⊎ IsOneOf recent r.0.0 recs)
        × Keeps args.key
            (obsolete_now -ℤ seconds (max up_delay down_delay))
            (record { recommendation = args.desired_replicas; timestamp = store_now })
            a
            r.1
  unfolding stabilize_recommendation_with_behaviors
  stabilize_with_behaviors_down down =
      let cutoff = now -ℤ seconds down_delay in
      let obsolete = obsolete_now -ℤ seconds (max up_delay down_delay) in
      let recs = items args.key a.recommendations in
      let (high, covers, picked) =
        scan_behaviors_best (λ a b. b ≤ℤ a) max max-IsChoice cutoff obsolete 0 args.desired_replicas
          none recs in
      rw (<ℤ→leb_ℤ args.current_replicas args.desired_replicas down, up_is, down_is)
        (
          _,
          refl,
          high,
          covers,
          picked,
          store_recommendation-Keeps args.key obsolete _ a _
              (scan_behaviors_index max cutoff obsolete 0 args.desired_replicas none recs),
        )

-- A result of the stabilization is there, whatever it is.
pub stabilize_total :
    (obsolete_now now store_now : Time) (args : NormalizationArg) (a : GeneralController)
    (up down : GpaScalingRules) (up_delay down_delay : ℤ)
    → args.scale_up_behavior ≡ some up
    → up.stabilization_window_seconds ≡ some up_delay
    → args.scale_down_behavior ≡ some down
    → down.stabilization_window_seconds ≡ some down_delay
    → (r : (ℤ × String × String) × GeneralController) × (stabilize_recommendation_with_behaviors
          obsolete_now now store_now args a
        ≡ some r)
unfolding stabilize_recommendation_with_behaviors
stabilize_total obsolete_now now store_now args a up down up_delay down_delay eu wu ed wd =
    elim (Bool-cases (leb_ℤ args.current_replicas args.desired_replicas)) [
      | inl at_least ↦ rw (at_least, eu, wu, ed, wd) (_, refl)
      | inr below ↦ rw (below, eu, wu, ed, wd) (_, refl)
    ]
