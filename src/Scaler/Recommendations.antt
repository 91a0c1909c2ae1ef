-- ===== src/Scaler/Recommendations.antt =====
-- The stabilization of recommendations: `recordInitialRecommendation`, `stabilizeRecommendation`,
-- `stabilizeRecommendationWithBehaviors` of pkg/scaler/general.go. Each reading of the clock is an
-- argument of its own; `none` is the panic of a nil pointer that is dereferenced.
pub mod Scan
pub mod Stable
pub mod Same
use general_pod_autoscaler.Common.{
  ℕ, suc, String, Bool, List, [], ◌∷◌, Option, none, some, ◌>>=◌, if◌then◌else◌, is_nil,
  replace_or_append,
}
use general_pod_autoscaler.Common.Int.{ℤ, pos, ltb_ℤ, leb_ℤ, ◌-ℤ◌}
use general_pod_autoscaler.Common.Dict.{items, lookup, insert}
use general_pod_autoscaler.Api.Extern.{Time}
use general_pod_autoscaler.Api.Behavior.{GpaScalingRules}
use general_pod_autoscaler.Scaler.Limits.{max, min}
use general_pod_autoscaler.Scaler.State.{TimestampedRecommendation, GeneralController, seconds}
use general_pod_autoscaler.Scaler.Policies.{NormalizationArg}

pub record_initial_recommendation : Time → ℤ → String → GeneralController → GeneralController
record_initial_recommendation now current_replicas key a =
    if is_nil (lookup key a.recommendations)
    then record a {
      recommendations =
          insert key (record { recommendation = current_replicas; timestamp = now } ∷ [])
            a.recommendations;
    }
    else a

-- The variables of the loop: the largest recommendation so far, and the index of the last entry
-- that is too old (`none` is `!foundOldSample`).
pub scan_stabilize : Time → ℕ → ℤ → Option ℕ → List TimestampedRecommendation → ℤ × Option ℕ
scan_stabilize cutoff i max_recommendation old_sample [] = (max_recommendation, old_sample)
scan_stabilize cutoff i max_recommendation old_sample (rec ∷ rest) =
    scan_stabilize cutoff (suc i)
      (if ltb_ℤ rec.timestamp cutoff
        then max_recommendation
        else if ltb_ℤ max_recommendation rec.recommendation
        then rec.recommendation
        else max_recommendation)
      (if ltb_ℤ rec.timestamp cutoff then some i else old_sample) rest

pub stabilize_recommendation : Time → Time → String → ℤ → GeneralController → ℤ × GeneralController
unfolding scan_stabilize
stabilize_recommendation now store_now key prenormalized_desired_replicas a =
    let recs = items key a.recommendations in
    let cutoff = now -ℤ a.downscale_stabilisation_window in
    let (max_recommendation, old_sample) =
      scan_stabilize cutoff 0 prenormalized_desired_replicas none recs in
    let rec : TimestampedRecommendation = record {
      recommendation = prenormalized_desired_replicas;
      timestamp = store_now;
    } in
    (
      max_recommendation,
      record a {
        recommendations = insert key (replace_or_append old_sample rec recs) a.recommendations;
      },
    )

-- `*rules.StabilizationWindowSeconds`
abbrev pub window_seconds : Option GpaScalingRules → Option ℤ
window_seconds rules = rules >>= λ r. r.stabilization_window_seconds

-- The loop with behaviours: `better` is `min` or `max`.
pub scan_behaviors :
    (ℤ → ℤ → ℤ) → Time → Time → ℕ → ℤ → Option ℕ → List TimestampedRecommendation → ℤ × Option ℕ
scan_behaviors better cutoff obsolete_cutoff i recommendation old_sample [] =
    (recommendation, old_sample)
scan_behaviors better cutoff obsolete_cutoff i recommendation old_sample (rec ∷ rest) =
    scan_behaviors better cutoff obsolete_cutoff (suc i)
      (if ltb_ℤ cutoff rec.timestamp
        then better rec.recommendation recommendation
        else recommendation)
      (if ltb_ℤ rec.timestamp obsolete_cutoff then some i else old_sample) rest

-- What the first `if` sets: the delay, the choice between recommendations, reason and message.
pub direction : NormalizationArg → Option (ℤ × (ℤ → ℤ → ℤ) × String × String)
direction args =
    if leb_ℤ args.current_replicas args.desired_replicas
    then window_seconds args.scale_up_behavior >>= (λ delay. some (
      delay, min, "ScaleUpStabilized",
      "recent recommendations were lower than current one, applying the lowest recent recommendation",
    ))
    else window_seconds args.scale_down_behavior >>= (λ delay. some (
      delay, max, "ScaleDownStabilized",
      "recent recommendations were higher than current one, applying the highest recent recommendation",
    ))

-- The clock is read for the obsolete cutoff, for the cutoff and for the new entry, in this order.
pub stabilize_recommendation_with_behaviors :
    Time
    → Time
    → Time
    → NormalizationArg
    → GeneralController
    → Option ((ℤ × String × String) × GeneralController)
unfolding scan_behaviors direction
stabilize_recommendation_with_behaviors obsolete_now now store_now args a = do
  (delay, better, reason, message) ← direction args
  up_delay ← window_seconds args.scale_up_behavior
  down_delay ← window_seconds args.scale_down_behavior
  let recs = items args.key a.recommendations
  let obsolete_cutoff = obsolete_now -ℤ seconds (max up_delay down_delay)
  let cutoff = now -ℤ seconds delay
  let scanned = scan_behaviors better cutoff obsolete_cutoff 0 args.desired_replicas none recs
  let rec : TimestampedRecommendation = record {
    recommendation = args.desired_replicas;
    timestamp = store_now;
  }
  some (
    (scanned.0, reason, message),
    record a {
      recommendations = insert args.key (replace_or_append scanned.1 rec recs) a.recommendations;
    },
  )
