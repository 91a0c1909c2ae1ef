-- ===== src/Scaler/Recommendations/Same.antt =====
-- The stabilization when no recommendation is above the desired count.
use general_pod_autoscaler.Common.{
  ◌≡◌, inl, inr, String, List, [], ◌∷◌, arith, subst, All, All-replace_or_append,
}
use general_pod_autoscaler.Common.Int.{ℤ, ◌≤ℤ◌}
use general_pod_autoscaler.Common.Dict.{items, items-insert_self}
use general_pod_autoscaler.Api.Extern.{Time}
use general_pod_autoscaler.Scaler.State.{TimestampedRecommendation, GeneralController}
use general_pod_autoscaler.Scaler.Recommendations.{stabilize_recommendation}
use general_pod_autoscaler.Scaler.Recommendations.Scan.{IsOneOf}
use general_pod_autoscaler.Scaler.Recommendations.Stable.{stabilize_recommendation_max}

-- No recommendation for the key is above `desired`.
abbrev pub NoneAbove : ℤ → String → GeneralController → Type 0
NoneAbove desired key a = All (λ rec. rec.recommendation ≤ℤ desired) (items key a.recommendations)

one_of-below :
    (P : TimestampedRecommendation → Type 0) (desired r : ℤ) (recs : List TimestampedRecommendation)
    → All (λ rec. rec.recommendation ≤ℤ desired) recs
    → IsOneOf P r recs
    → r ≤ℤ desired
one_of-below P desired r [] all one = absurd one
one_of-below P desired r (rec ∷ rest) (low, all) (inl (p, e)) = subst (λ x. x ≤ℤ desired) e low
one_of-below P desired r (rec ∷ rest) (low, all) (inr one) = one_of-below P desired r rest all one

-- So the stabilization keeps the desired count, and none is above it afterwards.
module _ (now store_now : Time) (key : String) (desired : ℤ) (a : GeneralController)
    (none_above : NoneAbove desired key a) where
  pub stabilized_same : (stabilize_recommendation now store_now key desired a).0 ≡ desired
  stabilized_same =
      let (above, _, picked) = stabilize_recommendation_max now store_now key desired a in
      elim picked [
        | inl same ↦ same
        | inr one ↦
            let below = one_of-below _ desired _ (items key a.recommendations) none_above one in
            ground arith
      ]

  pub stabilize-NoneAbove :
      NoneAbove desired key (stabilize_recommendation now store_now key desired a).1
  unfolding stabilize_recommendation
  stabilize-NoneAbove = rw (items-insert_self key _ a.recommendations) (
      All-replace_or_append (λ rec. rec.recommendation ≤ℤ desired) _ _ (items key a.recommendations)
        none_above (ground arith))
