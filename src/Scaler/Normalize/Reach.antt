-- ===== src/Scaler/Normalize/Reach.antt =====
-- Normalizations that desire the same count reach it.
use general_pod_autoscaler.Common.{
  ℕ, zero, suc, ◌≤◌, ◌≡◌, refl, ◌⊎◌, inl, inr, ◌+◌, String, arith, ap,
}
use general_pod_autoscaler.Common.Int.{ℤ, pos, pos_part, ◌≤ℤ◌, ◌<ℤ◌}
use general_pod_autoscaler.Common.Float.{IsIeee}
use general_pod_autoscaler.Common.Runtime.{Runtime}
use general_pod_autoscaler.Api.Extern.{K8s, Time}
use general_pod_autoscaler.Api.Autoscaler.{GeneralPodAutoscaler}
use general_pod_autoscaler.Scaler.State.{GeneralController}
use general_pod_autoscaler.Scaler.Limits.{convert_desired_replicas_with_rules}
use general_pod_autoscaler.Scaler.Limits.Reach.{closer}
use general_pod_autoscaler.Scaler.Recommendations.Same.{
  NoneAbove, stabilized_same, stabilize-NoneAbove,
}
use general_pod_autoscaler.Scaler.Normalize.{normalize_desired_replicas}
use general_pod_autoscaler.Scaler.Normalize.Rules.{normalize_desired_replicas-spec}

-- A count that grows from 0 or more grows by one at least.
climbs : (a b : ℤ) → pos 0 ≤ℤ a → a <ℤ b → suc (pos_part a) ≤ pos_part b
climbs a b h lt = ground arith

-- What is left to climb after a step.
progress :
    (n : ℕ) (desired lowest current r highest : ℤ)
    → pos 0 ≤ℤ lowest
    → lowest ≤ℤ desired
    → desired ≤ℤ highest
    → lowest ≤ℤ current
    → pos_part desired ≤ pos_part current + suc n
    → (r ≡ desired) ⊎ ((current <ℤ r) × (r <ℤ desired))
    → (lowest ≤ℤ r) × (r ≤ℤ highest) × (pos_part desired ≤ pos_part r + n)
progress n desired lowest current r highest nonneg lo hi above near (inl same) =
    rw same (lo, hi, omega arith)
progress n desired lowest current r highest nonneg lo hi above near (inr (up, short)) =
    let first = climbs current r (omega arith) up in (omega arith, omega arith, omega arith)

module _ {k : K8s} (rt : Runtime) (ieee : IsIeee rt.float) (clock : ℕ → ℕ → Time) (key : String)
    (desired lowest : ℤ) where
  -- The count after a number of normalizations with the same desired count: each takes over the
  -- autoscaler and the controller as the one before left them, and the count that it gave as the
  -- current one.
  pub count_after : ℕ → GeneralPodAutoscaler k → GeneralController → ℤ → ℤ
  count_after zero gpa a current = current
  count_after (suc n) gpa a current =
      let r = normalize_desired_replicas rt (clock n) gpa a key current desired lowest in
      count_after n r.1 r.2 r.0

  module _ (n : ℕ) (gpa : GeneralPodAutoscaler k) (a : GeneralController) (current : ℤ)
      (none_above : NoneAbove desired key a) where
    count-normalize :
        (normalize_desired_replicas rt (clock n) gpa a key current desired lowest).0
        ≡ (convert_desired_replicas_with_rules rt.float current desired lowest
            gpa.spec.max_replicas).0
    unfolding normalize_desired_replicas
    count-normalize = rw (stabilized_same (clock n 0) (clock n 1) key desired a none_above) refl

    normalize-NoneAbove :
        NoneAbove desired key
          (normalize_desired_replicas rt (clock n) gpa a key current desired lowest).2
    unfolding normalize_desired_replicas
    normalize-NoneAbove = stabilize-NoneAbove (clock n 0) (clock n 1) key desired a none_above

    closer_normalized :
        pos 0 ≤ℤ lowest
        → lowest ≤ℤ desired
        → desired ≤ℤ gpa.spec.max_replicas
        → lowest ≤ℤ current
        → current ≤ℤ pos 1073741823
        → let r = (normalize_desired_replicas rt (clock n) gpa a key current desired lowest).0 in
          (r ≡ desired) ⊎ ((current <ℤ r) × (r <ℤ desired))
    closer_normalized nonneg lo hi above small =
        rw count-normalize (
          closer rt.float ieee desired lowest gpa.spec.max_replicas current nonneg lo hi above
            small)

  -- Without a behaviour, for a minimum from 0 to the desired count, a desired count up to the
  -- maximum, a maximum of at most 1073741823 (half of the largest int32), and when no recommendation
  -- on record is above the desired count: from every count from the minimum to the maximum, as many
  -- normalizations with that desired count as it is above the current one, and one more (one, if it
  -- is not above), lead to the desired count exactly, whatever the times are. Each normalization
  -- takes over the state that the one before left, and its count as the current one.
  pub count_after_reaches :
      (n : ℕ) (gpa : GeneralPodAutoscaler k) (a : GeneralController) (current : ℤ)
      → pos 0 ≤ℤ lowest
      → lowest ≤ℤ desired
      → desired ≤ℤ gpa.spec.max_replicas
      → gpa.spec.max_replicas ≤ℤ pos 1073741823
      → NoneAbove desired key a
      → lowest ≤ℤ current
      → current ≤ℤ gpa.spec.max_replicas
      → pos_part desired ≤ pos_part current + n
      → count_after (suc n) gpa a current ≡ desired
  unfolding count_after
  count_after_reaches zero gpa a current nonneg lo hi small none_above above below near =
      elim (closer_normalized 0 gpa a current none_above nonneg lo hi above (omega arith)) [
        | inl reached ↦ reached
        | inr (up, short) ↦
            let first = climbs current _ (omega arith) up in
            let second = climbs _ desired (omega arith) short in absurd (omega arith)
      ]
  count_after_reaches (suc n) gpa a current nonneg lo hi small none_above above below near =
      let r = normalize_desired_replicas rt (clock (suc n)) gpa a key current desired lowest in
      let same =
        ap (λ s. s.max_replicas)
          (normalize_desired_replicas-spec rt (clock (suc n)) gpa a key current desired lowest) in
      let (above', below', near') =
        progress n desired lowest current r.0 gpa.spec.max_replicas nonneg lo hi above near
          (closer_normalized (suc n) gpa a current none_above nonneg lo hi above (omega arith)) in
      count_after_reaches n r.1 r.2 r.0 nonneg lo (rw same hi) (rw same small)
        (normalize-NoneAbove (suc n) gpa a current none_above) above' (rw same below') near'
