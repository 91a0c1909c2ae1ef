-- ===== src/Reconcile/Replicas/Judged.antt =====
-- What `computeReplicasForMetrics` returns, over all the metrics of an autoscaler.
use text.Mathlib.Text.{◌==◌ as str_eq}
use general_pod_autoscaler.Common.{
  ℕ, String, false, List, All, Option, some, ◌≡◌, ◌⊎◌, refl, arith, ap, sym, subst, if_cases, leb,
  leb→le, length, Option-cases, inl, inr,
}
use general_pod_autoscaler.Common.Int.{ℤ, pos, ◌≤ℤ◌}
use general_pod_autoscaler.Common.Runtime.{Runtime}
use general_pod_autoscaler.Api.Extern.{K8s}
use general_pod_autoscaler.Api.Metrics.{MetricSpec}
use general_pod_autoscaler.Api.Autoscaler.{GeneralPodAutoscaler}
use general_pod_autoscaler.ScalerCore.Errors.{GoError, Result, ok, err, ok_inj, err_ne_ok}
use general_pod_autoscaler.Replicas.Calculator.{ReplicaCalculator}
use general_pod_autoscaler.Reconcile.{Scale, Cluster, Clock, at_metric}
use general_pod_autoscaler.Reconcile.Metrics.{MetricResult}
use general_pod_autoscaler.Reconcile.Metrics.Each.{compute_replicas_for_metric}
use general_pod_autoscaler.Reconcile.Metrics.Each.Total.{
  IsPopulated, compute_replicas_for_metric_total,
}
use general_pod_autoscaler.Reconcile.Replicas.Largest.{
  AllCounts, IsCount, tally_all-IsLargest, tally_all_failures,
}
use general_pod_autoscaler.Reconcile.Replicas.Total.{tally_all_total}
use general_pod_autoscaler.Reconcile.Replicas.{
  Process, Computation, Tally, tally_all, no_tally, with_scale_selector, judge_tally, all_failed,
  one_computed, compute_replicas_for_metrics,
}

module _ {k : K8s} (rt : Runtime) (w : Cluster k) (clock : Clock) (gpa : GeneralPodAutoscaler k)
    (scale : Scale) (process : Process) (c : ReplicaCalculator rt) (selector : w.Selector) where
  -- The metric of number `i`.
  abbrev pub nth_metric : ℕ → MetricSpec k → Option (MetricResult k)
  nth_metric i =
      compute_replicas_for_metric rt w c (clock (at_metric i)) (w.client i) gpa selector
        scale.spec_replicas scale.status_replicas

  -- A count that is returned is the largest of the metrics' (or 0, where it starts); an error means
  -- that no metric has a count.
  pub record IsOverall (specs : List (MetricSpec k)) (result : Result (ℤ × String)) : Type 0 where
    pub largest :
        (n : ℤ) (name : String)
        → result ≡ ok (n, name)
        → AllCounts nth_metric (λ m. m ≤ℤ n) 0 specs × ((n ≡ pos 0) ⊎ IsCount nth_metric n 0 specs)
    pub none_left : (e : GoError) → result ≡ err e → AllCounts nth_metric (λ m. ⊥) 0 specs

  judge_tally-IsOverall :
      (specs : List (MetricSpec k)) (t : Tally k)
      → AllCounts nth_metric (λ n. pos 0 ≤ℤ n) 0 specs
      → tally_all nth_metric 0 specs no_tally ≡ some t
      → IsOverall specs (judge_tally rt w clock gpa scale process (length specs) t).result
  unfolding judge_tally all_failed one_computed
  judge_tally-IsOverall specs t nonneg e =
      let counts = tally_all-IsLargest nth_metric 0 specs no_tally t nonneg e in
      let failures = tally_all_failures nth_metric 0 specs no_tally t e in
      if_cases (leb (length specs) t.invalid_metrics_count)
        (λ (x : Computation k). IsOverall specs x.result) _ _
        (λ all. record {
          largest = λ n name h. absurd (err_ne_ok h);
          none_left = λ error h. failures.1 (let most = leb→le _ _ all in omega arith);
        })
        (λ some_left. record {
          largest = λ n name h.
              subst
                (λ x.
                  AllCounts nth_metric (λ m. m ≤ℤ x) 0 specs
                  × ((x ≡ pos 0) ⊎ IsCount nth_metric x 0 specs))
                (ap (λ x. x.0) (ok_inj h)) (counts.1, counts.2);
          none_left = λ error h. absurd (err_ne_ok (sym h));
        })

  -- When the selector of the scale is there and parses, the sources are populated and no metric asks
  -- for a count below 0: there is no panic, a count that is returned is the largest that a metric
  -- asks for (or 0), and an error is returned only when every metric fails. So a metric that fails
  -- does not keep the others from being used.
  pub metrics_largest :
      (specs : List (MetricSpec k))
      → str_eq scale.status_selector "" ≡ false
      → w.parse_selector scale.status_selector ≡ ok selector
      → All IsPopulated specs
      → AllCounts nth_metric (λ n. pos 0 ≤ℤ n) 0 specs
      → (m : Computation k) × (compute_replicas_for_metrics rt w clock gpa scale process c specs
          ≡ some m)
        × IsOverall specs m.result
  unfolding compute_replicas_for_metrics with_scale_selector
  metrics_largest specs selects parses populated nonneg =
      elim (Option-cases (tally_all nth_metric 0 specs no_tally)) [
        | inl nothing ↦ absurd (
            tally_all_total rt w clock gpa scale process nth_metric 0 specs no_tally
              (λ j spec one.
                compute_replicas_for_metric_total rt w c (clock (at_metric j)) (w.client j) gpa
                  selector scale.spec_replicas scale.status_replicas spec one)
              populated nothing)
        | inr (t, e) ↦
            rw (selects, parses, e, compute_replicas_for_metrics, with_scale_selector)
              (_, refl, judge_tally-IsOverall specs t nonneg e)
      ]
