-- ===== src/Reconcile/Replicas/Total.antt =====
-- The modes do not panic when their sources are populated.
use general_pod_autoscaler.Common.{
  ℕ, suc, List, [], ◌∷◌, All, Option, none, ◌≢◌, bind_ne_none, some_ne_none,
}
use general_pod_autoscaler.Common.Runtime.{Runtime}
use general_pod_autoscaler.Api.Extern.{K8s}
use general_pod_autoscaler.Api.Metrics.{MetricSpec}
use general_pod_autoscaler.Api.Autoscaler.{GeneralPodAutoscaler}
use general_pod_autoscaler.Replicas.Calculator.{ReplicaCalculator}
use general_pod_autoscaler.Reconcile.{Scale, Cluster, Clock, at_metric}
use general_pod_autoscaler.Reconcile.Metrics.{MetricResult}
use general_pod_autoscaler.Reconcile.Metrics.Each.Total.{
  IsPopulated, compute_replicas_for_metric_total,
}
use general_pod_autoscaler.Reconcile.Replicas.Effects.{by_cases}
use text.Mathlib.Text.{◌==◌ as str_eq}
use general_pod_autoscaler.Reconcile.Replicas.{
  Process, Computation, Tally, tally_metric, tally_all, no_tally, with_scale_selector,
  compute_replicas_for_metrics,
}

module _ {k : K8s} (rt : Runtime) (w : Cluster k) (clock : Clock) (gpa : GeneralPodAutoscaler k)
    (scale : Scale) (process : Process) where
  pub with_scale_selector_total :
      (f : w.Selector → Option (Computation k))
      → ((s : w.Selector) → f s ≢ none)
      → with_scale_selector rt w clock gpa scale process f ≢ none
  unfolding with_scale_selector
  with_scale_selector_total f total =
      by_cases rt w clock gpa scale process (λ o. o ≢ none) (str_eq scale.status_selector "")
        (w.parse_selector scale.status_selector) _ _ f some_ne_none (λ e. some_ne_none) total

  pub tally_all_total :
      (compute : ℕ → MetricSpec k → Option (MetricResult k)) (i : ℕ) (specs : List (MetricSpec k))
      (t : Tally k)
      → ((j : ℕ) (spec : MetricSpec k) → IsPopulated spec → compute j spec ≢ none)
      → All IsPopulated specs
      → tally_all compute i specs t ≢ none
  unfolding tally_all
  tally_all_total compute i [] t total all = some_ne_none
  tally_all_total compute i (spec ∷ rest) t total (one, all) =
      bind_ne_none (compute i spec) _ (total i spec one)
        (λ r. tally_all_total compute (suc i) rest (tally_metric t r) total all)

  pub compute_replicas_for_metrics_total :
      (c : ReplicaCalculator rt) (specs : List (MetricSpec k))
      → All IsPopulated specs
      → compute_replicas_for_metrics rt w clock gpa scale process c specs ≢ none
  unfolding compute_replicas_for_metrics
  compute_replicas_for_metrics_total c specs all = with_scale_selector_total _ λ selector.
      bind_ne_none _ _
        (tally_all_total _ 0 specs no_tally
          (λ j spec one.
            compute_replicas_for_metric_total rt w c (clock (at_metric j)) (w.client j) gpa selector
              scale.spec_replicas scale.status_replicas spec one)
          all)
        (λ t. some_ne_none)
