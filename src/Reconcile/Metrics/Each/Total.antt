-- ===== src/Reconcile/Metrics/Each/Total.antt =====
-- A metric whose source is populated does not panic.
use general_pod_autoscaler.Common.{
  ℕ, String, Option, none, some, ◌≡◌, ◌≢◌, true, bind_ne_none, bind_total, if_total, some_ne_none,
}
use general_pod_autoscaler.Common.Int.{ℤ}
use general_pod_autoscaler.Common.Runtime.{Runtime}
use general_pod_autoscaler.Api.Extern.{K8s, Time}
use general_pod_autoscaler.Api.Metrics.{
  MetricSpec, ObjectMetricSource, PodsMetricSource, object_metric_source_type,
  pods_metric_source_type, resource_metric_source_type, container_resource_metric_source_type,
  external_metric_source_type,
}
use general_pod_autoscaler.Api.Autoscaler.{GeneralPodAutoscaler}
use general_pod_autoscaler.ScalerCore.Errors.{Result, ok, err}
use general_pod_autoscaler.Replicas.Calculator.{ReplicaCalculator}
use general_pod_autoscaler.Reconcile.{MetricsClient, Cluster}
use general_pod_autoscaler.Reconcile.Metrics.{MetricResult}
use general_pod_autoscaler.Reconcile.Metrics.Kinds.Total.{
  HasObjectTarget, object_metric_total, pods_metric_total,
}
use general_pod_autoscaler.Reconcile.Metrics.Resources.Total.{
  resource_metric_total, container_resource_metric_total,
}
use general_pod_autoscaler.Reconcile.Metrics.Each.{
  with_selector, object_metric, pods_metric, compute_replicas_for_metric,
}
use text.Mathlib.Text.{◌==◌ as str_eq}

abbrev pub IsOfType : {k : K8s} → MetricSpec k → String → Type 0
IsOfType spec type = str_eq spec.type type ≡ true

-- The source of the metric's type is there, with the value that its target needs. (A source that
-- is there for another type is not read.)
pub record IsPopulated {k : K8s} (spec : MetricSpec k) : Type 0 where
  pub object : IsOfType spec object_metric_source_type → spec.object ≢ none
  pub object_target : (s : ObjectMetricSource k) → spec.object ≡ some s → HasObjectTarget s
  pub pods : IsOfType spec pods_metric_source_type → spec.pods ≢ none
  pub pods_target : (s : PodsMetricSource k) → spec.pods ≡ some s → s.target.average_value ≢ none
  pub resource : IsOfType spec resource_metric_source_type → spec.resource ≢ none
  pub container :
      IsOfType spec container_resource_metric_source_type → spec.container_resource ≢ none
  pub external : IsOfType spec external_metric_source_type → spec.external ≢ none

module _ {k : K8s} (rt : Runtime) (w : Cluster k) (c : ReplicaCalculator rt) (clock : ℕ → Time)
    (client : MetricsClient k w.Selector) (gpa : GeneralPodAutoscaler k)
    (selector : w.Selector) where
  with_selector_total :
      (reason format : String) (r : Result w.Selector) (f : w.Selector → Option (MetricResult k))
      → ((s : w.Selector) → f s ≢ none)
      → with_selector rt w c clock client gpa selector reason format r f ≢ none
  unfolding with_selector
  with_selector_total reason format (err e) f total = some_ne_none
  with_selector_total reason format (ok s) f total =
      bind_ne_none (f s) _ (total s) (λ r. some_ne_none)

  -- The replicas for a metric whose source is populated are computed without a panic: there is a
  -- count, or an error with its condition.
  pub compute_replicas_for_metric_total :
      (spec_replicas status_replicas : ℤ) (spec : MetricSpec k)
      → IsPopulated spec
      → compute_replicas_for_metric rt w c clock client gpa selector spec_replicas status_replicas
          spec
        ≢ none
  unfolding compute_replicas_for_metric object_metric pods_metric
  compute_replicas_for_metric_total spec_replicas status_replicas spec has =
      if_total (str_eq spec.type object_metric_source_type) _ _
        (λ t. bind_total spec.object _ (has.object t) λ s e. with_selector_total _ _ _ _ λ m.
          object_metric_total rt w c clock client gpa selector spec_replicas status_replicas s m
            (has.object_target s e))
        (λ _.
          if_total (str_eq spec.type pods_metric_source_type) _ _
            (λ t. bind_total spec.pods _ (has.pods t) λ s e. with_selector_total _ _ _ _ λ m.
              pods_metric_total rt w c clock client gpa selector spec_replicas s m
                (has.pods_target s e))
            (λ _.
              if_total (str_eq spec.type resource_metric_source_type) _ _
                (λ t.
                  bind_ne_none spec.resource _ (has.resource t)
                    (resource_metric_total rt w c clock client gpa selector spec_replicas))
                (λ _.
                  if_total (str_eq spec.type container_resource_metric_source_type) _ _
                    (λ t. bind_ne_none spec.container_resource _ (has.container t) (
                      container_resource_metric_total rt w c clock client gpa selector
                        spec_replicas))
                    (λ _.
                      if_total (str_eq spec.type external_metric_source_type) _ _
                        (λ t. bind_ne_none spec.external _ (has.external t) (λ s. some_ne_none))
                        (λ _. some_ne_none)))))
