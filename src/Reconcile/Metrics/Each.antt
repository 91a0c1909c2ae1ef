-- ===== src/Reconcile/Metrics/Each.antt =====
-- `computeReplicasForMetric`: the replicas for one metric of any type.
pub mod Total
use text.Mathlib.Text.{◌==◌ as str_eq}
use general_pod_autoscaler.Common.{ℕ, String, Option, some, ◌>>=◌, if◌then◌else◌}
use general_pod_autoscaler.Common.Int.{ℤ}
use general_pod_autoscaler.Common.Runtime.{Runtime}
use general_pod_autoscaler.Api.Extern.{K8s, Time}
use general_pod_autoscaler.Api.Metrics.{
  MetricSpec, ObjectMetricSource, PodsMetricSource, object_metric_source_type,
  pods_metric_source_type, resource_metric_source_type, container_resource_metric_source_type,
  external_metric_source_type,
}
use general_pod_autoscaler.Api.Autoscaler.{GeneralPodAutoscaler}
use general_pod_autoscaler.ScalerCore.Errors.{message, wrap, Result, ok, err, unchanged}
use general_pod_autoscaler.Replicas.Calculator.{ReplicaCalculator}
use general_pod_autoscaler.Replicas.Queries.{because}
use general_pod_autoscaler.Reconcile.{MetricsClient, Cluster}
use general_pod_autoscaler.Reconcile.Metrics.{MetricResult, computed, failed, blank_status, finish}
use general_pod_autoscaler.Reconcile.Metrics.Kinds.{
  unable, name_of, compute_status_for_object_metric, compute_status_for_pods_metric,
}
use general_pod_autoscaler.Reconcile.Metrics.Resources.{
  compute_status_for_resource_metric, compute_status_for_container_resource_metric,
  compute_status_for_external_metric,
}

-- The error of a metric that failed is returned in a new one.
pub in_context : {k : K8s} → String → MetricResult k → MetricResult k
in_context format (computed n name status) = computed n name status
in_context format (failed warning condition e) = failed warning condition (wrap e format)

module _ {k : K8s} (rt : Runtime) (w : Cluster k) (c : ReplicaCalculator rt) (clock : ℕ → Time)
    (client : MetricsClient k w.Selector) (gpa : GeneralPodAutoscaler k)
    (selector : w.Selector) where
  -- The selector of the metric, with the error where it is none.
  with_selector :
      String
      → String
      → Result w.Selector
      → (w.Selector → Option (MetricResult k))
      → Option (MetricResult k)
  with_selector reason format (err e) f = some (
      finish {P = ℤ} (unable rt w reason) (because format) (λ p. computed p "" blank_status)
        (err e))
  with_selector reason format (ok s) f = f s >>= (λ r. some (in_context format r))

  object_metric : ℤ → ℤ → ObjectMetricSource k → Option (MetricResult k)
  unfolding with_selector
  object_metric spec_replicas status_replicas source =
      with_selector "FailedGetObjectMetric" "failed to get object metric value: %v"
        (w.label_selector_as_selector source.metric.selector)
        (compute_status_for_object_metric rt w c clock client gpa selector spec_replicas
          status_replicas source)

  pods_metric : ℤ → PodsMetricSource k → Option (MetricResult k)
  unfolding with_selector
  pods_metric spec_replicas source =
      with_selector "FailedGetPodsMetric" "failed to get pods metric value: %v"
        (w.label_selector_as_selector source.metric.selector)
        (compute_status_for_pods_metric rt w c clock client gpa selector spec_replicas source)

  unfoldable pub compute_replicas_for_metric : ℤ → ℤ → MetricSpec k → Option (MetricResult k)
  unfolding object_metric pods_metric
  compute_replicas_for_metric spec_replicas status_replicas spec =
      if str_eq spec.type object_metric_source_type
      then (spec.object >>= object_metric spec_replicas status_replicas)
      else if str_eq spec.type pods_metric_source_type
      then (spec.pods >>= pods_metric spec_replicas)
      else if str_eq spec.type resource_metric_source_type
      then (spec.resource
          >>= compute_status_for_resource_metric rt w c clock client gpa selector spec_replicas)
      else if str_eq spec.type container_resource_metric_source_type
      then (spec.container_resource
          >>= compute_status_for_container_resource_metric rt w c clock client gpa selector
              spec_replicas)
      else if str_eq spec.type external_metric_source_type
      then (spec.external >>= (λ source. some (
          compute_status_for_external_metric rt w c clock client gpa selector spec_replicas
            status_replicas source)))
      else some (
          finish {P = ℤ} (unable rt w "InvalidMetricSourceType") unchanged
            (λ p. computed p "" blank_status)
            (err (message (name_of rt w "unknown metric source type %q" spec.type))))
