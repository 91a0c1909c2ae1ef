-- ===== src/Reconcile/Metrics/Resources.antt =====
-- Metrics of resources, of one container's resources, and external metrics.
pub mod Total
use general_pod_autoscaler.Common.{ℕ, String, Bool, List, Option, none, some, ◌>>=◌}
use general_pod_autoscaler.Common.Int.{ℤ}
use general_pod_autoscaler.Common.Runtime.{Runtime}
use general_pod_autoscaler.Api.Extern.{K8s, Time}
use general_pod_autoscaler.Api.Metrics.{
  MetricTarget, ResourceMetricSource, ContainerResourceMetricSource, ExternalMetricSource,
  MetricValueStatus, container_resource_metric_source_type,
}
use general_pod_autoscaler.Api.Autoscaler.{GeneralPodAutoscaler}
use general_pod_autoscaler.ScalerCore.Errors.{message, Result, ok, err, then_do, unchanged}
use general_pod_autoscaler.Replicas.Calculator.{ReplicaCalculator}
use general_pod_autoscaler.Replicas.Queries.{
  get_resource_replicas, get_raw_resource_replicas, get_external_metric_replicas,
  get_external_per_pod_metric_replicas, because,
}
use general_pod_autoscaler.Reconcile.{MetricsClient, Cluster}
use general_pod_autoscaler.Reconcile.Metrics.{
  MetricResult, computed, blank_status, value_status, average_value_status, utilization_status,
  finish, is_compute_by_limits,
}
use general_pod_autoscaler.Reconcile.Metrics.Kinds.{
  unable, name_of, external_name, utilization_name, invalid_resource, resource_status,
  external_status, pods,
}

module _ {k : K8s} (rt : Runtime) (w : Cluster k) (c : ReplicaCalculator rt) (clock : ℕ → Time)
    (client : MetricsClient k w.Selector) (gpa : GeneralPodAutoscaler k)
    (selector : w.Selector) where
  -- The count, the value for the status and the name of the metric.
  abbrev pub Value : Type 0
  Value = ℤ × MetricValueStatus k × String

  -- The two targets of a resource.
  raw_value : ℤ → k.Quantity → String → String → Option (Result Value)
  raw_value current_replicas target name container =
      get_raw_resource_replicas rt c clock
        (client.get_resource_metric name gpa.namespace selector container)
        (pods rt w c clock client gpa selector) current_replicas (k.milli_value target) name
      >>= (λ proposal. some (
          then_do proposal (because "failed to get %s utilization: %v") λ p.
            ok (
              p.replica_count,
              average_value_status p.utilization,
              name_of rt w "%s resource" name,
            )))

  utilization_value : ℤ → ℤ → String → String → Bool → Option (Result Value)
  utilization_value current_replicas target name container by_limits =
      get_resource_replicas rt c clock
        (client.get_resource_metric name gpa.namespace selector container)
        (pods rt w c clock client gpa selector) current_replicas target name container by_limits
      >>= (λ proposal. some (
          then_do proposal (because "failed to get %s utilization: %v") λ p. ok (
            p.replica_count,
            utilization_status p.utilization p.raw_utilization,
            utilization_name rt w name by_limits,
          )))

  pub compute_status_for_resource_metric_generic :
      ℤ → MetricTarget k → String → String → Bool → Option (Result Value)
  unfolding raw_value utilization_value
  compute_status_for_resource_metric_generic current_replicas target name container by_limits =
      elim target.average_value [
        | some v ↦ raw_value current_replicas v name container
        | none ↦ elim target.average_utilization [
          | none ↦ some (err (message (invalid_resource rt w)))
          | some u ↦ utilization_value current_replicas u name container by_limits
        ]
      ]

  -- The code of the resource's own function repeats these queries, but the condition has the
  -- error without its context.
  raw_resource : ℤ → k.Quantity → ResourceMetricSource k → Option (MetricResult k)
  raw_resource current_replicas target source =
      get_raw_resource_replicas rt c clock
        (client.get_resource_metric source.name gpa.namespace selector "")
        (pods rt w c clock client gpa selector) current_replicas (k.milli_value target) source.name
      >>= (λ proposal. some (
          finish (unable rt w "FailedGetResourceMetric")
            (because "failed to get %s utilization: %v")
            (λ p.
              computed p.replica_count (name_of rt w "%s resource" source.name)
                (resource_status rt w source (average_value_status p.utilization)))
            proposal))

  utilization_resource : ℤ → ℤ → ResourceMetricSource k → Option (MetricResult k)
  utilization_resource current_replicas target source =
      get_resource_replicas rt c clock
        (client.get_resource_metric source.name gpa.namespace selector "")
        (pods rt w c clock client gpa selector) current_replicas target source.name ""
        (is_compute_by_limits gpa)
      >>= (λ proposal. some (
          finish (unable rt w "FailedGetResourceMetric")
            (because "failed to get %s utilization: %v")
            (λ p.
              computed p.replica_count
                (utilization_name rt w source.name (is_compute_by_limits gpa))
                (resource_status rt w source (utilization_status p.utilization p.raw_utilization)))
            proposal))

  pub compute_status_for_resource_metric : ℤ → ResourceMetricSource k → Option (MetricResult k)
  unfolding raw_resource utilization_resource
  compute_status_for_resource_metric current_replicas source = elim source.target.average_value [
    | some v ↦ raw_resource current_replicas v source
    | none ↦ elim source.target.average_utilization [
      | none ↦ some (
          finish {P = ℤ} (unable rt w "FailedGetResourceMetric") unchanged
            (λ p. computed p "" blank_status) (err (message (invalid_resource rt w))))
      | some u ↦ utilization_resource current_replicas u source
    ]
  ]

  pub compute_status_for_container_resource_metric :
      ℤ → ContainerResourceMetricSource k → Option (MetricResult k)
  unfolding compute_status_for_resource_metric_generic
  compute_status_for_container_resource_metric current_replicas source =
      compute_status_for_resource_metric_generic current_replicas source.target source.name
        source.container (is_compute_by_limits gpa)
      >>= (λ value. some (
          finish (unable rt w "FailedGetContainerResourceMetric") unchanged
            (λ v. computed v.0 v.2 (record blank_status {
              type = container_resource_metric_source_type;
              container_resource =
                  some (record { name = source.name; current = v.1; container = source.container });
            }))
            value))

  -- The metrics of an external source, which its selector must select.
  abbrev external_values : ExternalMetricSource k → w.Selector → Result (List ℤ)
  external_values source metric_selector =
      client.get_external_metric source.metric.name gpa.namespace metric_selector

  unfoldable pub compute_status_for_external_metric :
      ℤ → ℤ → ExternalMetricSource k → MetricResult k
  compute_status_for_external_metric spec_replicas status_replicas source =
      let metric_selector : Result w.Selector =
        w.label_selector_as_selector source.metric.selector in
      elim source.target.average_value [
        | some target ↦
            finish (unable rt w "FailedGetExternalMetric")
              (because "failed to get %s external metric: %v")
              (λ p.
                computed p.replica_count (external_name rt w source.metric)
                  (external_status rt w source (average_value_status p.utilization)))
              (get_external_per_pod_metric_replicas rt c metric_selector (external_values source)
                status_replicas (k.milli_value target))
        | none ↦ elim source.target.value [
          | some target ↦
              finish (unable rt w "FailedGetExternalMetric")
                (because "failed to get external metric %s: %v")
                (λ p.
                  computed p.replica_count (external_name rt w source.metric)
                    (external_status rt w source (value_status p.utilization)))
                (get_external_metric_replicas rt c clock metric_selector (external_values source)
                  spec_replicas (k.milli_value target) (pods rt w c clock client gpa selector))
          | none ↦
              finish {P = ℤ} (unable rt w "FailedGetExternalMetric") unchanged
                (λ p. computed p "" blank_status)
                (err (
                  message
                    "invalid external metric source: neither a value target nor an average value target was set"))
        ]
      ]
