-- ===== src/Reconcile/Metrics/Resources/Total.antt =====
-- Metrics of resources never panic.
use general_pod_autoscaler.Common.{
  ℕ, String, Bool, Option, none, some, ◌≡◌, ◌≢◌, refl, bind_ne_none, some_ne_none,
}
use general_pod_autoscaler.Common.Int.{ℤ}
use general_pod_autoscaler.Common.Runtime.{Runtime}
use general_pod_autoscaler.Api.Extern.{K8s, Time}
use general_pod_autoscaler.Api.Metrics.{
  MetricTarget, ResourceMetricSource, ContainerResourceMetricSource,
}
use general_pod_autoscaler.Api.Autoscaler.{GeneralPodAutoscaler}
use general_pod_autoscaler.Replicas.Calculator.{ReplicaCalculator}
use general_pod_autoscaler.Replicas.Queries.Total.{
  get_resource_replicas_total, get_plain_replicas_total,
}
use general_pod_autoscaler.Reconcile.{MetricsClient, Cluster}
use general_pod_autoscaler.Reconcile.Metrics.{is_compute_by_limits}
use general_pod_autoscaler.Reconcile.Metrics.Kinds.{pods}
use general_pod_autoscaler.Reconcile.Metrics.Resources.{
  raw_value, utilization_value, compute_status_for_resource_metric_generic, raw_resource,
  utilization_resource, compute_status_for_resource_metric,
  compute_status_for_container_resource_metric,
}

module _ {k : K8s} (rt : Runtime) (w : Cluster k) (c : ReplicaCalculator rt) (clock : ℕ → Time)
    (client : MetricsClient k w.Selector) (gpa : GeneralPodAutoscaler k)
    (selector : w.Selector) where
  generic_total :
      (current : ℤ) (value : Option k.Quantity) (utilization : Option ℤ) (target : MetricTarget k)
      (name container : String) (by_limits : Bool)
      → target.average_value ≡ value
      → target.average_utilization ≡ utilization
      → compute_status_for_resource_metric_generic rt w c clock client gpa selector current target
          name container by_limits
        ≢ none
  unfolding compute_status_for_resource_metric_generic raw_value utilization_value
  generic_total current (some v) u target name container by_limits ev eu = rw ev (
      bind_ne_none _ _
        (get_plain_replicas_total rt c clock
          (client.get_resource_metric name gpa.namespace selector container)
          (pods rt w c clock client gpa selector) current (k.milli_value v) name).0
        (λ p. some_ne_none))
  generic_total current none (some u) target name container by_limits ev eu =
      rw (ev, eu)
        (bind_ne_none _ _
          (get_resource_replicas_total rt c clock
            (client.get_resource_metric name gpa.namespace selector container)
            (pods rt w c clock client gpa selector) current u name container by_limits)
          (λ p. some_ne_none))
  generic_total current none none target name container by_limits ev eu = rw (ev, eu) some_ne_none

  resource_total :
      (current : ℤ) (value : Option k.Quantity) (utilization : Option ℤ)
      (source : ResourceMetricSource k)
      → source.target.average_value ≡ value
      → source.target.average_utilization ≡ utilization
      → compute_status_for_resource_metric rt w c clock client gpa selector current source ≢ none
  unfolding compute_status_for_resource_metric raw_resource utilization_resource
  resource_total current (some v) u source ev eu = rw ev (
      bind_ne_none _ _
        (get_plain_replicas_total rt c clock
          (client.get_resource_metric source.name gpa.namespace selector "")
          (pods rt w c clock client gpa selector) current (k.milli_value v) source.name).0
        (λ p. some_ne_none))
  resource_total current none (some u) source ev eu =
      rw (ev, eu)
        (bind_ne_none _ _
          (get_resource_replicas_total rt c clock
            (client.get_resource_metric source.name gpa.namespace selector "")
            (pods rt w c clock client gpa selector) current u source.name ""
            (is_compute_by_limits gpa))
          (λ p. some_ne_none))
  resource_total current none none source ev eu = rw (ev, eu) some_ne_none

  pub resource_metric_total :
      (current : ℤ) (source : ResourceMetricSource k)
      → compute_status_for_resource_metric rt w c clock client gpa selector current source ≢ none
  resource_metric_total current source = resource_total current _ _ source refl refl

  pub container_resource_metric_total :
      (current : ℤ) (source : ContainerResourceMetricSource k)
      → compute_status_for_container_resource_metric rt w c clock client gpa selector current source
        ≢ none
  unfolding compute_status_for_container_resource_metric
  container_resource_metric_total current source =
      bind_ne_none _ _
        (generic_total current _ _ source.target source.name source.container
          (is_compute_by_limits gpa) refl refl)
        (λ v. some_ne_none)
