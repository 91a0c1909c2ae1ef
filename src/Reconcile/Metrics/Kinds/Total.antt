-- ===== src/Reconcile/Metrics/Kinds/Total.antt =====
-- Metrics of objects and pods that have the value of their target do not panic.
use general_pod_autoscaler.Common.{ℕ, none, ◌≡◌, ◌≢◌, true, bind_ne_none, if_total, some_ne_none}
use general_pod_autoscaler.Common.Int.{ℤ}
use general_pod_autoscaler.Common.Runtime.{Runtime}
use general_pod_autoscaler.Api.Extern.{K8s, Time}
use general_pod_autoscaler.Api.Metrics.{
  ObjectMetricSource, PodsMetricSource, value_metric_type, average_value_metric_type,
}
use general_pod_autoscaler.Api.Autoscaler.{GeneralPodAutoscaler}
use general_pod_autoscaler.Replicas.Calculator.{ReplicaCalculator}
use general_pod_autoscaler.Replicas.Queries.Total.{get_plain_replicas_total}
use general_pod_autoscaler.Reconcile.{MetricsClient, Cluster}
use general_pod_autoscaler.Reconcile.Metrics.Kinds.{
  compute_status_for_object_metric, compute_status_for_pods_metric, pods,
}
use text.Mathlib.Text.{◌==◌ as str_eq}

-- The target has the value of its type.
pub record HasObjectTarget {k : K8s} (source : ObjectMetricSource k) : Type 0 where
  pub value : str_eq source.target.type value_metric_type ≡ true → source.target.value ≢ none
  pub average :
      str_eq source.target.type average_value_metric_type ≡ true
      → source.target.average_value ≢ none

module _ {k : K8s} (rt : Runtime) (w : Cluster k) (c : ReplicaCalculator rt) (clock : ℕ → Time)
    (client : MetricsClient k w.Selector) (gpa : GeneralPodAutoscaler k)
    (selector : w.Selector) where
  pub object_metric_total :
      (spec_replicas status_replicas : ℤ) (source : ObjectMetricSource k)
      (metric_selector : w.Selector)
      → HasObjectTarget source
      → compute_status_for_object_metric rt w c clock client gpa selector spec_replicas
          status_replicas source metric_selector
        ≢ none
  unfolding compute_status_for_object_metric
  object_metric_total spec_replicas status_replicas source metric_selector has =
      if_total (str_eq source.target.type value_metric_type) _ _
        (λ of_value. bind_ne_none source.target.value _ (has.value of_value) (λ v. some_ne_none))
        (λ other.
          if_total (str_eq source.target.type average_value_metric_type) _ _
            (λ of_average.
              bind_ne_none source.target.average_value _ (has.average of_average)
                (λ v. some_ne_none))
            (λ neither. some_ne_none))

  pub pods_metric_total :
      (spec_replicas : ℤ) (source : PodsMetricSource k) (metric_selector : w.Selector)
      → source.target.average_value ≢ none
      → compute_status_for_pods_metric rt w c clock client gpa selector spec_replicas source
          metric_selector
        ≢ none
  unfolding compute_status_for_pods_metric
  pods_metric_total spec_replicas source metric_selector has =
      bind_ne_none source.target.average_value _ has λ target.
        bind_ne_none _ _
          (get_plain_replicas_total rt c clock
            (client.get_raw_metric source.metric.name gpa.namespace selector metric_selector)
            (pods rt w c clock client gpa selector) spec_replicas (k.milli_value target) "").1
          (λ p. some_ne_none)
