-- ===== src/Reconcile/Metrics/Kinds.antt =====
-- Metrics of objects and of pods, and what the kinds of metric share.
pub mod Total
use text.Mathlib.Text.{◌==◌ as str_eq}
use general_pod_autoscaler.Common.{
  ℕ, String, Bool, List, [], ◌∷◌, Option, some, ◌>>=◌, if◌then◌else◌,
}
use general_pod_autoscaler.Common.Int.{ℤ}
use general_pod_autoscaler.Common.Runtime.{FmtArg, Runtime}
use general_pod_autoscaler.Api.Extern.{K8s, Time}
use general_pod_autoscaler.Api.Metrics.{
  CrossVersionObjectReference, MetricIdentifier, ObjectMetricSource, PodsMetricSource,
  ResourceMetricSource, ExternalMetricSource, MetricStatus, MetricValueStatus, value_metric_type,
  average_value_metric_type, object_metric_source_type, pods_metric_source_type,
  resource_metric_source_type, external_metric_source_type,
}
use general_pod_autoscaler.Api.Autoscaler.{GeneralPodAutoscaler, GeneralPodAutoscalerCondition}
use general_pod_autoscaler.ScalerCore.Errors.{GoError, message, Result, err, unchanged}
use general_pod_autoscaler.Replicas.Pods.{Pod}
use general_pod_autoscaler.Replicas.Calculator.{ReplicaCalculator}
use general_pod_autoscaler.Replicas.Queries.{
  get_metric_replicas, get_object_metric_replicas, get_object_per_pod_metric_replicas, because,
}
use general_pod_autoscaler.Reconcile.{Event, MetricsClient, Cluster}
use general_pod_autoscaler.Reconcile.Metrics.{
  MetricResult, computed, blank_status, value_status, average_value_status, finish,
  get_unable_compute_replica_count_condition,
}

module _ {k : K8s} (rt : Runtime) (w : Cluster k) where
  -- The condition of a failure, and the names of metrics in the messages.
  abbrev pub unable : String → GoError → Event × GeneralPodAutoscalerCondition
  unable = get_unable_compute_replica_count_condition rt w

  abbrev pub name_of : String → String → String
  name_of format name = rt.sprintf format (FmtArg.str name ∷ [])

  abbrev pub external_name : MetricIdentifier k → String
  external_name metric =
      rt.sprintf "external metric %s(%+v)"
        (FmtArg.str metric.name ∷ FmtArg.str (w.show_selector metric.selector) ∷ [])

  abbrev pub utilization_name : String → Bool → String
  utilization_name name by_limits =
      rt.sprintf "%s resource utilization (percentage of %s)"
        (FmtArg.str name ∷ FmtArg.str (if by_limits then "limit" else "request") ∷ [])

  abbrev pub invalid_resource : String
  invalid_resource =
      "invalid resource metric source: neither a utilization target nor a value target was set"

  -- The statuses that are written.
  abbrev object_status :
      ObjectMetricSource k → CrossVersionObjectReference → MetricValueStatus k → MetricStatus k
  object_status source described current = record blank_status {
    type = object_metric_source_type;
    object =
        some (record { metric = source.metric; current = current; described_object = described });
  }

  abbrev pub resource_status : ResourceMetricSource k → MetricValueStatus k → MetricStatus k
  resource_status source current = record blank_status {
    type = resource_metric_source_type;
    resource = some (record { name = source.name; current = current });
  }

  abbrev pub external_status : ExternalMetricSource k → MetricValueStatus k → MetricStatus k
  external_status source current = record blank_status {
    type = external_metric_source_type;
    external = some (record { metric = source.metric; current = current });
  }

  module _ (c : ReplicaCalculator rt) (clock : ℕ → Time) (client : MetricsClient k w.Selector)
      (gpa : GeneralPodAutoscaler k) (selector : w.Selector) where
    abbrev pub pods : Result (List (Pod k))
    pods = client.list_pods gpa.namespace selector

    -- The two types of target of an object; the status of the second has no object.
    object_value : ℤ → ObjectMetricSource k → Result ℤ → k.Quantity → MetricResult k
    object_value spec_replicas source asked target =
        finish (unable "FailedGetObjectMetric") unchanged
          (λ p.
            computed p.replica_count
              (rt.sprintf "%s metric %s"
                (FmtArg.str source.described_object.kind ∷ FmtArg.str source.metric.name ∷ []))
              (object_status source source.described_object (value_status p.utilization)))
          (get_object_metric_replicas rt c clock asked spec_replicas (k.milli_value target) pods)

    object_average : ℤ → ObjectMetricSource k → Result ℤ → k.Quantity → MetricResult k
    object_average status_replicas source asked target =
        finish (unable "FailedGetObjectMetric") (because "failed to get %s object metric: %v")
          (λ p. computed p.replica_count (external_name source.metric) (
            object_status source (record { kind = ""; name = ""; api_version = "" })
              (average_value_status p.utilization)))
          (get_object_per_pod_metric_replicas rt c asked status_replicas (k.milli_value target))

    pub compute_status_for_object_metric :
        ℤ → ℤ → ObjectMetricSource k → w.Selector → Option (MetricResult k)
    unfolding object_value object_average
    compute_status_for_object_metric spec_replicas status_replicas source metric_selector =
        let asked : Result ℤ =
          client.get_object_metric source.metric.name gpa.namespace source.described_object
            metric_selector in
        if str_eq source.target.type value_metric_type
        then (source.target.value
            >>= (λ target. some (object_value spec_replicas source asked target)))
        else if str_eq source.target.type average_value_metric_type
        then (source.target.average_value
            >>= (λ target. some (object_average status_replicas source asked target)))
        else some (
            finish {P = ℤ} (unable "FailedGetObjectMetric") unchanged
              (λ p. computed p "" blank_status)
              (err (
                message
                  "invalid object metric source: neither a value target nor an average value target was set")))

    pub compute_status_for_pods_metric :
        ℤ → PodsMetricSource k → w.Selector → Option (MetricResult k)
    compute_status_for_pods_metric current_replicas source metric_selector =
        source.target.average_value >>= (λ target.
          get_metric_replicas rt c clock
            (client.get_raw_metric source.metric.name gpa.namespace selector metric_selector) pods
            current_replicas (k.milli_value target)
          >>= (λ proposal. some (
              finish (unable "FailedGetPodsMetric") unchanged
                (λ p.
                  computed p.replica_count (name_of "pods metric %s" source.metric.name)
                    (record blank_status {
                      type = pods_metric_source_type;
                      pods = some (record {
                        metric = source.metric;
                        current = average_value_status p.utilization;
                      });
                    }))
                proposal)))
