-- ===== src/Clients/Rest.antt =====
-- The client of the metrics APIs (pkg/metrics/rest_metrics_client.go).
--
-- The clients of the resource, the custom and the external metrics API are other libraries: a
-- record of what they answer. The counts of the lists that they return are finite maps and
-- integers.
pub mod Sums
use text.Mathlib.Text.{◌==◌ as str_eq}
use general_pod_autoscaler.Common.{
  String, ◌&&◌, List, [], ◌∷◌, map, Option, none, some, if◌then◌else◌,
}
use general_pod_autoscaler.Common.Int.{ℤ, pos, ◌+ℤ◌}
use general_pod_autoscaler.Common.Machine.{wrap64}
use general_pod_autoscaler.Common.Dict.{Dict, lookup, insert}
use general_pod_autoscaler.Api.Extern.{K8s, Time}
use general_pod_autoscaler.Api.Metrics.{CrossVersionObjectReference}
use general_pod_autoscaler.ScalerCore.Errors.{message, Result, ok, err, then_do, unchanged}
use general_pod_autoscaler.Scaler.State.{seconds}
use general_pod_autoscaler.Replicas.Pods.{Pod, PodMetric, PodMetricsInfo}
use general_pod_autoscaler.Replicas.Queries.{because}
use general_pod_autoscaler.Reconcile.{MetricsClient}

-- metrics/v1beta1
pub record ContainerMetrics (k : K8s) : Type 0 where
  pub name : String
  pub usage : Dict k.Quantity

pub record PodMetrics (k : K8s) : Type 0 where
  pub name : String
  pub timestamp : Time
  pub window : ℤ
  pub containers : List (ContainerMetrics k)

-- custom_metrics/v1beta2: `described_object` is the name of the object.
pub record MetricValue (k : K8s) : Type 0 where
  pub described_object : String
  pub timestamp : Time
  pub window_seconds : Option ℤ
  pub value : k.Quantity

pub record ExternalMetricValue (k : K8s) : Type 0 where
  pub timestamp : Time
  pub value : k.Quantity

-- What the three clients answer, over a type of selectors. `split_group` is the group of
-- schema.FromAPIVersionAndKind.
pub record MetricsApis (k : K8s) (S : Type 0) : Type 0 where
  pub list_pod_metrics : String → S → Result (List (PodMetrics k))
  pub get_for_pods : String → S → String → S → Result (List (MetricValue k))
  pub split_group : String → String
  pub get_root_scoped : String → String → String → String → S → Result (MetricValue k)
  pub get_namespaced : String → String → String → String → String → S → Result (MetricValue k)
  pub list_external : String → String → S → Result (List (ExternalMetricValue k))

abbrev pub metric_server_default_metric_window : Time
metric_server_default_metric_window = pos 60000000000

module _ {k : K8s} where
  abbrev pub metric_of : PodMetrics k → ℤ → PodMetric
  metric_of m value = record { timestamp = m.timestamp; window = m.window; value = value }

  -- The first container of the name; the inner loop of `getContainerMetrics`.
  pub find_container : String → List (ContainerMetrics k) → Option (ContainerMetrics k)
  find_container container [] = none
  find_container container (c ∷ rest) =
      if str_eq c.name container then some c else find_container container rest

  -- The outer loop. A container without the resource gives its pod no metric.
  pub container_metrics :
      List (PodMetrics k) → String → String → PodMetricsInfo → Result PodMetricsInfo
  unfolding find_container
  container_metrics [] resource container res = ok res
  container_metrics (m ∷ rest) resource container res =
      elim (find_container container m.containers) [
        | none ↦ err (message "container %s not present in metrics for pod %s/%s")
        | some c ↦ container_metrics rest resource container (elim (lookup resource c.usage) [
          | none ↦ res
          | some q ↦ insert m.name (metric_of m (k.milli_value q)) res
        ])
      ]

  pub get_container_metrics : List (PodMetrics k) → String → String → Result PodMetricsInfo
  unfolding container_metrics
  get_container_metrics raw_metrics resource container =
      container_metrics raw_metrics resource container []

  -- The loop over the containers of a pod: the sum, or none when one lacks the resource.
  pub sum_containers : String → ℤ → List (ContainerMetrics k) → Option ℤ
  sum_containers resource pod_sum [] = some pod_sum
  sum_containers resource pod_sum (c ∷ rest) = elim (lookup resource c.usage) [
    | none ↦ none
    | some q ↦ sum_containers resource (wrap64 (pod_sum +ℤ k.milli_value q)) rest
  ]

  -- A pod without containers has no metric.
  pub pod_value : String → PodMetrics k → Option ℤ
  unfolding sum_containers
  pod_value resource m = elim m.containers [
    | [] ↦ none
    | c ∷ rest ↦ sum_containers resource (pos 0) (c ∷ rest)
  ]

  pub pod_metrics : List (PodMetrics k) → String → PodMetricsInfo → PodMetricsInfo
  unfolding pod_value
  pod_metrics [] resource res = res
  pod_metrics (m ∷ rest) resource res = pod_metrics rest resource (elim (pod_value resource m) [
    | none ↦ res
    | some value ↦ insert m.name (metric_of m value) res
  ])

  pub get_pod_metrics : List (PodMetrics k) → String → PodMetricsInfo
  unfolding pod_metrics
  get_pod_metrics raw_metrics resource = pod_metrics raw_metrics resource []

  pub custom_metrics : List (MetricValue k) → PodMetricsInfo → PodMetricsInfo
  custom_metrics [] res = res
  custom_metrics (m ∷ rest) res = custom_metrics rest (
      insert m.described_object
        (record {
          timestamp = m.timestamp;
          window = elim m.window_seconds [
            | none ↦ metric_server_default_metric_window
            | some n ↦ seconds n
          ];
          value = k.milli_value m.value;
        })
        res)

module _ {k : K8s} {S : Type 0} (apis : MetricsApis k S) where
  pub get_resource_metric : String → String → S → String → Result (PodMetricsInfo × Time)
  unfolding get_container_metrics get_pod_metrics
  get_resource_metric resource namespace selector container =
      then_do (apis.list_pod_metrics namespace selector)
        (because "unable to fetch metrics from resource metrics API: %v")
        λ items. elim items [
          | [] ↦ err (message "no metrics returned from resource metrics API")
          | m ∷ rest ↦
              if str_eq container ""
              then ok (get_pod_metrics (m ∷ rest) resource, m.timestamp)
              else then_do (get_container_metrics (m ∷ rest) resource container)
                  (because "failed to get container metrics: %v") λ res. ok (res, m.timestamp)
        ]

  pub get_raw_metric : String → String → S → S → Result (PodMetricsInfo × Time)
  unfolding custom_metrics
  get_raw_metric metric_name namespace selector metric_selector =
      then_do (apis.get_for_pods namespace selector metric_name metric_selector)
        (because "unable to fetch metrics from custom metrics API: %v")
        λ items. elim items [
          | [] ↦ err (message "no metrics returned from custom metrics API")
          | m ∷ rest ↦ ok (custom_metrics (m ∷ rest) [], m.timestamp)
        ]

  pub get_object_metric : String → String → CrossVersionObjectReference → S → Result (ℤ × Time)
  get_object_metric metric_name namespace object_ref metric_selector =
      let group : String = apis.split_group object_ref.api_version in
      then_do
        (if str_eq object_ref.kind "Namespace" && str_eq group ""
          then apis.get_root_scoped group object_ref.kind namespace metric_name metric_selector
          else apis.get_namespaced namespace group object_ref.kind object_ref.name metric_name
              metric_selector)
        (because "unable to fetch metrics from custom metrics API: %v")
        λ m. ok (k.milli_value m.value, m.timestamp)

  abbrev external_value : ExternalMetricValue k → ℤ
  external_value m = k.milli_value m.value

  pub get_external_metric : String → String → S → Result (List ℤ × Time)
  get_external_metric metric_name namespace selector =
      then_do (apis.list_external namespace metric_name selector)
        (because "unable to fetch metrics from external metrics API: %v")
        λ items. elim items [
          | [] ↦ err (message "no metrics returned from external metrics API")
          | m ∷ rest ↦ ok (map external_value (m ∷ rest), m.timestamp)
        ]

  -- The client as the controller asks it, without the time stamps, with a lister of pods.
  pub rest_metrics_client : (String → S → Result (List (Pod k))) → MetricsClient k S
  unfolding get_resource_metric get_raw_metric get_object_metric get_external_metric
  rest_metrics_client lister = record {
    get_resource_metric = λ r n s c. then_do (get_resource_metric r n s c) unchanged λ p. ok p.0;
    get_raw_metric = λ m n s t. then_do (get_raw_metric m n s t) unchanged λ p. ok p.0;
    get_object_metric = λ m n o s. then_do (get_object_metric m n o s) unchanged λ p. ok p.0;
    get_external_metric = λ m n s. then_do (get_external_metric m n s) unchanged λ p. ok p.0;
    list_pods = lister;
  }
