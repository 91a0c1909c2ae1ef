-- ===== src/Clients/Heapster.antt =====
-- The client of Heapster (pkg/metrics/legacy_metrics_client.go).
--
-- The proxy of the API server and JSON are other libraries. `none` is the panic of a division by
-- zero.
use general_pod_autoscaler.Common.{
  String, Bool, true, not, List, [], ◌∷◌, map, Option, none, some, ◌>>=◌, if◌then◌else◌, length,
  ◌==◌,
}
use general_pod_autoscaler.Common.Int.{ℤ, pos, negsuc, ◌+ℤ◌, ltb_ℤ}
use general_pod_autoscaler.Common.Machine.{wrap64}
use general_pod_autoscaler.Common.Dict.{Dict, lookup, insert}
use general_pod_autoscaler.Common.Runtime.{FmtArg, Runtime}
use general_pod_autoscaler.Api.Extern.{K8s, Time}
use general_pod_autoscaler.ScalerCore.Errors.{message, Result, ok, err, then_do}
use general_pod_autoscaler.ScalerCore.Cron.{zero_time}
use general_pod_autoscaler.Validation.Field.{is_empty}
use general_pod_autoscaler.Replicas.Pods.{Pod, PodMetricsInfo}
use general_pod_autoscaler.Replicas.Queries.{then_try, because}
use general_pod_autoscaler.Clients.Samples.{MetricPoint, collapse_time_samples}
use general_pod_autoscaler.Clients.Rest.{ContainerMetrics, PodMetrics, metric_of}

-- What the proxy of the service, the pods and the JSON decoder answer, over a type of selectors.
pub record HeapsterApis (k : K8s) (rt : Runtime) (S : Type 0) : Type 0 where
  pub proxy_get : String → Dict String → Result String
  pub list_pods : String → S → Result (List (Pod k))
  pub unmarshal_pod_metrics : String → Result (List (PodMetrics k))
  pub unmarshal_results : String → Result (List (List (MetricPoint rt)))
  pub show_selector : S → String
  pub show_time : Time → String
  pub join : List String → String

-- `heapsterQueryStart`, and `heapsterDefaultMetricWindow`.
abbrev pub heapster_query_start : Time
heapster_query_start = negsuc 299999999999

abbrev pub heapster_default_metric_window : Time
heapster_default_metric_window = pos 60000000000

module _ (rt : Runtime) where
  -- The oldest time so far.
  abbrev older : Option Time → Time → Option Time
  older timestamp t = elim timestamp [
    | none ↦ some t
    | some before ↦ some (if ltb_ℤ t before then t else before)
  ]

  -- The loop over the results, each of the pod whose name stands at the same place.
  pub collapse_all :
      List String
      → List (List (MetricPoint rt))
      → PodMetricsInfo
      → Option Time
      → Option (PodMetricsInfo × Option Time)
  collapse_all (name ∷ names) (samples ∷ rest) res timestamp =
      collapse_time_samples rt samples (pos 60000000000) >>= (λ collapsed. elim collapsed [
        | none ↦ collapse_all names rest res timestamp
        | some (value, t) ↦
            collapse_all names rest
              (insert name
                (record { timestamp = t; window = heapster_default_metric_window; value = value })
                res)
              (older timestamp t)
      ])
  collapse_all names results res timestamp = some (res, timestamp)

module _ {k : K8s} where
  -- The sum over the containers of a pod, with whether one lacks the resource.
  pub sum_containers : String → ℤ → Bool → List (ContainerMetrics k) → ℤ × Bool
  sum_containers resource pod_sum missing [] = (pod_sum, missing)
  sum_containers resource pod_sum missing (c ∷ rest) = elim (lookup resource c.usage) [
    | none ↦ sum_containers resource pod_sum true rest
    | some q ↦ sum_containers resource (wrap64 (pod_sum +ℤ k.milli_value q)) missing rest
  ]

  pub heapster_metrics : List (PodMetrics k) → String → PodMetricsInfo → PodMetricsInfo
  unfolding sum_containers
  heapster_metrics [] resource res = res
  heapster_metrics (m ∷ rest) resource res =
      let (pod_sum, missing) =
        sum_containers resource (pos 0) (is_empty m.containers) m.containers in
      heapster_metrics rest resource
        (if missing then res else insert m.name (metric_of m pod_sum) res)

module _ {k : K8s} {S : Type 0} (rt : Runtime) (apis : HeapsterApis k rt S) where
  abbrev pod_name : Pod k → String
  pod_name pod = pod.name

  pub get_resource_metric : String → String → S → String → Result (PodMetricsInfo × Time)
  unfolding heapster_metrics
  get_resource_metric resource namespace selector container =
      then_do
        (apis.proxy_get
          (rt.sprintf "/apis/metrics/v1alpha1/namespaces/%s/pods" (FmtArg.str namespace ∷ []))
          (("labelSelector", apis.show_selector selector) ∷ []))
        (because "failed to get pod resource metrics: %v")
        λ raw.
          then_do (apis.unmarshal_pod_metrics raw)
            (because "failed to unmarshal heapster response: %v")
            λ items. elim items [
              | [] ↦ err (message "no metrics returned from heapster")
              | m ∷ rest ↦ ok (heapster_metrics (m ∷ rest) resource [], m.timestamp)
            ]

  pub get_raw_metric : Time → String → String → S → Option (Result (PodMetricsInfo × Time))
  unfolding collapse_all
  get_raw_metric now metric_name namespace selector =
      then_try (apis.list_pods namespace selector)
        (because "failed to get pod list while fetching metrics: %v")
        λ pods.
          let names : List String = map pod_name pods in
          if is_empty pods
          then some (err (message "no pods matched the provided selector"))
          else then_try
              (apis.proxy_get
                (rt.sprintf "/api/v1/model/namespaces/%s/pod-list/%s/metrics/%s" (
                  FmtArg.str namespace
                  ∷ FmtArg.str (apis.join names)
                  ∷ FmtArg.str metric_name
                  ∷ []))
                (("start", apis.show_time (now +ℤ heapster_query_start)) ∷ []))
              (because "failed to get pod metrics: %v")
              λ raw.
                then_try (apis.unmarshal_results raw)
                  (because "failed to unmarshal heapster response: %v")
                  λ results.
                    if not (length results == length names)
                    then some (err (message "requested metrics for %v pods, got metrics for %v"))
                    else collapse_all rt names results [] none
                      >>= (λ r. some (ok (r.0, elim r.1 [ none ↦ zero_time | some t ↦ t ])))

  pub get_object_metric : Result (ℤ × Time)
  get_object_metric = err (message "object metrics are not yet supported")

  pub get_external_metric : Result (List ℤ × Time)
  get_external_metric = err (message "external metrics aren't supported")
