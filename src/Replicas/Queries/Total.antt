-- ===== src/Replicas/Queries/Total.antt =====
-- The queries of the calculator that divide never panic.
use general_pod_autoscaler.Common.{
  ℕ, ◌≢◌, String, Bool, List, Option, none, some_ne_none, if◌then◌else◌,
}
use general_pod_autoscaler.Common.Int.{ℤ}
use general_pod_autoscaler.Common.Runtime.{Runtime}
use general_pod_autoscaler.Api.Extern.{K8s, Time}
use general_pod_autoscaler.ScalerCore.Errors.{GoError, Result, ok, err, unchanged}
use general_pod_autoscaler.Replicas.Pods.{
  Pod, PodMetricsInfo, calculate_pod_requests, calculate_pod_limits,
}
use general_pod_autoscaler.Replicas.Calculator.{ReplicaCalculator}
use general_pod_autoscaler.Replicas.Calculator.Safe.{resource_replicas_total, plain_replicas_total}
use general_pod_autoscaler.Replicas.Queries.{
  then_try, usable, pods_of, groups_of, get_resource_replicas, calc_plain_metric_replicas,
  get_raw_resource_replicas, get_metric_replicas,
}

then_try_total :
    {A B : Type 0} (r : Result A) (context : GoError → GoError) (f : A → Option (Result B))
    → ((a : A) → f a ≢ none)
    → then_try r context f ≢ none
then_try_total (ok a) context f next = next a
then_try_total (err e) context f next = some_ne_none

module _ {k : K8s} (rt : Runtime) (c : ReplicaCalculator rt) (clock : ℕ → Time) where
  -- `GetResourceReplicas` never panics, whatever the metrics, the pods, their requests and
  -- the target are: it returns a proposal or an error. No division by zero is reached.
  pub get_resource_replicas_total :
      (client : Result PodMetricsInfo) (lister : Result (List (Pod k))) (current target : ℤ)
      (resource container : String) (by_limits : Bool)
      → get_resource_replicas rt c clock client lister current target resource container by_limits
        ≢ none
  unfolding get_resource_replicas
  get_resource_replicas_total client lister current target resource container by_limits =
      then_try_total client _ _ λ metrics.
        then_try_total (pods_of rt c clock lister) unchanged _ λ pods.
          let g = groups_of rt c clock resource metrics pods in
          then_try_total
            (if by_limits
              then calculate_pod_limits rt pods resource container
              else calculate_pod_requests rt pods resource container)
            unchanged _ (resource_replicas_total rt c current target g (usable g metrics))

  plain_total :
      (metrics : PodMetricsInfo) (lister : Result (List (Pod k))) (current target : ℤ)
      (resource : String)
      → calc_plain_metric_replicas rt c clock metrics lister current target resource ≢ none
  unfolding calc_plain_metric_replicas
  plain_total metrics lister current target resource =
      then_try_total (pods_of rt c clock lister) unchanged _ λ pods.
        let g = groups_of rt c clock resource metrics pods in
        plain_replicas_total rt c current target g (usable g metrics)

  -- `GetRawResourceReplicas` and `GetMetricReplicas` never panic either, whatever the metrics,
  -- the pods and the target are: each returns a proposal or an error.
  pub get_plain_replicas_total :
      (client : Result PodMetricsInfo) (lister : Result (List (Pod k))) (current target : ℤ)
      (resource : String)
      → (get_raw_resource_replicas rt c clock client lister current target resource ≢ none)
        × (get_metric_replicas rt c clock client lister current target ≢ none)
  unfolding get_raw_resource_replicas get_metric_replicas
  get_plain_replicas_total client lister current target resource = (
    then_try_total client _ _ (λ metrics. plain_total metrics lister current target resource),
    then_try_total client _ _ (λ metrics. plain_total metrics lister current target ""),
  )
