-- ===== src/Replicas/Queries.antt =====
-- The queries of pkg/scaler/replica_calculator.go: the metrics of the client and the pods of the
-- lister, with the calculation of the replicas. The client, the lister and the conversion of a
-- selector, which is the field it is asked for, are other libraries.
pub mod Total
use general_pod_autoscaler.Common.{
  ℕ, suc, String, Bool, ◌&&◌, List, [], ◌∷◌, Option, some, if◌then◌else◌,
}
use general_pod_autoscaler.Common.Int.{ℤ, pos, ◌+ℤ◌, eqb_ℤ}
use general_pod_autoscaler.Common.Machine.{wrap64}
use general_pod_autoscaler.Common.Runtime.{Runtime}
use general_pod_autoscaler.Api.Extern.{K8s, Time}
use general_pod_autoscaler.ScalerCore.Errors.{
  GoError, message, wrap, Result, ok, err, then_do, unchanged,
}
use general_pod_autoscaler.Validation.Field.{is_empty}
use general_pod_autoscaler.Replicas.Pods.{
  Pod, PodMetricsInfo, Groups, no_groups, group_pods, calculate_pod_requests, calculate_pod_limits,
  remove_metrics_for_pods, is_pod_ready,
}
use general_pod_autoscaler.Replicas.Calculator.{
  ReplicaCalculator, Proposal, ResourceProposal, resource_replicas, plain_replicas,
  within_tolerance, scaled,
}
use text.Mathlib.Text.{◌==◌ as str_eq}

-- A sequence of results whose second step can panic.
abbrev pub then_try :
    {A B : Type 0} → Result A → (GoError → GoError) → (A → Option (Result B)) → Option (Result B)
then_try (ok a) context f = f a
then_try (err e) context f = some (err (context e))

-- An error with the format that its new message has; the operands are left out.
abbrev pub because : String → GoError → GoError
because format e = wrap e format

-- Both calls of `removeMetricsForPods`.
abbrev pub usable : Groups → PodMetricsInfo → PodMetricsInfo
usable g metrics =
    remove_metrics_for_pods (remove_metrics_for_pods metrics g.ignored_pods) g.unready_pods

unfoldable pub total_external : List ℤ → ℤ → ℤ
total_external [] sum = sum
total_external (v ∷ rest) sum = total_external rest (wrap64 (sum +ℤ v))

module _ (rt : Runtime) (c : ReplicaCalculator rt) where
  -- The ratio of `float64(a) / float64(b)`.
  abbrev ratio_of : ℤ → ℤ → rt.float.F
  ratio_of a b = rt.float.div (rt.float.of_int a) (rt.float.of_int b)

  -- The end of `GetObjectPerPodMetricReplicas` and `GetExternalPerPodMetricReplicas`.
  unfoldable pub per_pod_replicas : ℤ → ℤ → ℤ → Proposal
  per_pod_replicas utilization status_replicas target =
      let usage_ratio =
        rt.float.div (rt.float.of_int utilization)
          (rt.float.mul (rt.float.of_int target) (rt.float.of_int status_replicas)) in
      record {
        replica_count =
            if within_tolerance rt c usage_ratio
            then status_replicas
            else rt.float.to_int32 (rt.float.ceil (ratio_of utilization target));
        utilization = rt.float.to_int64 (rt.float.ceil (ratio_of utilization status_replicas));
      }

  pub get_object_per_pod_metric_replicas : Result ℤ → ℤ → ℤ → Result Proposal
  get_object_per_pod_metric_replicas client status_replicas target_average_utilization =
      then_do client (because "unable to get metric %s: %v on %s %s/%s")
        λ utilization. ok (per_pod_replicas utilization status_replicas target_average_utilization)

  unfoldable pub get_external_per_pod_metric_replicas :
      {S : Type 0} → Result S → (S → Result (List ℤ)) → ℤ → ℤ → Result Proposal
  get_external_per_pod_metric_replicas selector client status_replicas target_per_pod =
      then_do selector unchanged λ s.
        then_do (client s) (because "unable to get external metric %s/%s/%+v: %s") λ metrics.
          ok (per_pod_replicas (total_external metrics (pos 0)) status_replicas target_per_pod)

module _ {k : K8s} (rt : Runtime) (c : ReplicaCalculator rt) (clock : ℕ → Time) where
  abbrev pub pods_of : Result (List (Pod k)) → Result (List (Pod k))
  pods_of pods =
      then_do pods (because "unable to get pods while calculating replica count: %v") λ pod_list.
        if is_empty pod_list
        then err (message "no pods returned by selector while calculating replica count")
        else ok pod_list

  abbrev pub groups_of : String → PodMetricsInfo → List (Pod k) → Groups
  groups_of resource metrics pods =
      group_pods clock c.cpu_initialization_period c.delay_of_initial_readiness_status resource
        metrics pods 0 no_groups

  pub get_resource_replicas :
      Result PodMetricsInfo
      → Result (List (Pod k))
      → ℤ
      → ℤ
      → String
      → String
      → Bool
      → Option (Result ResourceProposal)
  get_resource_replicas client lister current_replicas target_utilization resource container
        by_limits =
      then_try client (because "unable to get metrics for resource %s: %v") λ metrics.
        then_try (pods_of lister) unchanged λ pods.
          let g = groups_of resource metrics pods in
          then_try
            (if by_limits
              then calculate_pod_limits rt pods resource container
              else calculate_pod_requests rt pods resource container)
            unchanged
            λ requests.
              resource_replicas rt c current_replicas target_utilization g (usable g metrics)
                requests

  pub calc_plain_metric_replicas :
      PodMetricsInfo → Result (List (Pod k)) → ℤ → ℤ → String → Option (Result Proposal)
  calc_plain_metric_replicas metrics lister current_replicas target_utilization resource =
      then_try (pods_of lister) unchanged λ pods.
        let g = groups_of resource metrics pods in
        plain_replicas rt c current_replicas target_utilization g (usable g metrics)

  pub get_raw_resource_replicas :
      Result PodMetricsInfo → Result (List (Pod k)) → ℤ → ℤ → String → Option (Result Proposal)
  get_raw_resource_replicas client lister current_replicas target_utilization resource =
      then_try client (because "unable to get metrics for resource %s: %v") λ metrics.
        calc_plain_metric_replicas metrics lister current_replicas target_utilization resource

  pub get_metric_replicas :
      Result PodMetricsInfo → Result (List (Pod k)) → ℤ → ℤ → Option (Result Proposal)
  get_metric_replicas client lister current_replicas target_utilization =
      then_try client (because "unable to get metric %s: %v")
        λ metrics. calc_plain_metric_replicas metrics lister current_replicas target_utilization ""

  pub count_ready : List (Pod k) → ℕ
  count_ready [] = 0
  count_ready (pod ∷ rest) =
      let n = count_ready rest in
      if str_eq pod.phase "Running" && is_pod_ready pod then suc n else n

  pub get_ready_pods_count : Result (List (Pod k)) → Result ℕ
  get_ready_pods_count lister = then_do (pods_of lister) unchanged λ pods. ok (count_ready pods)

  pub get_usage_ratio_replica_count : ℤ → rt.float.F → Result (List (Pod k)) → Result ℤ
  get_usage_ratio_replica_count current_replicas usage_ratio lister =
      if eqb_ℤ current_replicas (pos 0)
      then ok (rt.float.to_int32 (rt.float.ceil usage_ratio))
      else if within_tolerance rt c usage_ratio
      then ok current_replicas
      else then_do (get_ready_pods_count lister) (because "unable to calculate ready pods: %s")
          λ n. ok (scaled rt c usage_ratio n)

  -- The end of `GetObjectMetricReplicas` and `GetExternalMetricReplicas`.
  pub value_replicas : ℤ → ℤ → ℤ → Result (List (Pod k)) → Result Proposal
  value_replicas utilization current_replicas target_utilization lister =
      then_do
        (get_usage_ratio_replica_count current_replicas
          (ratio_of rt c utilization target_utilization) lister)
        unchanged λ count. ok (record { replica_count = count; utilization = utilization })

  pub get_object_metric_replicas : Result ℤ → ℤ → ℤ → Result (List (Pod k)) → Result Proposal
  get_object_metric_replicas client current_replicas target_utilization lister =
      then_do client (because "unable to get metric %s: %v on %s %s/%s")
        λ utilization. value_replicas utilization current_replicas target_utilization lister

  pub get_external_metric_replicas :
      {S : Type 0}
      → Result S
      → (S → Result (List ℤ))
      → ℤ
      → ℤ
      → Result (List (Pod k))
      → Result Proposal
  get_external_metric_replicas selector client current_replicas target_utilization lister =
      then_do selector unchanged λ s.
        then_do (client s) (because "unable to get external metric %s/%s/%+v: %s") λ metrics.
          value_replicas (total_external metrics (pos 0)) current_replicas target_utilization lister
