-- ===== src/Replicas/Calculator.antt =====
-- The calculations of pkg/scaler/replica_calculator.go. The lists of pods and the metrics of the
-- client are arguments, each a result or an error; `none` is a panic. The values that the code
-- returns beside an error, which no caller reads, and the time of the metrics are left out.
pub mod Safe
use general_pod_autoscaler.Common.{
  ℕ, suc, zero, String, Bool, true, false, not, ◌&&◌, ◌||◌, List, [], ◌∷◌, Option, none, some,
  ◌>>=◌, if◌then◌else◌, length, ltb, ◌==◌,
}
use general_pod_autoscaler.Common.Int.{ℤ, pos, ◌+ℤ◌, ltb_ℤ, eqb_ℤ}
use general_pod_autoscaler.Common.Machine.{wrap64}
use general_pod_autoscaler.Common.Dict.{Dict, lookup, insert}
use general_pod_autoscaler.Common.Runtime.{FmtArg, Runtime}
use general_pod_autoscaler.Api.Extern.{K8s, Time}
use general_pod_autoscaler.ScalerCore.Errors.{GoError, message, wrap, Result, ok, err}
use general_pod_autoscaler.Validation.Field.{is_empty}
use general_pod_autoscaler.Replicas.Pods.{
  Pod, PodMetric, PodMetricsInfo, Groups, no_groups, group_pods, calculate_pod_requests,
  calculate_pod_limits, remove_metrics_for_pods, is_pod_ready,
}
use general_pod_autoscaler.Replicas.Utilization.{
  Utilization, get_resource_utilization_ratio, get_metric_utilization_ratio,
}
use text.Mathlib.Text.{◌==◌ as str_eq}

pub record ReplicaCalculator (rt : Runtime) : Type 0 where
  pub tolerance : rt.float.F
  pub cpu_initialization_period : ℤ
  pub delay_of_initial_readiness_status : ℤ

pub record Proposal : Type 0 where
  pub replica_count : ℤ
  pub utilization : ℤ

pub record ResourceProposal : Type 0 where
  pub replica_count : ℤ
  pub utilization : ℤ
  pub raw_utilization : ℤ

-- The loops that give each pod of a set the same value, or the value of its request (0 where there
-- is none). The metric's other fields are zero.
abbrev pub plain_metric : ℤ → PodMetric
plain_metric v = record { timestamp = pos 0; window = pos 0; value = v }

pub set_all : List String → (String → ℤ) → PodMetricsInfo → PodMetricsInfo
set_all [] v metrics = metrics
set_all (pod_name ∷ rest) v metrics =
    set_all rest v (insert pod_name (plain_metric (v pod_name)) metrics)

abbrev or_zero : Option ℤ → ℤ
or_zero none = pos 0
or_zero (some v) = v

module _ (rt : Runtime) (c : ReplicaCalculator rt) where
  abbrev one : rt.float.F
  one = rt.float.of_int (pos 1)

  -- `math.Abs(1.0-usageRatio) <= c.tolerance`
  unfoldable pub within_tolerance : rt.float.F → Bool
  within_tolerance ratio = rt.float.le (rt.float.abs (rt.float.sub one ratio)) c.tolerance

  -- `int32(math.Ceil(ratio * float64(n)))`
  pub scaled : rt.float.F → ℕ → ℤ
  scaled ratio n = rt.float.to_int32 (rt.float.ceil (rt.float.mul ratio (rt.float.of_int (pos n))))

  abbrev pub below_one : rt.float.F → Bool
  below_one ratio = rt.float.lt ratio one

  abbrev pub above_one : rt.float.F → Bool
  above_one ratio = rt.float.lt one ratio

  -- `len(unreadyPods) > 0 && usageRatio > 1.0`
  pub rebalances : Groups → rt.float.F → Bool
  rebalances g ratio = not (is_empty g.unready_pods) && above_one ratio

  -- The values of the missing and the unready pods, before the second calculation.
  pub assume_resource : Groups → rt.float.F → Dict ℤ → PodMetricsInfo → PodMetricsInfo
  assume_resource g ratio requests metrics =
      let metrics' =
        if below_one ratio
        then set_all g.missing_pods (λ name. or_zero (lookup name requests)) metrics
        else if above_one ratio
        then set_all g.missing_pods (λ name. pos 0) metrics
        else metrics in
      if rebalances g ratio then set_all g.unready_pods (λ name. pos 0) metrics' else metrics'

  pub assume_plain : Groups → rt.float.F → ℤ → PodMetricsInfo → PodMetricsInfo
  assume_plain g ratio target_utilization metrics =
      let metrics' =
        if below_one ratio
        then set_all g.missing_pods (λ name. target_utilization) metrics
        else set_all g.missing_pods (λ name. pos 0) metrics in
      if rebalances g ratio then set_all g.unready_pods (λ name. pos 0) metrics' else metrics'

  -- The second ratio is too small a change, or turns the direction.
  pub no_change : rt.float.F → rt.float.F → Bool
  no_change ratio new_ratio =
      within_tolerance new_ratio
      || (below_one ratio && above_one new_ratio || above_one ratio && below_one new_ratio)

  -- The end of `GetResourceReplicas`, from the second ratio on.
  pub rebalanced_resource : ℤ → rt.float.F → rt.float.F → ℕ → ℤ
  rebalanced_resource current_replicas ratio new_ratio n =
      let new_replicas = scaled new_ratio n in
      if no_change ratio new_ratio
      then current_replicas
      else if below_one new_ratio && ltb_ℤ current_replicas new_replicas
          || above_one new_ratio && ltb_ℤ new_replicas current_replicas
      then current_replicas
      else new_replicas

  -- `GetResourceReplicas` after the second calculation, whose metrics are `n`.
  pub after_second : ℤ → Utilization rt → ℕ → Result (Utilization rt) → Result ResourceProposal
  after_second current_replicas u n (err e) = err e
  after_second current_replicas u n (ok v) = ok record {
    replica_count = rebalanced_resource current_replicas u.ratio v.ratio n;
    utilization = u.current;
    raw_utilization = u.raw_average;
  }

  -- The same after the first calculation.
  pub after_first :
      ℤ
      → ℤ
      → Groups
      → PodMetricsInfo
      → Dict ℤ
      → Result (Utilization rt)
      → Option (Result ResourceProposal)
  after_first current_replicas target_utilization g metrics requests (err e) = some (err e)
  after_first current_replicas target_utilization g metrics requests (ok u) =
      if not (rebalances g u.ratio) && is_empty g.missing_pods
      then some (
          ok record {
            replica_count =
                if within_tolerance u.ratio
                then current_replicas
                else scaled u.ratio g.ready_pod_count;
            utilization = u.current;
            raw_utilization = u.raw_average;
          })
      else let assumed = assume_resource g u.ratio requests metrics in
        (get_resource_utilization_ratio rt assumed requests target_utilization >>= λ second.
        some (after_second current_replicas u (length assumed) second))

  -- `GetResourceReplicas` after the groups, the metrics and the requests are known.
  pub resource_replicas :
      ℤ → ℤ → Groups → PodMetricsInfo → Dict ℤ → Option (Result ResourceProposal)
  resource_replicas current_replicas target_utilization g metrics requests =
      if is_empty metrics
      then some (err (message "did not receive metrics for any ready pods"))
      else do
        first ← get_resource_utilization_ratio rt metrics requests target_utilization
        after_first current_replicas target_utilization g metrics requests first

  -- `calcPlainMetricReplicas` after the first ratio and the current value are known.
  pub after_first_plain :
      ℤ → ℤ → Groups → PodMetricsInfo → rt.float.F × ℤ → Option (Result Proposal)
  after_first_plain current_replicas target_utilization g metrics (ratio, current) =
      if not (rebalances g ratio) && is_empty g.missing_pods
      then some (
          ok record {
            replica_count =
                if within_tolerance ratio then current_replicas else scaled ratio g.ready_pod_count;
            utilization = current;
          })
      else let assumed = assume_plain g ratio target_utilization metrics in
        (get_metric_utilization_ratio rt assumed target_utilization >>= λ second. some (
          ok record {
            replica_count =
                if no_change ratio second.0
                then current_replicas
                else scaled second.0 (length assumed);
            utilization = current;
          }))

  -- The same after the groups and the metrics are known.
  pub plain_replicas : ℤ → ℤ → Groups → PodMetricsInfo → Option (Result Proposal)
  plain_replicas current_replicas target_utilization g metrics =
      if is_empty metrics
      then some (err (message "did not receive metrics for any ready pods"))
      else do
        first ← get_metric_utilization_ratio rt metrics target_utilization
        after_first_plain current_replicas target_utilization g metrics first
