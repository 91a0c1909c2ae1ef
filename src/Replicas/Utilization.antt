-- ===== src/Replicas/Utilization.antt =====
-- The ratios of pkg/metrics/utilization.go. A map is read in the order of its list; `none` is a panic
-- on a division by zero.
pub mod Total
use general_pod_autoscaler.Common.{
  ℕ, suc, List, [], ◌∷◌, Option, none, some, ◌>>=◌, if◌then◌else◌, length,
}
use general_pod_autoscaler.Common.Int.{ℤ, pos, ◌+ℤ◌, ◌*ℤ◌, ◌/ℤ◌, eqb_ℤ}
use general_pod_autoscaler.Common.Machine.{wrap32, wrap64}
use general_pod_autoscaler.Common.Dict.{Dict, lookup}
use general_pod_autoscaler.Common.Runtime.{Runtime}
use general_pod_autoscaler.ScalerCore.Errors.{message, Result, ok, err}
use general_pod_autoscaler.Replicas.Pods.{PodMetric, PodMetricsInfo}

-- `a / b` on `int64`
pub quotient : ℤ → ℤ → Option ℤ
quotient a b = if eqb_ℤ b (pos 0) then none else some (wrap64 (a /ℤ b))

-- The sum of the metrics, the sum of the requests, and the number of the entries that have one.
abbrev pub Totals : Type 0
Totals = ℤ × ℤ × ℕ

-- The body of the loop over the metrics.
pub add_entry : ℤ → Option ℤ → Totals → Totals
add_entry value none t = t
add_entry value (some request) (metrics_total, requests_total, num_entries) =
    (wrap64 (metrics_total +ℤ value), wrap64 (requests_total +ℤ request), suc num_entries)

pub totals : PodMetricsInfo → Dict ℤ → Totals → Totals
totals [] requests t = t
totals ((pod_name, metric) ∷ rest) requests t =
    totals rest requests (add_entry metric.value (lookup pod_name requests) t)

pub record Utilization (rt : Runtime) : Type 0 where
  pub ratio : rt.float.F
  pub current : ℤ
  pub raw_average : ℤ

module _ (rt : Runtime) where
  -- The code after the loop.
  pub ratio_of_totals : Totals → ℤ → Option (Result (Utilization rt))
  ratio_of_totals (metrics_total, requests_total, num_entries) target_utilization =
      if eqb_ℤ requests_total (pos 0)
      then some (err (message "no metrics returned matched known pods"))
      else do
        percent ← quotient (wrap64 (metrics_total *ℤ pos 100)) requests_total
        average ← quotient metrics_total (pos num_entries)
        some (
            ok record {
              ratio =
                  rt.float.div (rt.float.of_int (wrap32 percent))
                    (rt.float.of_int target_utilization);
              current = wrap32 percent;
              raw_average = average;
            })

  pub get_resource_utilization_ratio :
      PodMetricsInfo → Dict ℤ → ℤ → Option (Result (Utilization rt))
  get_resource_utilization_ratio metrics requests target_utilization =
      ratio_of_totals (totals metrics requests (pos 0, pos 0, 0)) target_utilization

  pub total_value : PodMetricsInfo → ℤ → ℤ
  total_value [] sum = sum
  total_value ((pod_name, metric) ∷ rest) sum = total_value rest (wrap64 (sum +ℤ metric.value))

  -- The ratio and the current value.
  pub get_metric_utilization_ratio : PodMetricsInfo → ℤ → Option (rt.float.F × ℤ)
  get_metric_utilization_ratio metrics target_utilization = do
    current ← quotient (total_value metrics (pos 0)) (pos (length metrics))
    some (rt.float.div (rt.float.of_int current) (rt.float.of_int target_utilization), current)
