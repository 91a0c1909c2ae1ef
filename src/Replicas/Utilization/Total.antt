-- ===== src/Replicas/Utilization/Total.antt =====
-- The ratios never panic.
use general_pod_autoscaler.Common.{
  suc, zero, ◌≤◌, ◌≡◌, refl, ◌≢◌, inl, inr, false, [], ◌∷◌, Option, none, some, arith, length,
  Bool-cases, ap,
}
use general_pod_autoscaler.Common.Int.{ℤ, pos, ◌*ℤ◌, ◌/ℤ◌, eqb_ℤ}
use general_pod_autoscaler.Common.Machine.{wrap64}
use general_pod_autoscaler.Common.Dict.{Dict, lookup}
use general_pod_autoscaler.Common.Runtime.{Runtime}
use general_pod_autoscaler.Replicas.Pods.{PodMetricsInfo}
use general_pod_autoscaler.Replicas.Utilization.{
  quotient, Totals, add_entry, totals, ratio_of_totals, get_resource_utilization_ratio, total_value,
  get_metric_utilization_ratio,
}

-- One entry.
grow :
    (v : ℤ) (o : Option ℤ) (t : Totals)
    → let t' = add_entry v o t in (t.2 ≤ t'.2) × (t'.2 ≡ t.2 → t'.1 ≡ t.1)
unfolding add_entry
grow v none t = (omega arith, (λ h. refl))
grow v (some r) t = (omega arith, (λ h. absurd (omega arith)))

-- The number of entries never falls, and the sum of the requests is unchanged where it stays.
totals_grow :
    (metrics : PodMetricsInfo) (requests : Dict ℤ) (t : Totals)
    → let t' = totals metrics requests t in (t.2 ≤ t'.2) × (t'.2 ≡ t.2 → t'.1 ≡ t.1)
unfolding totals
totals_grow [] requests t = (omega arith, (λ h. refl))
totals_grow ((name, metric) ∷ rest) requests t =
    let later = totals_grow rest requests (add_entry metric.value (lookup name requests) t) in
    let now = grow metric.value (lookup name requests) t in ground (arith, later, now)

-- A division by a number that is not zero has a quotient.
pub quotient_total : (a b : ℤ) → eqb_ℤ b (pos 0) ≡ false → quotient a b ≡ some (wrap64 (a /ℤ b))
unfolding quotient
quotient_total a b ne = rw ne refl

ratio_of_totals_total :
    (rt : Runtime) (t : Totals) (target : ℤ)
    → (t.2 ≡ 0 → t.1 ≡ pos 0)
    → ratio_of_totals rt t target ≢ none
unfolding ratio_of_totals
ratio_of_totals_total rt (m, r, zero) target none_yet =
    rw (ap (λ x. eqb_ℤ x (pos 0)) (none_yet refl)) (λ h. cc)
ratio_of_totals_total rt (m, r, suc n) target none_yet = elim (Bool-cases (eqb_ℤ r (pos 0))) [
  | inl zero_sum ↦ rw zero_sum (λ h. cc)
  | inr e ↦
      rw
        (
          e,
          quotient_total (wrap64 (m *ℤ pos 100)) r e,
          quotient_total m (pos (suc n)) (ground arith),
        )
        (λ h. cc)
]

-- `GetResourceUtilizationRatio` has a result for all metrics and requests: the number of
-- entries is zero only where the sum of the requests is, which is an error and no division.
pub get_resource_utilization_ratio_total :
    (rt : Runtime) (metrics : PodMetricsInfo) (requests : Dict ℤ) (target : ℤ)
    → get_resource_utilization_ratio rt metrics requests target ≢ none
unfolding get_resource_utilization_ratio
get_resource_utilization_ratio_total rt metrics requests target =
    ratio_of_totals_total rt (totals metrics requests (pos 0, pos 0, 0)) target
      (totals_grow metrics requests (pos 0, pos 0, 0)).1

-- `GetMetricUtilizationRatio` has a result where there is a metric.
pub get_metric_utilization_ratio_total :
    (rt : Runtime) (metrics : PodMetricsInfo) (target : ℤ)
    → metrics ≢ []
    → get_metric_utilization_ratio rt metrics target ≢ none
unfolding get_metric_utilization_ratio
get_metric_utilization_ratio_total rt [] target ne = absurd (ne refl)
get_metric_utilization_ratio_total rt (m ∷ rest) target ne =
    rw (quotient_total (total_value rt (m ∷ rest) (pos 0)) (pos (suc (length rest))) (ground arith))
      (λ h. cc)
