-- ===== src/Replicas/Calculator/Safe.antt =====
-- The calculations never divide by zero, and the second one keeps the direction of the first.
use general_pod_autoscaler.Common.{
  ℕ, ◌≡◌, refl, ◌≢◌, String, Bool, true, false, ◌&&◌, ◌||◌, List, [], ◌∷◌, none, arith,
  if◌then◌else◌, bind_ne_none, if_ne_none, some_ne_none,
}
use general_pod_autoscaler.Common.Int.{ℤ, pos, ltb_ℤ, ◌≤ℤ◌}
use general_pod_autoscaler.Common.Dict.{Dict, insert, insert_ne_nil}
use general_pod_autoscaler.Common.Runtime.{Runtime}
use general_pod_autoscaler.ScalerCore.Errors.{Result, ok, err}
use general_pod_autoscaler.Replicas.Pods.{PodMetricsInfo, Groups}
use general_pod_autoscaler.Replicas.Utilization.{Utilization}
use general_pod_autoscaler.Replicas.Utilization.Total.{
  get_resource_utilization_ratio_total, get_metric_utilization_ratio_total,
}
use general_pod_autoscaler.Replicas.Calculator.{
  ReplicaCalculator, set_all, plain_metric, within_tolerance, no_change, scaled,
  rebalanced_resource, below_one, above_one, assume_resource, assume_plain, after_first,
  after_first_plain, resource_replicas, plain_replicas,
}

-- The decision, with the tests as Booleans: the second ratio is within the tolerance, below one or
-- above one, and the first one is below or above one.
keeps :
    (within low high low_first high_first : Bool) (current n : ℤ)
    → (low ≡ false → high ≡ false → within ≡ true)
    → let count =
        if within || (low_first && high || high_first && low)
        then current
        else if low && ltb_ℤ current n || high && ltb_ℤ n current
        then current
        else n in
      (low_first ≡ true → count ≤ℤ current) × (high_first ≡ true → current ≤ℤ count)
keeps true low high low_first high_first current n number = ground arith
keeps false true high low_first high_first current n number = ground arith
keeps false false true low_first high_first current n number = ground arith
keeps false false false low_first high_first current n number = ground (arith, number refl refl)

module _ (rt : Runtime) (c : ReplicaCalculator rt) where
  -- The count after a second calculation never goes against the first ratio: where the
  -- first ratio is below one the count is at most the current one, and where it is above one the
  -- count is at least the current one. The second ratio is not a NaN in the sense that it is
  -- within the tolerance where it is neither below nor above one.
  pub rebalanced_resource_direction :
      (current : ℤ) (ratio new_ratio : rt.float.F) (n : ℕ)
      → (below_one rt c new_ratio ≡ false
          → above_one rt c new_ratio ≡ false
          → within_tolerance rt c new_ratio ≡ true)
      → let count = rebalanced_resource rt c current ratio new_ratio n in
        (below_one rt c ratio ≡ true → count ≤ℤ current)
        × (above_one rt c ratio ≡ true → current ≤ℤ count)
  unfolding rebalanced_resource no_change
  rebalanced_resource_direction current ratio new_ratio n number =
      keeps (within_tolerance rt c new_ratio) (below_one rt c new_ratio) (above_one rt c new_ratio)
        (below_one rt c ratio) (above_one rt c ratio) current (scaled rt c new_ratio n) number

  after_first_total :
      (current target : ℤ) (g : Groups) (metrics : PodMetricsInfo) (requests : Dict ℤ)
      (first : Result (Utilization rt))
      → after_first rt c current target g metrics requests first ≢ none
  unfolding after_first
  after_first_total current target g metrics requests (err e) = λ h. cc
  after_first_total current target g metrics requests (ok u) =
      let second =
        get_resource_utilization_ratio_total rt (assume_resource rt c g u.ratio requests metrics)
          requests target in
      if_ne_none _ _ _ some_ne_none (bind_ne_none _ _ second (λ v. some_ne_none))

  -- Once the groups, the metrics and the requests are known, `GetResourceReplicas` never
  -- panics: it returns a proposal or an error.
  pub resource_replicas_total :
      (current target : ℤ) (g : Groups) (metrics : PodMetricsInfo) (requests : Dict ℤ)
      → resource_replicas rt c current target g metrics requests ≢ none
  unfolding resource_replicas
  resource_replicas_total current target g [] requests = λ h. cc
  resource_replicas_total current target g (m ∷ rest) requests =
      bind_ne_none _ _ (get_resource_utilization_ratio_total rt (m ∷ rest) requests target)
        (after_first_total current target g (m ∷ rest) requests)

  -- The metrics of a second calculation are not empty.
  set_all_ne :
      (names : List String) (v : String → ℤ) (metrics : PodMetricsInfo)
      → metrics ≢ []
      → set_all names v metrics ≢ []
  unfolding set_all
  set_all_ne [] v metrics ne = ne
  set_all_ne (name ∷ names) v metrics ne =
      set_all_ne names v (insert name (plain_metric (v name)) metrics)
        (insert_ne_nil name (plain_metric (v name)) metrics)

  assume_plain_ne :
      (g : Groups) (ratio : rt.float.F) (target : ℤ) (metrics : PodMetricsInfo)
      → metrics ≢ []
      → assume_plain rt c g ratio target metrics ≢ []
  unfolding assume_plain
  assume_plain_ne g ratio target metrics ne = ground (
    arith,
    set_all_ne g.missing_pods (λ name. target) metrics ne,
    set_all_ne g.missing_pods (λ name. pos 0) metrics ne,
    set_all_ne g.unready_pods (λ name. pos 0) (set_all g.missing_pods (λ name. target) metrics),
    set_all_ne g.unready_pods (λ name. pos 0) (set_all g.missing_pods (λ name. pos 0) metrics),
  )

  after_first_plain_total :
      (current target : ℤ) (g : Groups) (metrics : PodMetricsInfo) (first : rt.float.F × ℤ)
      → metrics ≢ []
      → after_first_plain rt c current target g metrics first ≢ none
  unfolding after_first_plain
  after_first_plain_total current target g metrics (ratio, now) ne = if_ne_none _ _ _ some_ne_none (
      bind_ne_none _ _
        (get_metric_utilization_ratio_total rt (assume_plain rt c g ratio target metrics) target
          (assume_plain_ne g ratio target metrics ne))
        (λ v. some_ne_none))

  -- Once the groups and the metrics are known, `calcPlainMetricReplicas` never panics.
  pub plain_replicas_total :
      (current target : ℤ) (g : Groups) (metrics : PodMetricsInfo)
      → plain_replicas rt c current target g metrics ≢ none
  unfolding plain_replicas
  plain_replicas_total current target g [] = λ h. cc
  plain_replicas_total current target g (m ∷ rest) =
      bind_ne_none _ _ (get_metric_utilization_ratio_total rt (m ∷ rest) target (λ h. cc))
        (λ first. after_first_plain_total current target g (m ∷ rest) first (λ h. cc))
