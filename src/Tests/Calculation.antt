-- ===== src/Tests/Calculation.antt =====
-- The theorems on the replica calculator, at concrete pods.
use text.Mathlib.TextEquality.{eq_iff}
use general_pod_autoscaler.Common.{
  ◌≡◌, ◌≢◌, String, List, [], ◌∷◌, none, arith, true, false, length,
}
use general_pod_autoscaler.Common.Int.{ℤ, pos, ◌≤ℤ◌, ◌*ℤ◌}
use general_pod_autoscaler.Common.Float.{fractions}
use general_pod_autoscaler.Replicas.Pods.{Pod, PodMetricsInfo, no_groups, group_pods}
use general_pod_autoscaler.Replicas.Pods.Partition.{size, HasDistinctNames, group_pods-size}
use general_pod_autoscaler.Replicas.Calculator.{
  ReplicaCalculator, below_one, above_one, within_tolerance, rebalanced_resource,
}
use general_pod_autoscaler.Replicas.Calculator.Safe.{rebalanced_resource_direction}
use general_pod_autoscaler.ScalerCore.Errors.{ok}
use general_pod_autoscaler.Replicas.Queries.{
  get_resource_replicas, get_raw_resource_replicas, get_metric_replicas,
}
use general_pod_autoscaler.Replicas.Queries.Total.{
  get_resource_replicas_total, get_plain_replicas_total,
}
use general_pod_autoscaler.Tests.{k8s, runtime, now}

abbrev pod_of : String → String → Pod k8s
pod_of name phase = record {
  name = name;
  deletion_timestamp = none;
  phase = phase;
  start_time = none;
  conditions = [];
  containers = [];
}

-- One pod with a metric, one without, and one that waits.
abbrev pods : List (Pod k8s)
pods = pod_of "a" "Running" ∷ pod_of "b" "Running" ∷ pod_of "c" "Pending" ∷ []

abbrev metrics : PodMetricsInfo
metrics = ("a", record { timestamp = pos 0; window = pos 0; value = pos 90 }) ∷ []

distinct : HasDistinctNames pods
distinct = (
  ((λ e. ground (arith, eq_iff "a" "b")), ((λ e. ground (arith, eq_iff "a" "c")), tt)),
  (((λ e. ground (arith, eq_iff "b" "c")), tt), (tt, tt)),
)

group_pods-size_example :
    size (group_pods (λ i. now) (pos 0) (pos 0) "memory" metrics pods 0 no_groups) ≡ length pods
group_pods-size_example = group_pods-size (λ i. now) (pos 0) (pos 0) "memory" metrics pods distinct

abbrev fraction : ℤ → ℤ → fractions.F
fraction a b = fractions.div (fractions.of_int a) (fractions.of_int b)

-- A tolerance of one tenth.
abbrev pub calculator : ReplicaCalculator runtime
calculator = record {
  tolerance = fraction (pos 1) (pos 10);
  cpu_initialization_period = pos 0;
  delay_of_initial_readiness_status = pos 0;
}

get_resource_replicas_total_example :
    get_resource_replicas runtime calculator
      (λ i. now)
      (ok metrics)
      (ok pods)
      (pos 3)
      (pos 50)
      "memory"
      ""
      false
    ≢ none
get_resource_replicas_total_example =
    get_resource_replicas_total runtime calculator (λ i. now) (ok metrics) (ok pods) (pos 3)
      (pos 50) "memory" "" false

get_plain_replicas_total_example :
    (get_raw_resource_replicas runtime calculator
        (λ i. now)
        (ok metrics)
        (ok pods)
        (pos 3)
        (pos 50)
        "memory"
      ≢ none)
    × (get_metric_replicas runtime calculator (λ i. now) (ok metrics) (ok pods) (pos 3) (pos 50)
        ≢ none)
get_plain_replicas_total_example =
    get_plain_replicas_total runtime calculator (λ i. now) (ok metrics) (ok pods) (pos 3) (pos 50)
      "memory"

-- Nine fifths of the target at first, three fifths after the second calculation.
is_number :
    below_one runtime calculator (fraction (pos 3) (pos 5)) ≡ false
    → above_one runtime calculator (fraction (pos 3) (pos 5)) ≡ false
    → within_tolerance runtime calculator (fraction (pos 3) (pos 5)) ≡ true
unfolding fractions ◌*ℤ◌
is_number below above = cc

rebalanced_resource_direction_example :
    let count =
      rebalanced_resource runtime calculator
        (pos 3)
        (fraction (pos 9) (pos 5))
        (fraction (pos 3) (pos 5))
        3 in
    (below_one runtime calculator (fraction (pos 9) (pos 5)) ≡ true → count ≤ℤ pos 3)
    × (above_one runtime calculator (fraction (pos 9) (pos 5)) ≡ true → pos 3 ≤ℤ count)
rebalanced_resource_direction_example =
    rebalanced_resource_direction runtime calculator (pos 3) (fraction (pos 9) (pos 5))
      (fraction (pos 3) (pos 5)) 3 is_number
