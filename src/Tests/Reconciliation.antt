-- ===== src/Tests/Reconciliation.antt =====
-- The theorems on the reconciliation, at a concrete cluster.
use general_pod_autoscaler.Common.{
  suc, String, List, [], ◌∷◌, Option, none, some, true, ◌≡◌, refl, some_inj, subst, arith,
}
use general_pod_autoscaler.Common.Int.{ℤ, pos, ◌≤ℤ◌, ◌*ℤ◌, ◌+ℤ◌, ◌-ℤ◌, ◌/ℤ◌}
use general_pod_autoscaler.Common.Machine.{wrap32, wrap64}
use general_pod_autoscaler.Replicas.Calculator.{within_tolerance}
use general_pod_autoscaler.Replicas.Queries.{
  get_external_per_pod_metric_replicas, per_pod_replicas, total_external,
}
use general_pod_autoscaler.Reconcile.Metrics.{computed, finish}
use general_pod_autoscaler.Reconcile.Metrics.Resources.{compute_status_for_external_metric}
use general_pod_autoscaler.Reconcile.Metrics.Each.{compute_replicas_for_metric}
use general_pod_autoscaler.Common.Float.{fractions, fractions-IsIeee}
use general_pod_autoscaler.Api.Metrics.{MetricSpec, MetricStatus}
use general_pod_autoscaler.ScalerCore.Errors.{GoError, message, wrap, Result, ok}
use general_pod_autoscaler.Scaler.Recommendations.Same.{NoneAbove}
use general_pod_autoscaler.Scaler.Normalize.Reach.{count_after, count_after_reaches}
use general_pod_autoscaler.Reconcile.{Effect}
use general_pod_autoscaler.Reconcile.Replicas.{Computation, compute_replicas_for_metrics}
use general_pod_autoscaler.Reconcile.Replicas.Largest.{AllCounts}
use general_pod_autoscaler.Reconcile.Replicas.Judged.{nth_metric, IsOverall, metrics_largest}
use general_pod_autoscaler.Reconcile.Rescale.{Run, Decision, apply_decision}
use general_pod_autoscaler.Reconcile.Rescale.Failed.{failed_update_keeps}
use general_pod_autoscaler.Reconcile.Autoscaler.{reconcile_autoscaler}
use general_pod_autoscaler.Reconcile.Autoscaler.Writes.{WritesWithin, reconcile-WritesWithin}
use general_pod_autoscaler.Reconcile.Queue.{
  add_rate_limited, done, Listed, found, not_found, Memory, process_next_work_item,
}
use general_pod_autoscaler.Reconcile.Queue.Items.{HasForgotten, item_deleted, item_queued_again}
use general_pod_autoscaler.Tests.World.{
  deployments, five, cluster_with, clock, external_spec, metric_gpa, process, scalers,
  external_spec-IsPopulated, metric_gpa-CanAsk, metric_gpa-IsReady,
}
use general_pod_autoscaler.Tests.Calculation.{calculator}
use general_pod_autoscaler.Tests.{k8s, runtime, controller, gpa, now}
use general_pod_autoscaler.Common.Dict.{items, lookup}

-- Three normalizations from 5 to 8 and one more, after a recommendation of 8.
eight_at_most : NoneAbove (pos 8) "default/web" controller
unfolding items lookup
eight_at_most = (omega arith, tt)

count_after_reaches_example :
    count_after runtime fractions-IsIeee
      (λ n i. now)
      "default/web"
      (pos 8)
      (pos 2)
      (suc 3)
      gpa
      controller
      (pos 5)
    ≡ pos 8
count_after_reaches_example =
    count_after_reaches runtime fractions-IsIeee (λ n i. now) "default/web" (pos 8) (pos 2) 3 gpa
      controller (pos 5) (omega arith) (omega arith) (omega arith) (omega arith) eight_at_most
      (omega arith) (omega arith) (omega arith)

reconcile-WritesWithin_example :
    (r : Option GoError × Run k8s) × (reconcile_autoscaler runtime
        (cluster_with none)
        clock
        calculator
        scalers
        metric_gpa
        controller
        process
        "default/web"
      ≡ some r)
    × WritesWithin metric_gpa r.1
reconcile-WritesWithin_example =
    reconcile-WritesWithin runtime (cluster_with none) clock calculator scalers metric_gpa
      controller process "default/web" fractions-IsIeee metric_gpa-IsReady metric_gpa-CanAsk

abbrev split : String → Result (String × String)
split key = ok ("default", "web")

abbrev memory : Memory
memory = record { controller = controller; process = process }

abbrev nothing_listed : String → String → Listed k8s
nothing_listed namespace name = not_found

item_deleted_example :
    (m' : Memory) × (process_next_work_item runtime
        (cluster_with none)
        clock
        calculator
        scalers
        split
        nothing_listed
        (some "default/web")
        memory
      ≡ some (true, m', done "default/web" ∷ [], []))
    × HasForgotten "default/web" controller m'.controller
    × (m'.process ≡ process)
item_deleted_example =
    item_deleted runtime (cluster_with none) clock calculator scalers split nothing_listed
      "default/web" "default" "web" memory refl refl

item_queued_again_example :
    (m' : Memory) × (effects : List (Effect k8s)) × (process_next_work_item runtime
        (cluster_with none)
        clock
        calculator
        scalers
        split
        (λ namespace name. found metric_gpa)
        (some "default/web")
        memory
      ≡ some (true, m', add_rate_limited "default/web" ∷ done "default/web" ∷ [], effects))
item_queued_again_example =
    item_queued_again runtime (cluster_with none) clock calculator scalers split
      (λ namespace name. found metric_gpa) "default/web" "default" "web" memory metric_gpa
      fractions-IsIeee metric_gpa-IsReady metric_gpa-CanAsk refl refl

-- From five replicas to eight, which the cluster refuses.
abbrev to_eight : Decision k8s
to_eight = record {
  desired_replicas = pos 8;
  rescale = true;
  rescale_reason = "queue above target";
  metric_statuses = [];
}

abbrev run : Run k8s
run = record { gpa = metric_gpa; controller = controller; process = process; effects = [] }

failed_update_keeps_example :
    (run' : Run k8s) × (apply_decision runtime
        (cluster_with (some (message "conflict")))
        clock
        metric_gpa.status
        deployments
        five
        "default/web"
        to_eight
        run
      ≡ some (some (wrap (message "conflict") "failed to rescale %s: %v"), run'))
    × (run'.controller ≡ controller)
    × (run'.gpa.status.desired_replicas ≡ pos 5)
    × (run'.gpa.status.last_scale_time ≡ none)
failed_update_keeps_example =
    failed_update_keeps runtime (cluster_with (some (message "conflict"))) clock metric_gpa.status
      deployments five "default/web" to_eight run (message "conflict") refl refl

abbrev specs : List (MetricSpec k8s)
specs = external_spec ∷ []

nonneg_of :
    (m n : ℤ) {name name' : String} {status status' : MetricStatus k8s}
    → some (computed m name status) ≡ some (computed n name' status')
    → pos 0 ≤ℤ m
    → pos 0 ≤ℤ n
nonneg_of m n e h = subst (λ x. pos 0 ≤ℤ x) (same_count m n (some_inj e)) h
  where
    same_count :
        (m n : ℤ) {name name' : String} {status status' : MetricStatus k8s}
        → computed m name status ≡ computed n name' status'
        → m ≡ n
    same_count m n e = cc

counts_nonneg :
    AllCounts
      (nth_metric runtime (cluster_with none) clock metric_gpa five process calculator "app=web")
      (λ n. pos 0 ≤ℤ n)
      0
      specs
unfolding AllCounts compute_replicas_for_metric compute_status_for_external_metric finish
    get_external_per_pod_metric_replicas per_pod_replicas total_external within_tolerance fractions
    ◌*ℤ◌ ◌+ℤ◌ ◌-ℤ◌ wrap64 wrap32 ◌/ℤ◌
counts_nonneg = ((λ n name status e. nonneg_of (pos 8) n e (omega arith)), tt)

metrics_largest_example :
    (m : Computation k8s) × (compute_replicas_for_metrics runtime
        (cluster_with none)
        clock
        metric_gpa
        five
        process
        calculator
        specs
      ≡ some m)
    × IsOverall runtime
        (cluster_with none)
        clock
        metric_gpa
        five
        process
        calculator
        "app=web"
        specs
        m.result
metrics_largest_example =
    metrics_largest runtime (cluster_with none) clock metric_gpa five process calculator "app=web"
      specs refl refl (external_spec-IsPopulated, tt) counts_nonneg
