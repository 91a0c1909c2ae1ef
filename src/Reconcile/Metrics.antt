-- ===== src/Reconcile/Metrics.antt =====
-- The replicas that one metric of an autoscaler asks for, with the status of the metric:
-- `computeReplicasForMetric` and the functions for the kinds of metric (pkg/scaler/general.go).
--
-- `none` is the panic of a nil pointer that is dereferenced. `client` is the metrics client and
-- the pod lister as they answer for this metric.
pub mod Kinds
pub mod Resources
pub mod Each
use text.Mathlib.Text.{◌==◌ as str_eq}
use general_pod_autoscaler.Common.{
  ℕ, String, Bool, true, false, List, [], ◌∷◌, Option, none, some, ◌>>=◌, if◌then◌else◌,
}
use general_pod_autoscaler.Common.Int.{ℤ}
use general_pod_autoscaler.Common.Dict.{lookup}
use general_pod_autoscaler.Common.Runtime.{FmtArg, Runtime}
use general_pod_autoscaler.Api.Extern.{K8s, Time}
use general_pod_autoscaler.Api.Metrics.{
  MetricIdentifier, MetricStatus, MetricValueStatus, value_metric_type, average_value_metric_type,
  object_metric_source_type, pods_metric_source_type,
}
use general_pod_autoscaler.Api.Autoscaler.{
  GeneralPodAutoscaler, GeneralPodAutoscalerCondition, condition_false, scaling_active,
}
use general_pod_autoscaler.ScalerCore.Errors.{GoError, message, wrap, Result, ok, err}
use general_pod_autoscaler.Replicas.Calculator.{ReplicaCalculator, Proposal, ResourceProposal}
use general_pod_autoscaler.Reconcile.{Event, event_warning, MetricsClient, Cluster}

-- A count with the name of the metric and its status, or the event that was recorded with the
-- condition to set and the error. The status of a metric that fails is not written.
pub data MetricResult (k : K8s) : Type 0 where
  computed : ℤ → String → MetricStatus k → MetricResult k
  failed : Event → GeneralPodAutoscalerCondition → GoError → MetricResult k

abbrev pub no_condition : GeneralPodAutoscalerCondition
no_condition = record {
  type = "";
  status = "";
  last_transition_time = none;
  reason = "";
  message = "";
}

module _ {k : K8s} where
  abbrev pub blank_status : MetricStatus k
  blank_status = record {
    type = "";
    object = none;
    pods = none;
    resource = none;
    external = none;
    container_resource = none;
  }

  -- The values of a status.
  abbrev pub value_status : ℤ → MetricValueStatus k
  value_status v = record {
    value = some (k.new_milli_quantity v);
    average_value = none;
    average_utilization = none;
  }

  abbrev pub average_value_status : ℤ → MetricValueStatus k
  average_value_status v = record {
    value = none;
    average_value = some (k.new_milli_quantity v);
    average_utilization = none;
  }

  abbrev pub utilization_status : ℤ → ℤ → MetricValueStatus k
  utilization_status percentage raw = record {
    value = none;
    average_value = some (k.new_milli_quantity raw);
    average_utilization = some percentage;
  }

  -- The end of every kind of metric: the count, or an error with the event and the condition that
  -- `unable` makes of it. The error that is returned has the format of `context`.
  unfoldable pub finish :
      {P : Type 0}
      → (GoError → Event × GeneralPodAutoscalerCondition)
      → (GoError → GoError)
      → (P → MetricResult k)
      → Result P
      → MetricResult k
  finish unable context f (ok p) = f p
  finish unable context f (err e) = failed (unable e).0 (unable e).1 (context e)

module _ {k : K8s} (rt : Runtime) (w : Cluster k) where
  -- The event that is recorded, and the condition.
  pub get_unable_compute_replica_count_condition :
      String → GoError → Event × GeneralPodAutoscalerCondition
  get_unable_compute_replica_count_condition reason e = (
    record { type = event_warning; reason = reason; message = w.show_error e },
    record {
      type = scaling_active;
      status = condition_false;
      last_transition_time = none;
      reason = reason;
      message =
          rt.sprintf "the GPA was unable to compute the replica count: %v"
            (FmtArg.str (w.show_error e) ∷ []);
    },
  )

-- A map that is nil has no entry.
pub is_compute_by_limits : {k : K8s} → GeneralPodAutoscaler k → Bool
is_compute_by_limits gpa = elim (lookup "compute-by-limits" gpa.annotations) [
  | none ↦ false
  | some v ↦ str_eq v "true"
]
