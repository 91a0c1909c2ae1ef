-- ===== src/Reconcile/Replicas.antt =====
-- The replicas that the mode of an autoscaler asks for: `computeReplicasForMetrics`
-- of pkg/scaler/general.go, and what it shares with the other modes.
pub mod Simple
pub mod Effects
pub mod Total
pub mod Largest
pub mod Judged
use general_pod_autoscaler.Common.{
  ℕ, suc, ◌+◌, String, Bool, List, [], ◌∷◌, ◌++◌, Option, none, some, ◌>>=◌, if◌then◌else◌, leb,
  length, ◌||◌,
}
use general_pod_autoscaler.Common.Int.{ℤ, pos, eqb_ℤ, ltb_ℤ}
use general_pod_autoscaler.Common.Runtime.{FmtArg, Runtime}
use general_pod_autoscaler.Api.Extern.{K8s, Time}
use general_pod_autoscaler.Api.Metrics.{MetricSpec, MetricStatus}
use general_pod_autoscaler.Api.Modes.{TimeMode, WebhookMode, AutoScalingDrivenMode}
use general_pod_autoscaler.Api.Autoscaler.{
  GeneralPodAutoscaler, GeneralPodAutoscalerSpec, GeneralPodAutoscalerCondition, scaling_active,
  condition_true, condition_false,
}
use general_pod_autoscaler.ScalerCore.Errors.{GoError, message, wrap, Result, ok, err}
use general_pod_autoscaler.ScalerCore.Chain.{Scaler, Size, compute_desired_size}
use general_pod_autoscaler.ScalerCore.Cron.{CronLibrary, get_replicas as cron_replicas}
use general_pod_autoscaler.ScalerCore.Webhook.{
  WebhookLibrary, Transport, get_replicas as webhook_replicas,
}
use general_pod_autoscaler.Replicas.Calculator.{ReplicaCalculator}
use general_pod_autoscaler.Scaler.Conditions.{set_condition}
use text.Mathlib.Text.{◌==◌ as str_eq}
use general_pod_autoscaler.Reconcile.{
  Scale, Effect, recorded, event, event_warning, Cluster, Clock, at_selector, at_metric, at_active,
  at_cron,
}
use general_pod_autoscaler.Reconcile.Metrics.{
  MetricResult, computed, failed, blank_status, no_condition,
}
use general_pod_autoscaler.Reconcile.Metrics.Each.{compute_replicas_for_metric}

-- The variables of the loop over the metrics: the count and the name so far, the statuses of the
-- metrics that were visited, the events, and the number of metrics that failed with the condition and
-- the error of the first.
pub record Tally (k : K8s) : Type 0 where
  pub replicas : ℤ
  pub metric : String
  pub statuses : List (MetricStatus k)
  pub effects : List (Effect k)
  pub invalid_metrics_count : ℕ
  pub invalid_metric : Option (GeneralPodAutoscalerCondition × GoError)

abbrev first_invalid :
    Option (GeneralPodAutoscalerCondition × GoError)
    → GeneralPodAutoscalerCondition × GoError
    → Option (GeneralPodAutoscalerCondition × GoError)
first_invalid none now = some now
first_invalid (some before) now = some before

module _ {k : K8s} where
  abbrev pub no_tally : Tally k
  no_tally = record {
    replicas = pos 0;
    metric = "";
    statuses = [];
    effects = [];
    invalid_metrics_count = 0;
    invalid_metric = none;
  }

  -- The body of the loop, after the call for the metric.
  pub tally_metric : Tally k → MetricResult k → Tally k
  tally_metric t (failed warning condition e) = record t {
    statuses = t.statuses ++ (blank_status ∷ []);
    effects = t.effects ++ (recorded warning ∷ []);
    invalid_metrics_count = suc t.invalid_metrics_count;
    invalid_metric = first_invalid t.invalid_metric (condition, e);
  }
  tally_metric t (computed proposal name status) =
      let t' : Tally k = record t { statuses = t.statuses ++ (status ∷ []) } in
      if eqb_ℤ t.replicas (pos 0) || ltb_ℤ t.replicas proposal
      then record t' { replicas = proposal; metric = name }
      else t'

  pub tally_all :
      (ℕ → MetricSpec k → Option (MetricResult k))
      → ℕ
      → List (MetricSpec k)
      → Tally k
      → Option (Tally k)
  unfolding tally_metric
  tally_all compute i [] t = some t
  tally_all compute i (spec ∷ rest) t =
      compute i spec >>= (λ r. tally_all compute (suc i) rest (tally_metric t r))

-- The global variables of package scalercore.
pub record Process : Type 0 where
  pub record_schedule_name : String
  pub transport : Transport

-- What a mode returns: the count with the name of the metric or an error, the autoscaler with its
-- conditions, the statuses of the metrics, the events, and the global variables.
pub record Computation (k : K8s) : Type 0 where
  pub result : Result (ℤ × String)
  pub gpa : GeneralPodAutoscaler k
  pub statuses : List (MetricStatus k)
  pub effects : List (Effect k)
  pub process : Process

module _ {k : K8s} (rt : Runtime) (w : Cluster k) (clock : Clock) (gpa : GeneralPodAutoscaler k)
    (scale : Scale) (process : Process) where
  abbrev inactive : String → String → GeneralPodAutoscaler k
  inactive reason text =
      set_condition rt (clock at_selector 0) gpa scaling_active condition_false reason text []

  -- Both modes start with the selector of the scale; `f` goes on with it.
  pub with_scale_selector : (w.Selector → Option (Computation k)) → Option (Computation k)
  with_scale_selector f =
      if str_eq scale.status_selector ""
      then some (record {
        result = err (message "selector is required");
        gpa = inactive "InvalidSelector" "the GPA target's scale is missing a selector";
        statuses = [];
        effects = event event_warning "SelectorRequired" "selector is required" ∷ [];
        process = process;
      })
      else elim (w.parse_selector scale.status_selector) [
        | ok selector ↦ f selector
        | err e ↦
            let text : String =
              rt.sprintf
                "couldn't convert selector into a corresponding internal selector object: %v"
                (FmtArg.str (w.show_error e) ∷ []) in
            some (record {
              result = err (message (rt.sprintf text []));
              gpa = inactive "InvalidSelector" text;
              statuses = [];
              effects = event event_warning "InvalidSelector" text ∷ [];
              process = process;
            })
      ]

  -- The two ends of `computeReplicasForMetrics`: all the metrics failed, or one has a count.
  all_failed : Tally k → Computation k
  all_failed t =
      let condition : GeneralPodAutoscalerCondition = elim t.invalid_metric [
        | none ↦ no_condition
        | some (condition, e) ↦ condition
      ] in
      record {
        result = err (elim t.invalid_metric [
          | none ↦ message "invalid metrics (%v invalid out of %v), first error is: %v"
          | some (condition, e) ↦
              wrap e "invalid metrics (%v invalid out of %v), first error is: %v"
        ]);
        gpa =
            set_condition rt (clock at_active 0) gpa condition.type condition.status
              condition.reason condition.message [];
        statuses = t.statuses;
        effects = t.effects;
        process = process;
      }

  one_computed : Tally k → Computation k
  one_computed t = record {
    result = ok (t.replicas, t.metric);
    gpa =
        set_condition rt (clock at_active 0) gpa scaling_active condition_true "ValidMetricFound"
          "the GPA was able to successfully calculate a replica count from %s"
          (FmtArg.str t.metric ∷ []);
    statuses = t.statuses;
    effects = t.effects;
    process = process;
  }

  pub judge_tally : ℕ → Tally k → Computation k
  unfolding all_failed one_computed
  judge_tally number t = if leb number t.invalid_metrics_count then all_failed t else one_computed t

  module _ (c : ReplicaCalculator rt) where
    pub compute_replicas_for_metrics : List (MetricSpec k) → Option (Computation k)
    unfolding with_scale_selector tally_all judge_tally
    compute_replicas_for_metrics metric_specs = with_scale_selector λ selector.
        tally_all
          (λ i.
            compute_replicas_for_metric rt w c (clock (at_metric i)) (w.client i) gpa selector
              scale.spec_replicas scale.status_replicas)
          0 metric_specs no_tally
        >>= (λ t. some (judge_tally (length metric_specs) t))
