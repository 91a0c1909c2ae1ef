-- ===== src/Reconcile/Autoscaler.antt =====
-- `reconcileAutoscaler` of pkg/scaler/general.go: one reconciliation of an autoscaler.
pub mod Ready
pub mod Bounds
pub mod Total
pub mod Writes
use general_pod_autoscaler.Common.{
  String, Bool, true, false, not, ◌&&◌, List, [], ◌∷◌, ◌++◌, Option, none, some, ◌>>=◌,
  if◌then◌else◌, is_nil,
}
use general_pod_autoscaler.Common.Int.{ℤ, pos, ltb_ℤ, eqb_ℤ}
use general_pod_autoscaler.Common.Runtime.{FmtArg, Runtime}
use general_pod_autoscaler.Api.Extern.{K8s}
use general_pod_autoscaler.Api.Modes.{MetricMode}
use general_pod_autoscaler.Api.Metrics.{MetricStatus}
use general_pod_autoscaler.Api.Autoscaler.{
  GeneralPodAutoscaler, GeneralPodAutoscalerStatus, able_to_scale, scaling_active, condition_true,
  condition_false,
}
use general_pod_autoscaler.ScalerCore.Errors.{GoError, wrap, Result, ok, err}
use general_pod_autoscaler.Replicas.Calculator.{ReplicaCalculator}
use general_pod_autoscaler.Scaler.State.{GeneralController}
use general_pod_autoscaler.Scaler.Conditions.{set_condition}
use general_pod_autoscaler.Scaler.Recommendations.{record_initial_recommendation}
use general_pod_autoscaler.Scaler.Normalize.{
  normalize_desired_replicas, normalize_desired_replicas_with_behaviors,
}
use general_pod_autoscaler.Reconcile.{
  Scale, GroupResource, Effect, event, event_warning, Cluster, Clock, at_succeeded_get_scale,
  at_initial_recommendation, at_disabled, at_normalize, at_set_status,
}
use general_pod_autoscaler.Reconcile.Status.{
  set_current_replicas_in_status, update_status_if_needed,
}
use general_pod_autoscaler.Reconcile.Replicas.{Process, Computation, compute_replicas_for_metrics}
use general_pod_autoscaler.Reconcile.Replicas.Simple.{Scalers, compute_replicas_for_simple}
use general_pod_autoscaler.Reconcile.Rescale.{
  Run, Outcome, decided, returned, min_replicas_of, is_empty_mode, return_failed_get_scale,
  apply_decision,
}
use general_pod_autoscaler.Reconcile.Target.{find_scale, take_over_labels}

-- The desired count of a mode, and why it is applied.
abbrev pub reason_of : Runtime → String → ℤ → ℤ → String
reason_of rt rescale_metric current desired =
    if ltb_ℤ desired current
    then "All metrics below target"
    else if ltb_ℤ current desired
    then rt.sprintf "%s above target" (FmtArg.str rescale_metric ∷ [])
    else ""

module _ {k : K8s} (rt : Runtime) (w : Cluster k) (clock : Clock)
    (original : GeneralPodAutoscalerStatus k) (c : ReplicaCalculator rt) (lib : Scalers) where
  -- The call of the mode.
  pub compute_replicas : Option (MetricMode k) → Scale → Run k → Option (Computation k)
  compute_replicas (some mode) scale run =
      compute_replicas_for_metrics rt w clock run.gpa scale run.process c mode.metrics
  compute_replicas none scale run =
      compute_replicas_for_simple rt w clock lib run.gpa scale run.process

  -- The mode gave an error.
  pub return_failed_compute : ℤ → GoError → Run k → Option GoError × Run k
  return_failed_compute current e run =
      let gpa = set_current_replicas_in_status (clock at_set_status 0) run.gpa current in
      (
        some (
            wrap e
              "failed to compute desired number of replicas based on listed metrics for %s: %v"),
        record run {
          gpa = gpa;
          effects =
              run.effects
              ++ (update_status_if_needed w original gpa).0
              ++ (event event_warning "FailedComputeMetricsReplicas" (w.show_error e) ∷ []);
        },
      )

  -- The normalization, with or without a behaviour.
  pub normalize :
      String
      → ℤ
      → ℤ
      → GeneralPodAutoscaler k
      → GeneralController
      → Option (ℤ × GeneralPodAutoscaler k × GeneralController)
  normalize key current desired gpa a =
      if is_nil gpa.spec.behavior
      then some (
          normalize_desired_replicas rt (clock at_normalize) gpa a key current desired
            (min_replicas_of gpa))
      else normalize_desired_replicas_with_behaviors rt (clock at_normalize) gpa a key current
          desired (min_replicas_of gpa)

  -- The event for a count above the maximum.
  pub exceeded_events : GeneralPodAutoscaler k → ℤ → List (Effect k)
  exceeded_events gpa metric_desired =
      if ltb_ℤ gpa.spec.max_replicas metric_desired
      then event event_warning "FailedRescale" (
          rt.sprintf "DesiredReplicas:%v cannot exceed the MaxReplicas: %v"
            (FmtArg.int metric_desired ∷ FmtArg.int gpa.spec.max_replicas ∷ []))
        ∷ []
      else []

  -- The mode gave a count. The desired count starts at 0.
  pub apply_mode : String → ℤ → ℤ → String → List (MetricStatus k) → Run k → Option (Outcome k)
  unfolding normalize exceeded_events
  apply_mode key current metric_desired metric_name statuses run =
      let above : Bool = ltb_ℤ (pos 0) metric_desired in
      let desired : ℤ = if above then metric_desired else pos 0 in
      normalize key current desired run.gpa run.controller >>= (λ r.
        let (normalized, gpa, controller) = r in
        some (
          decided
            (record {
              desired_replicas = normalized;
              rescale = not (eqb_ℤ normalized current);
              rescale_reason = reason_of rt (if above then metric_name else "") current desired;
              metric_statuses = statuses;
            })
            (record run {
              gpa = gpa;
              controller = controller;
              effects = run.effects ++ exceeded_events run.gpa metric_desired;
            })))

  -- What the mode returned.
  pub after_mode :
      String → ℤ → Result (ℤ × String) → List (MetricStatus k) → Run k → Option (Outcome k)
  unfolding return_failed_compute apply_mode
  after_mode key current (err e) statuses run =
      let (error, run') = return_failed_compute current e run in some (returned error run')
  after_mode key current (ok (desired, name)) statuses run =
      apply_mode key current desired name statuses run

  -- The last of the four cases.
  pub decide_by_mode : String → Scale → Run k → Option (Outcome k)
  unfolding compute_replicas after_mode
  decide_by_mode key scale run =
      if is_empty_mode run.gpa.spec.mode
      then some (returned none run)
      else compute_replicas run.gpa.spec.mode.metric_mode scale run >>= (λ m.
        let run' : Run k = record run {
          gpa = m.gpa;
          process = m.process;
          effects = run.effects ++ m.effects;
        } in
        after_mode key scale.spec_replicas m.result m.statuses run')

  -- The first three cases: scaling is disabled, or the current count is out of bounds.
  pub decide : String → Scale → Run k → Option (Outcome k)
  unfolding decide_by_mode
  decide key scale run =
      let current : ℤ = scale.spec_replicas in
      let lowest : ℤ = min_replicas_of run.gpa in
      let highest : ℤ = run.gpa.spec.max_replicas in
      if eqb_ℤ current (pos 0) && not (eqb_ℤ lowest (pos 0))
      then some (
          decided
            (record {
              desired_replicas = pos 0;
              rescale = false;
              rescale_reason = "";
              metric_statuses = [];
            })
            (record run {
              gpa =
                  set_condition rt (clock at_disabled 0) run.gpa scaling_active condition_false
                    "ScalingDisabled"
                    "scaling is disabled since the replica count of the target is zero" [];
            }))
      else if ltb_ℤ highest current
      then some (
          decided
            (record {
              desired_replicas = highest;
              rescale = true;
              rescale_reason = "Current number of replicas above Spec.MaxReplicas";
              metric_statuses = [];
            })
            run)
      else if ltb_ℤ current lowest
      then some (
          decided
            (record {
              desired_replicas = lowest;
              rescale = true;
              rescale_reason = "Current number of replicas below Spec.MinReplicas";
              metric_statuses = [];
            })
            run)
      else decide_by_mode key scale run

  -- The state once the scale is found.
  abbrev start_run : String → Scale → Run k → Run k
  start_run key scale run =
      let (gpa, effects) = take_over_labels w run.gpa scale in
      record run {
        gpa =
            set_condition rt (clock at_succeeded_get_scale 0) gpa able_to_scale condition_true
              "SucceededGetScale" "the GPA controller was able to get the target's current scale"
              [];
        controller =
            record_initial_recommendation (clock at_initial_recommendation 0) scale.spec_replicas
              key run.controller;
        effects = run.effects ++ effects;
      }

  pub act : String → Scale → GroupResource → Outcome k → Option (Option GoError × Run k)
  act key scale target_gr (returned error run) = some (error, run)
  act key scale target_gr (decided decision run) =
      apply_decision rt w clock original target_gr scale key decision run

  -- Once the scale is found, or not.
  pub after_find :
      String → Run k → Result (Scale × GroupResource) → String → Option (Option GoError × Run k)
  unfolding decide act
  after_find key run (err e) format =
      some (return_failed_get_scale rt w clock original e format run)
  after_find key run (ok (scale, target_gr)) format =
      decide key scale (start_run key scale run) >>= act key scale target_gr

-- The error that is returned, and the state afterwards.
pub reconcile_autoscaler :
    {k : K8s} (rt : Runtime)
    → Cluster k
    → Clock
    → ReplicaCalculator rt
    → Scalers
    → GeneralPodAutoscaler k
    → GeneralController
    → Process
    → String
    → Option (Option GoError × Run k)
unfolding after_find
reconcile_autoscaler {k} rt w clock c lib gpa a process key =
    let run : Run k = record { gpa = gpa; controller = a; process = process; effects = [] } in
    let (found, format) = find_scale w gpa in
    after_find rt w clock gpa.status c lib key run found format
