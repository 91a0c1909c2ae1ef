-- ===== src/Reconcile/Rescale.antt =====
-- The state of `reconcileAutoscaler` (pkg/scaler/general.go), and its ends: the update of the scale
-- and of the status.
pub mod Effects
pub mod Total
pub mod Failed
use general_pod_autoscaler.Common.{
  String, Bool, ◌&&◌, List, [], ◌∷◌, ◌++◌, Option, none, some, ◌>>=◌, if◌then◌else◌, is_nil,
}
use general_pod_autoscaler.Common.Int.{ℤ, pos}
use general_pod_autoscaler.Common.Runtime.{FmtArg, Runtime}
use general_pod_autoscaler.Api.Extern.{K8s}
use general_pod_autoscaler.Api.Metrics.{MetricStatus}
use general_pod_autoscaler.Api.Modes.{AutoScalingDrivenMode}
use general_pod_autoscaler.Api.Autoscaler.{
  GeneralPodAutoscaler, GeneralPodAutoscalerStatus, able_to_scale, condition_true, condition_false,
}
use general_pod_autoscaler.ScalerCore.Errors.{GoError, wrap}
use general_pod_autoscaler.Scaler.State.{GeneralController}
use general_pod_autoscaler.Scaler.Conditions.{set_condition}
use general_pod_autoscaler.Scaler.Events.{store_scale_event}
use general_pod_autoscaler.Reconcile.{
  Scale, GroupResource, Effect, event, update_scale, event_warning, event_normal, Cluster, Clock,
  at_failed_get_scale, at_failed_update, at_rescaled, at_store, at_set_status,
}
use general_pod_autoscaler.Reconcile.Status.{
  set_status, set_current_replicas_in_status, update_status_if_needed,
}
use general_pod_autoscaler.Reconcile.Replicas.{Process}

-- The autoscaler with what the controller keeps, and what was written so far.
pub record Run (k : K8s) : Type 0 where
  pub gpa : GeneralPodAutoscaler k
  pub controller : GeneralController
  pub process : Process
  pub effects : List (Effect k)

-- The variables that the four cases before the scaling set. `rescale` is also false when the
-- desired count is the current one.
pub record Decision (k : K8s) : Type 0 where
  pub desired_replicas : ℤ
  pub rescale : Bool
  pub rescale_reason : String
  pub metric_statuses : List (MetricStatus k)

-- A case of `reconcileAutoscaler` goes on to the scaling, or the function returns.
pub data Outcome (k : K8s) : Type 0 where
  decided : Decision k → Run k → Outcome k
  returned : Option GoError → Run k → Outcome k

module _ {k : K8s} where
  abbrev pub add_effects : Run k → List (Effect k) → Run k
  add_effects run effects = record run { effects = run.effects ++ effects }

  -- `Spec.MinReplicas`, or 1.
  unfoldable pub min_replicas_of : GeneralPodAutoscaler k → ℤ
  min_replicas_of gpa = elim gpa.spec.min_replicas [ none ↦ pos 1 | some n ↦ n ]

  pub is_empty_mode : AutoScalingDrivenMode k → Bool
  is_empty_mode mode =
      is_nil mode.metric_mode
      && is_nil mode.event_mode
      && is_nil mode.time_mode
      && is_nil mode.webhook_mode

module _ {k : K8s} (rt : Runtime) (w : Cluster k) (clock : Clock)
    (original : GeneralPodAutoscalerStatus k) where
  -- The update of the status before an error is returned; its own error is only logged.
  pub update_and_return : GoError → Run k → Option GoError × Run k
  update_and_return e run = (some e, add_effects run (update_status_if_needed w original run.gpa).0)

  -- After the scale was not found.
  pub return_failed_get_scale : GoError → String → Run k → Option GoError × Run k
  unfolding update_and_return
  return_failed_get_scale e format run = update_and_return (wrap e format) (record run {
    gpa =
        set_condition rt (clock at_failed_get_scale 0) run.gpa able_to_scale condition_false
          "FailedGetScale" "the GPA controller was unable to get the target's current scale: %v"
          (FmtArg.str (w.show_error e) ∷ []);
    effects = run.effects ++ (event event_warning "FailedGetScale" (w.show_error e) ∷ []);
  })

  -- The end: the status is set and written.
  pub finish_reconcile : ℤ → Decision k → Run k → Option GoError × Run k
  finish_reconcile current decision run =
      let gpa =
        set_status (clock at_set_status 0) run.gpa current
          (if decision.rescale then decision.desired_replicas else current) decision.metric_statuses
          decision.rescale in
      let (effects, error) = update_status_if_needed w original gpa in
      (error, record run { gpa = gpa; effects = run.effects ++ effects })

  module _ (target_gr : GroupResource) (scale : Scale) where
    abbrev pub rescaled : Decision k → Scale
    rescaled decision = record scale { spec_replicas = decision.desired_replicas }

    -- The update of the scale failed.
    pub return_failed_update : GoError → Decision k → Run k → Option GoError × Run k
    unfolding update_and_return
    return_failed_update e decision run =
        let gpa =
          set_condition rt (clock at_failed_update 0) run.gpa able_to_scale condition_false
            "FailedUpdateScale" "the GPA controller was unable to update the target scale: %v"
            (FmtArg.str (w.show_error e) ∷ []) in
        update_and_return (wrap e "failed to rescale %s: %v") (record run {
          gpa = set_current_replicas_in_status (clock at_set_status 0) gpa scale.spec_replicas;
          effects =
              run.effects
              ++ (update_scale target_gr (rescaled decision)
                  ∷ event event_warning "FailedRescale" (
                      rt.sprintf "New size: %d; reason: %s; error: %v" (
                        FmtArg.int decision.desired_replicas
                        ∷ FmtArg.str decision.rescale_reason
                        ∷ FmtArg.str (w.show_error e)
                        ∷ []))
                  ∷ []);
        })

    -- The update of the scale succeeded.
    pub after_update : String → Decision k → Run k → Option (Run k)
    after_update key decision run =
        store_scale_event (clock at_store 0) (clock at_store 1) run.controller run.gpa.spec.behavior
          key scale.spec_replicas decision.desired_replicas
        >>= (λ controller. some (record run {
          gpa =
              set_condition rt (clock at_rescaled 0) run.gpa able_to_scale condition_true
                "SucceededRescale" "the GPA controller was able to update the target scale to %d"
                (FmtArg.int decision.desired_replicas ∷ []);
          controller = controller;
          effects =
              run.effects
              ++ (update_scale target_gr (rescaled decision)
                  ∷ event event_normal "SuccessfulRescale" (
                      rt.sprintf "New size: %d; reason: %s" (
                        FmtArg.int decision.desired_replicas
                        ∷ FmtArg.str decision.rescale_reason
                        ∷ []))
                  ∷ []);
        }))

    -- What the client of scales returned.
    pub after_put : Option GoError → String → Decision k → Run k → Option (Option GoError × Run k)
    unfolding return_failed_update after_update finish_reconcile
    after_put (some e) key decision run = some (return_failed_update e decision run)
    after_put none key decision run =
        after_update key decision run
        >>= (λ run'. some (finish_reconcile scale.spec_replicas decision run'))

    pub apply_decision : String → Decision k → Run k → Option (Option GoError × Run k)
    unfolding after_put finish_reconcile
    apply_decision key decision run =
        if decision.rescale
        then after_put (w.put_scale run.gpa.namespace target_gr (rescaled decision)) key decision
            run
        else some (finish_reconcile scale.spec_replicas decision run)
