-- ===== src/Reconcile/Status.antt =====
-- The status of an autoscaler: `setStatus`, `setCurrentReplicasInStatus`, `updateStatusIfNeeded`,
-- `updateStatus` of pkg/scaler/general.go.
pub mod Effects
use general_pod_autoscaler.Common.{
  Bool, List, [], ◌∷◌, ◌++◌, Option, none, some, if◌then◌else◌, is_nil, false,
}
use general_pod_autoscaler.Common.Int.{ℤ}
use general_pod_autoscaler.Api.Extern.{K8s, Time}
use general_pod_autoscaler.Api.Metrics.{MetricStatus}
use general_pod_autoscaler.Api.Autoscaler.{GeneralPodAutoscaler, GeneralPodAutoscalerStatus}
use general_pod_autoscaler.ScalerCore.Errors.{GoError, wrap}
use general_pod_autoscaler.Reconcile.{
  Effect, event, update_status, update_object, Cluster, event_warning,
}

module _ {k : K8s} where
  -- The two fields that are not copied are set to nil.
  pub set_status :
      Time → GeneralPodAutoscaler k → ℤ → ℤ → List (MetricStatus k) → Bool → GeneralPodAutoscaler k
  set_status now gpa current_replicas desired_replicas metric_statuses rescale = record gpa {
    status = record {
      observed_generation = none;
      last_scale_time = if rescale then some now else gpa.status.last_scale_time;
      current_replicas = current_replicas;
      desired_replicas = desired_replicas;
      current_metrics = metric_statuses;
      conditions = gpa.status.conditions;
      last_cron_schedule_time =
          if rescale then (if is_nil gpa.spec.mode.time_mode then none else some now) else none;
    };
  }

  pub set_current_replicas_in_status : Time → GeneralPodAutoscaler k → ℤ → GeneralPodAutoscaler k
  unfolding set_status
  set_current_replicas_in_status now gpa current_replicas =
      set_status now gpa current_replicas gpa.status.desired_replicas gpa.status.current_metrics
        false

module _ {k : K8s} (w : Cluster k) where
  -- What `updateStatus` writes and the error that it returns, if any.
  pub put_new_status : GeneralPodAutoscaler k → List (Effect k) × Option GoError
  put_new_status gpa = elim (w.put_status gpa) [
    | none ↦ (update_status gpa ∷ [], none)
    | some e ↦ (
      update_status gpa ∷ event event_warning "FailedUpdateStatus" (w.show_error e) ∷ [],
      some (wrap e "failed to update status for %s: %v"),
    )
  ]

  -- After a failed update of the status, the whole object is updated.
  pub update_status_if_needed :
      GeneralPodAutoscalerStatus k → GeneralPodAutoscaler k → List (Effect k) × Option GoError
  unfolding put_new_status
  update_status_if_needed old_status new_gpa =
      if w.status_equal old_status new_gpa.status
      then ([], none)
      else let (effects, error) = put_new_status new_gpa in
        if is_nil error
        then (effects, none)
        else (effects ++ (update_object new_gpa ∷ []), w.put_object new_gpa)
