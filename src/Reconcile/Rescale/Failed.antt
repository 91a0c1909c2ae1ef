-- ===== src/Reconcile/Rescale/Failed.antt =====
-- A failed update of the scale.
use general_pod_autoscaler.Common.{String, some, true, ◌≡◌, refl, ◌∙◌}
use general_pod_autoscaler.Common.Runtime.{Runtime}
use general_pod_autoscaler.Api.Extern.{K8s}
use general_pod_autoscaler.Api.Autoscaler.{GeneralPodAutoscalerStatus}
use general_pod_autoscaler.ScalerCore.Errors.{GoError, wrap}
use general_pod_autoscaler.Reconcile.{Scale, GroupResource, Cluster, Clock}
use general_pod_autoscaler.Scaler.Conditions.Lookup.{
  desired-set_condition, last_scale-set_condition,
}
use general_pod_autoscaler.Reconcile.Status.Effects.{
  desired-set_current_replicas, last_scale-set_current_replicas,
}
use general_pod_autoscaler.Reconcile.Rescale.{
  Run, Decision, rescaled, update_and_return, return_failed_update, after_put, apply_decision,
}

module _ {k : K8s} (rt : Runtime) (w : Cluster k) (clock : Clock)
    (original : GeneralPodAutoscalerStatus k) (target_gr : GroupResource) (scale : Scale)
    (key : String) (decision : Decision k) (run : Run k) (e : GoError) where
  -- When the update of the scale fails, its error is returned, the controller is as before (no
  -- scaling is recorded), and so are the desired count and the time of the last scaling in the status.
  pub failed_update_keeps :
      decision.rescale ≡ true
      → w.put_scale run.gpa.namespace target_gr
          (rescaled rt w clock original target_gr scale decision)
        ≡ some e
      → (run' : Run k) × (apply_decision rt w clock original target_gr scale key decision run
          ≡ some (some (wrap e "failed to rescale %s: %v"), run'))
        × (run'.controller ≡ run.controller)
        × (run'.gpa.status.desired_replicas ≡ run.gpa.status.desired_replicas)
        × (run'.gpa.status.last_scale_time ≡ run.gpa.status.last_scale_time)
  unfolding apply_decision after_put return_failed_update update_and_return
  failed_update_keeps rescales fails =
      rw (rescales, fails)
        (
          _,
          refl,
          refl,
          desired-set_current_replicas _ _ _ ∙ desired-set_condition rt _ run.gpa _ _ _ _ _,
          last_scale-set_current_replicas _ _ _ ∙ last_scale-set_condition rt _ run.gpa _ _ _ _ _,
        )
