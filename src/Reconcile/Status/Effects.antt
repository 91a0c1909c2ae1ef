-- ===== src/Reconcile/Status/Effects.antt =====
-- The update of the status writes no scale; what the new status keeps of the old.
use general_pod_autoscaler.Common.{[], ◌≡◌, refl, arith}
use general_pod_autoscaler.Common.Int.{ℤ}
use general_pod_autoscaler.Api.Extern.{K8s, Time}
use general_pod_autoscaler.Api.Autoscaler.{GeneralPodAutoscaler, GeneralPodAutoscalerStatus}
use general_pod_autoscaler.Reconcile.{Cluster}
use general_pod_autoscaler.Reconcile.Writes.{scale_writes}
use general_pod_autoscaler.Reconcile.Status.{
  set_status, set_current_replicas_in_status, put_new_status, update_status_if_needed,
}

module _ {k : K8s} (w : Cluster k) (old : GeneralPodAutoscalerStatus k)
    (gpa : GeneralPodAutoscaler k) where
  pub update_status_writes : scale_writes (update_status_if_needed w old gpa).0 ≡ []
  unfolding update_status_if_needed put_new_status scale_writes
  update_status_writes = ground arith

-- The desired count and the time of the last scaling stay.
module _ {k : K8s} (now : Time) (gpa : GeneralPodAutoscaler k) (current : ℤ) where
  pub desired-set_current_replicas :
      (set_current_replicas_in_status now gpa current).status.desired_replicas
      ≡ gpa.status.desired_replicas
  unfolding set_current_replicas_in_status set_status
  desired-set_current_replicas = refl

  pub last_scale-set_current_replicas :
      (set_current_replicas_in_status now gpa current).status.last_scale_time
      ≡ gpa.status.last_scale_time
  unfolding set_current_replicas_in_status set_status
  last_scale-set_current_replicas = refl
