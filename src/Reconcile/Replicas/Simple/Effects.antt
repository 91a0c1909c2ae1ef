-- ===== src/Reconcile/Replicas/Simple/Effects.antt =====
-- The modes without metrics write no scale, and leave the bounds and the behaviour.
use general_pod_autoscaler.Common.{Option, some, none, ◌≡◌, refl, bind-some, some_inj, subst}
use general_pod_autoscaler.Common.Int.{ℤ}
use general_pod_autoscaler.Common.Runtime.{Runtime}
use general_pod_autoscaler.Api.Extern.{K8s}
use general_pod_autoscaler.Api.Modes.{WebhookMode}
use general_pod_autoscaler.Api.Autoscaler.{GeneralPodAutoscaler}
use general_pod_autoscaler.ScalerCore.Errors.{Result}
use general_pod_autoscaler.ScalerCore.Chain.{Size}
use general_pod_autoscaler.ScalerCore.Webhook.{get_replicas as webhook_replicas}
use general_pod_autoscaler.Scaler.Conditions.Lookup.{spec-set_condition}
use general_pod_autoscaler.Reconcile.{Scale, Cluster, Clock}
use general_pod_autoscaler.Reconcile.Writes.{scale_writes}
use general_pod_autoscaler.Reconcile.Replicas.{Process, Computation}
use general_pod_autoscaler.Reconcile.Replicas.Effects.{
  SameBounds, IsHarmless, after, spec→SameBounds, with_scale_selector-IsHarmless,
}
use general_pod_autoscaler.Reconcile.Replicas.Simple.{
  Scalers, call_webhook, call_cron, judge_size, compute_replicas_for_simple,
}

module _ {k : K8s} (rt : Runtime) (w : Cluster k) (clock : Clock) (lib : Scalers) where
  call_webhook-SameBounds :
      (gpa : GeneralPodAutoscaler k) (mode : Option WebhookMode) (current : ℤ) (process : Process)
      (r : Result ℤ × GeneralPodAutoscaler k × Process)
      → call_webhook rt w clock lib gpa mode current process ≡ some r
      → SameBounds gpa r.1
  unfolding call_webhook
  call_webhook-SameBounds gpa none current process r e =
      subst (λ x. SameBounds gpa x.1) (some_inj e) (spec→SameBounds gpa gpa refl)
  call_webhook-SameBounds gpa (some mode) current process r e =
      let (answer, ea, er) =
        bind-some (webhook_replicas rt lib.webhook gpa (some mode) current process.transport) _ e in
      subst (λ x. SameBounds gpa x.1) (some_inj er)
        (record { same_min = refl; same_max = refl; same_behavior = refl })

  judge_size-IsHarmless :
      (gpa : GeneralPodAutoscaler k) (process : Process) (size : Size)
      → IsHarmless gpa (judge_size rt w clock lib gpa process size)
  unfolding judge_size scale_writes
  judge_size-IsHarmless gpa process (count, name, none) =
      (refl, spec→SameBounds _ _ (spec-set_condition rt _ gpa _ _ _ _ _))
  judge_size-IsHarmless gpa process (count, name, some e) =
      (refl, spec→SameBounds _ _ (spec-set_condition rt _ gpa _ _ _ _ _))

  pub compute_replicas_for_simple-IsHarmless :
      (gpa : GeneralPodAutoscaler k) (scale : Scale) (process : Process) (m : Computation k)
      → compute_replicas_for_simple rt w clock lib gpa scale process ≡ some m
      → IsHarmless gpa m
  unfolding compute_replicas_for_simple
  compute_replicas_for_simple-IsHarmless gpa scale process m e =
      with_scale_selector-IsHarmless rt w clock gpa scale process _ m
        (λ selector h.
          let (r, er, rest) =
            bind-some
              (call_webhook rt w clock lib gpa gpa.spec.mode.webhook_mode scale.status_replicas
                process)
              _ h in
          let (s, es, last) =
            bind-some
              (call_cron rt w clock lib r.1 r.1.spec.mode.time_mode scale.status_replicas r.2) _
              rest in
          let (writes, same) = judge_size-IsHarmless r.1 s.1 _ in
          subst (IsHarmless gpa) (some_inj last)
            (writes, after (call_webhook-SameBounds gpa _ _ process r er) same))
        e
