-- ===== src/Reconcile/Replicas/Simple/Total.antt =====
-- The modes without metrics end, if their libraries do.
use general_pod_autoscaler.Common.{
  String, All, Option, some, none, ◌≡◌, ◌≢◌, refl, bind_ne_none, bind_total, some_ne_none, subst,
  ap, some_inj, bind-some, ◌∙◌, sym,
}
use general_pod_autoscaler.Common.Int.{ℤ}
use general_pod_autoscaler.Common.Runtime.{Runtime}
use general_pod_autoscaler.Api.Extern.{K8s}
use general_pod_autoscaler.Api.Modes.{WebhookMode, TimeMode, MetricMode}
use general_pod_autoscaler.Api.Autoscaler.{GeneralPodAutoscaler}
use general_pod_autoscaler.ScalerCore.Errors.{Result}
use general_pod_autoscaler.ScalerCore.Cron.{get_replicas as cron_replicas}
use general_pod_autoscaler.ScalerCore.Webhook.{get_replicas as webhook_replicas}
use general_pod_autoscaler.ScalerCore.Webhook.Answer.{get_replicas_ne_none}
use general_pod_autoscaler.Reconcile.{Scale, Cluster, Clock, at_cron}
use general_pod_autoscaler.Reconcile.Metrics.Each.Total.{IsPopulated}
use general_pod_autoscaler.Reconcile.Replicas.{Process}
use general_pod_autoscaler.Reconcile.Replicas.Total.{with_scale_selector_total}
use general_pod_autoscaler.Reconcile.Replicas.Simple.{
  Scalers, call_webhook, call_cron, compute_replicas_for_simple,
}

-- The times that the timetable is read at.
pub record SameTimes {k : K8s} (gpa gpa' : GeneralPodAutoscaler k) : Type 0 where
  pub same_creation : gpa'.creation_timestamp ≡ gpa.creation_timestamp
  pub same_last : gpa'.status.last_cron_schedule_time ≡ gpa.status.last_cron_schedule_time

pub SameTimes-after :
    {k : K8s} {gpa gpa' gpa'' : GeneralPodAutoscaler k}
    → SameTimes gpa gpa'
    → SameTimes gpa' gpa''
    → SameTimes gpa gpa''
SameTimes-after h g = record {
  same_creation = g.same_creation ∙ h.same_creation;
  same_last = g.same_last ∙ h.same_last;
}

-- What the mode of an autoscaler must hold for its call to end without a panic: metrics whose
-- sources are populated, a webhook with a configuration, and a timetable whose walk ends.
pub record CanAsk {k : K8s} (clock : Clock) (lib : Scalers) (gpa : GeneralPodAutoscaler k)
    : Type 0 where
  pub metrics : (m : MetricMode k) → gpa.spec.mode.metric_mode ≡ some m → All IsPopulated m.metrics
  pub webhook :
      (m : WebhookMode) → gpa.spec.mode.webhook_mode ≡ some m → m.webhook_client_config ≢ none
  pub timetable :
      (m : TimeMode)
      → gpa.spec.mode.time_mode ≡ some m
      → (gpa' : GeneralPodAutoscaler k) (name : String) (current : ℤ) → SameTimes gpa gpa'
      → cron_replicas lib.cron lib.fuel gpa' (clock at_cron 0) m.time_ranges name current ≢ none

pub CanAsk-same :
    {k : K8s} (clock : Clock) (lib : Scalers) (gpa gpa' : GeneralPodAutoscaler k)
    → gpa'.spec ≡ gpa.spec
    → SameTimes gpa gpa'
    → CanAsk clock lib gpa
    → CanAsk clock lib gpa'
CanAsk-same clock lib gpa gpa' spec same can = record {
  metrics = λ m set. can.metrics m (ap (λ s. s.mode.metric_mode) (sym spec) ∙ set);
  webhook = λ m set. can.webhook m (ap (λ s. s.mode.webhook_mode) (sym spec) ∙ set);
  timetable = λ m set gpa'' name current after.
      can.timetable m (ap (λ s. s.mode.time_mode) (sym spec) ∙ set) gpa'' name current
        (SameTimes-after same after);
}

module _ {k : K8s} (rt : Runtime) (w : Cluster k) (clock : Clock) (lib : Scalers) where
  call_webhook_total :
      (gpa : GeneralPodAutoscaler k) (mode : Option WebhookMode) (current : ℤ) (process : Process)
      → ((m : WebhookMode) → mode ≡ some m → m.webhook_client_config ≢ none)
      → call_webhook rt w clock lib gpa mode current process ≢ none
  unfolding call_webhook
  call_webhook_total gpa none current process has = some_ne_none
  call_webhook_total gpa (some m) current process has =
      bind_ne_none _ _
        (get_replicas_ne_none rt lib.webhook gpa m current process.transport (has m refl))
        (λ r. some_ne_none)

  call_webhook_keeps :
      (gpa : GeneralPodAutoscaler k) (mode : Option WebhookMode) (current : ℤ) (process : Process)
      (r : Result ℤ × GeneralPodAutoscaler k × Process)
      → call_webhook rt w clock lib gpa mode current process ≡ some r
      → (r.1.spec.mode.time_mode ≡ gpa.spec.mode.time_mode) × SameTimes gpa r.1
  unfolding call_webhook
  call_webhook_keeps gpa none current process r e =
      subst (λ x. (x.1.spec.mode.time_mode ≡ gpa.spec.mode.time_mode) × SameTimes gpa x.1)
        (some_inj e) (refl, record { same_creation = refl; same_last = refl })
  call_webhook_keeps gpa (some m) current process r e =
      let (answer, ea, er) =
        bind-some (webhook_replicas rt lib.webhook gpa (some m) current process.transport) _ e in
      subst (λ x. (x.1.spec.mode.time_mode ≡ gpa.spec.mode.time_mode) × SameTimes gpa x.1)
        (some_inj er) (refl, record { same_creation = refl; same_last = refl })

  call_cron_total :
      (gpa : GeneralPodAutoscaler k) (mode : Option TimeMode) (current : ℤ) (process : Process)
      → ((m : TimeMode)
          → mode ≡ some m
          → cron_replicas lib.cron lib.fuel gpa
              (clock at_cron 0)
              m.time_ranges
              process.record_schedule_name
              current
            ≢ none)
      → call_cron rt w clock lib gpa mode current process ≢ none
  unfolding call_cron
  call_cron_total gpa none current process ends = some_ne_none
  call_cron_total gpa (some m) current process ends =
      bind_ne_none _ _ (ends m refl) (λ r. some_ne_none)

  pub compute_replicas_for_simple_total :
      (gpa : GeneralPodAutoscaler k) (scale : Scale) (process : Process)
      → CanAsk clock lib gpa
      → compute_replicas_for_simple rt w clock lib gpa scale process ≢ none
  unfolding compute_replicas_for_simple
  compute_replicas_for_simple_total gpa scale process can =
      with_scale_selector_total rt w clock gpa scale process _ λ selector.
        bind_total _ _
          (call_webhook_total gpa gpa.spec.mode.webhook_mode scale.status_replicas process
            can.webhook)
          λ r e.
            let (same_mode, same) = call_webhook_keeps gpa _ _ process r e in
            bind_ne_none _ _
              (call_cron_total r.1 r.1.spec.mode.time_mode scale.status_replicas r.2
                (λ m set. can.timetable m (sym same_mode ∙ set) r.1 _ _ same))
              (λ s. some_ne_none)
