-- ===== src/Reconcile/Replicas/Simple.antt =====
-- The modes without metrics: `computeReplicasForSimple` and `buildScalerChain`.
pub mod Effects
pub mod Total
use general_pod_autoscaler.Common.{ℕ, List, [], ◌∷◌, ◌++◌, Option, none, some, ◌>>=◌}
use general_pod_autoscaler.Common.Int.{ℤ, pos}
use general_pod_autoscaler.Common.Runtime.{FmtArg, Runtime}
use general_pod_autoscaler.Api.Extern.{K8s}
use general_pod_autoscaler.Api.Modes.{TimeMode, WebhookMode, AutoScalingDrivenMode}
use general_pod_autoscaler.Api.Autoscaler.{
  GeneralPodAutoscaler, GeneralPodAutoscalerSpec, scaling_active, condition_true, condition_false,
}
use general_pod_autoscaler.ScalerCore.Errors.{wrap, Result, ok, err}
use general_pod_autoscaler.ScalerCore.Chain.{Scaler, Size, compute_desired_size}
use general_pod_autoscaler.ScalerCore.Cron.{CronLibrary, get_replicas as cron_replicas}
use general_pod_autoscaler.ScalerCore.Webhook.{WebhookLibrary, get_replicas as webhook_replicas}
use general_pod_autoscaler.Scaler.Conditions.{set_condition}
use general_pod_autoscaler.Reconcile.{Scale, Cluster, Clock, at_active, at_cron}
use general_pod_autoscaler.Reconcile.Replicas.{Process, Computation, with_scale_selector}

-- The scalers of the modes that are set, each with what its call returns.
pub build_scaler_chain :
    {k : K8s} → AutoScalingDrivenMode k → Result ℤ → ℤ → List (Scaler (GeneralPodAutoscaler k))
build_scaler_chain mode of_webhook of_cron =
    elim mode.webhook_mode [
      | none ↦ []
      | some _ ↦ record { scaler_name = "Webhook"; get_replicas = λ gpa current. of_webhook } ∷ []
    ]
    ++ elim mode.time_mode [
      | none ↦ []
      | some _ ↦ record { scaler_name = "Cron"; get_replicas = λ gpa current. ok of_cron } ∷ []
    ]

-- What the scalers read: the cron library with the fuel of its walk, and the webhook's.
pub record Scalers : Type 1 where
  pub cron : CronLibrary
  pub fuel : ℕ
  pub webhook : WebhookLibrary

module _ {k : K8s} (rt : Runtime) (w : Cluster k) (clock : Clock) (lib : Scalers) where
  -- The configuration of the webhook is the autoscaler's, so that its changes are, too.
  abbrev with_webhook : GeneralPodAutoscaler k → Option WebhookMode → GeneralPodAutoscaler k
  with_webhook gpa webhook =
      let spec : GeneralPodAutoscalerSpec k = gpa.spec in
      let mode : AutoScalingDrivenMode k = spec.mode in
      record gpa { spec = record spec { mode = record mode { webhook_mode = webhook } } }

  -- The call of the webhook, if the mode is set.
  pub call_webhook :
      GeneralPodAutoscaler k
      → Option WebhookMode
      → ℤ
      → Process
      → Option (Result ℤ × GeneralPodAutoscaler k × Process)
  call_webhook gpa none current process = some (ok (pos 0), gpa, process)
  call_webhook gpa (some mode) current process =
      webhook_replicas rt lib.webhook gpa (some mode) current process.transport
      >>= (λ r. some (r.0, with_webhook gpa r.1, record process { transport = r.2 }))

  -- The call of the timetable, if the mode is set.
  pub call_cron : GeneralPodAutoscaler k → Option TimeMode → ℤ → Process → Option (ℤ × Process)
  call_cron gpa none current process = some (pos 0, process)
  call_cron gpa (some mode) current process =
      cron_replicas lib.cron lib.fuel gpa (clock at_cron 0) mode.time_ranges
        process.record_schedule_name current
      >>= (λ r. some (r.0, record process { record_schedule_name = r.1 }))

  -- From the count, the name and the error of the chain.
  pub judge_size : GeneralPodAutoscaler k → Process → Size → Computation k
  judge_size gpa process (count, name, none) = record {
    result = ok (count, name);
    gpa =
        set_condition rt (clock at_active 0) gpa scaling_active condition_true "ValidMetricFound"
          "the GPA was able to successfully calculate a replica count from %s" (FmtArg.str "" ∷ []);
    statuses = [];
    effects = [];
    process = process;
  }
  judge_size gpa process (count, name, some e) = record {
    result = err (wrap e "invalid mode %v, first error is: %v");
    gpa =
        set_condition rt (clock at_active 0) gpa scaling_active condition_false
          (rt.sprintf "%v failed" (FmtArg.str name ∷ []))
          (rt.sprintf "%v failed: %v" (FmtArg.str name ∷ FmtArg.str (w.show_error e) ∷ [])) [];
    statuses = [];
    effects = [];
    process = process;
  }

  pub compute_replicas_for_simple :
      GeneralPodAutoscaler k → Scale → Process → Option (Computation k)
  unfolding call_webhook call_cron build_scaler_chain judge_size
  compute_replicas_for_simple gpa scale process =
      with_scale_selector rt w clock gpa scale process λ selector.
        call_webhook gpa gpa.spec.mode.webhook_mode scale.status_replicas process >>= (λ r.
          call_cron r.1 r.1.spec.mode.time_mode scale.status_replicas r.2 >>= (λ s. some (
            judge_size r.1 s.1 (
              compute_desired_size rt r.1 r.1.name scale.status_replicas
                (build_scaler_chain r.1.spec.mode r.0 s.0)))))
