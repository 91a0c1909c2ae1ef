-- ===== src/Reconcile/Autoscaler/Total.antt =====
-- A decision is reached without a panic.
use general_pod_autoscaler.Common.{
  String, not, ◌&&◌, List, Option, some, none, ◌≡◌, ◌≢◌, refl, inl, inr, bind_ne_none, bind_total,
  if_total, if_ne_none, some_ne_none, if◌then◌else◌, is_nil, Option-cases, arith, ap, ◌∙◌, sym,
  subst, ◌++◌,
}
use mathlib.Core.Bool.{true≢false}
use general_pod_autoscaler.Common.Int.{ℤ, pos, ltb_ℤ, eqb_ℤ}
use general_pod_autoscaler.Common.Float.{IsIeee}
use general_pod_autoscaler.Common.Runtime.{Runtime}
use general_pod_autoscaler.Api.Extern.{K8s}
use general_pod_autoscaler.Api.Metrics.{MetricStatus}
use general_pod_autoscaler.Api.Modes.{MetricMode}
use general_pod_autoscaler.Api.Autoscaler.{GeneralPodAutoscaler, GeneralPodAutoscalerStatus}
use general_pod_autoscaler.ScalerCore.Errors.{Result, ok, err}
use general_pod_autoscaler.Replicas.Calculator.{ReplicaCalculator}
use general_pod_autoscaler.Scaler.State.{GeneralController}
use general_pod_autoscaler.Scaler.Normalize.Bounds.{normalize_with_behaviors_bounds}
use general_pod_autoscaler.Reconcile.{Scale, Cluster, Clock, at_normalize}
use general_pod_autoscaler.Reconcile.Replicas.Total.{compute_replicas_for_metrics_total}
use general_pod_autoscaler.Reconcile.Replicas.Simple.{Scalers}
use general_pod_autoscaler.Reconcile.Replicas.Simple.Total.{
  CanAsk, compute_replicas_for_simple_total,
}
use general_pod_autoscaler.Reconcile.Rescale.{Run, is_empty_mode, min_replicas_of}
use general_pod_autoscaler.Reconcile.Autoscaler.Ready.{
  IsCompleteIfAny, IsReady, IsWithin, IsReady-SameBounds, IsWithin-SameBounds, back,
}
use general_pod_autoscaler.Reconcile.Autoscaler.Bounds.{computation-IsHarmless}
use general_pod_autoscaler.Reconcile.Autoscaler.{
  compute_replicas, normalize, apply_mode, after_mode, decide_by_mode, decide,
}

module _ {k : K8s} (rt : Runtime) (ieee : IsIeee rt.float) (w : Cluster k) (clock : Clock)
    (original : GeneralPodAutoscalerStatus k) (c : ReplicaCalculator rt) (lib : Scalers) where
  normalize_total :
      (key : String) (current desired : ℤ) (gpa : GeneralPodAutoscaler k) (a : GeneralController)
      → IsReady gpa
      → IsWithin gpa current
      → normalize rt w clock original c lib key current desired gpa a ≢ none
  unfolding normalize
  normalize_total key current desired gpa a ready (lo, hi) =
      if_total (is_nil gpa.spec.behavior) _ _ (λ plain. some_ne_none)
        (λ set. elim (Option-cases gpa.spec.behavior) [
          | inl missing ↦ absurd (true≢false (sym (ap is_nil missing) ∙ set))
          | inr (behavior, has) ↦
              let (r, e, low, high) =
                normalize_with_behaviors_bounds rt (clock at_normalize) gpa a key current desired
                  (min_replicas_of gpa) behavior has (subst IsCompleteIfAny has ready.complete) lo
                  hi in
              λ nothing. some_ne_none (sym e ∙ nothing)
        ])

  after_mode_total :
      (key : String) (current : ℤ) (result : Result (ℤ × String)) (statuses : List (MetricStatus k))
      (run : Run k)
      → IsReady run.gpa
      → IsWithin run.gpa current
      → after_mode rt w clock original c lib key current result statuses run ≢ none
  unfolding after_mode apply_mode
  after_mode_total key current (err e) statuses run ready within = some_ne_none
  after_mode_total key current (ok (desired, name)) statuses run ready within =
      bind_ne_none _ _
        (normalize_total key current (if ltb_ℤ (pos 0) desired then desired else pos 0) run.gpa
          run.controller ready within)
        (λ r. some_ne_none)

  compute_replicas_total :
      (mode : Option (MetricMode k)) (scale : Scale) (run : Run k)
      → run.gpa.spec.mode.metric_mode ≡ mode
      → CanAsk clock lib run.gpa
      → compute_replicas rt w clock original c lib mode scale run ≢ none
  unfolding compute_replicas
  compute_replicas_total (some mode) scale run set can =
      compute_replicas_for_metrics_total rt w clock run.gpa scale run.process c mode.metrics
        (can.metrics mode set)
  compute_replicas_total none scale run set can =
      compute_replicas_for_simple_total rt w clock lib run.gpa scale run.process can

  decide_by_mode_total :
      (key : String) (scale : Scale) (run : Run k)
      → IsReady run.gpa
      → CanAsk clock lib run.gpa
      → IsWithin run.gpa scale.spec_replicas
      → decide_by_mode rt w clock original c lib key scale run ≢ none
  unfolding decide_by_mode
  decide_by_mode_total key scale run ready can within =
      if_ne_none (is_empty_mode run.gpa.spec.mode) _ _ some_ne_none (
        bind_total _ _ (compute_replicas_total run.gpa.spec.mode.metric_mode scale run refl can)
          λ m e.
            let (harmless, same) =
              computation-IsHarmless rt ieee w clock original c lib run.gpa.spec.mode.metric_mode
                scale run m e in
            after_mode_total key scale.spec_replicas m.result m.statuses
              (record run { gpa = m.gpa; process = m.process; effects = run.effects ++ m.effects })
              (IsReady-SameBounds run.gpa m.gpa same ready)
              (IsWithin-SameBounds m.gpa run.gpa scale.spec_replicas (back same) within))

  pub decide_total :
      (key : String) (scale : Scale) (run : Run k)
      → IsReady run.gpa
      → CanAsk clock lib run.gpa
      → decide rt w clock original c lib key scale run ≢ none
  unfolding decide
  decide_total key scale run ready can =
      if_total (eqb_ℤ scale.spec_replicas (pos 0) && not (eqb_ℤ (min_replicas_of run.gpa) (pos 0)))
        _ _ (λ disabled. some_ne_none)
        λ active.
          if_total (ltb_ℤ run.gpa.spec.max_replicas scale.spec_replicas) _ _ (λ above. some_ne_none)
            λ at_most.
              if_total (ltb_ℤ scale.spec_replicas (min_replicas_of run.gpa)) _ _
                (λ below. some_ne_none)
                λ at_least.
                  decide_by_mode_total key scale run ready can (ground arith, ground arith)
