-- ===== src/Reconcile/Autoscaler/Bounds.antt =====
-- The decision of a reconciliation is within the bounds.
use general_pod_autoscaler.Common.{
  String, not, ◌&&◌, List, [], ◌∷◌, ◌++◌, Option, some, none, ◌≡◌, refl, inl, inr, bind-some,
  some_inj, ap, ◌∙◌, subst, if_split, sym, is_nil, if◌then◌else◌, Option-cases, arith,
}
use mathlib.Core.Bool.{true≢false}
use general_pod_autoscaler.Common.Int.{ℤ, pos, ltb_ℤ, eqb_ℤ}
use general_pod_autoscaler.Common.Float.{IsIeee}
use general_pod_autoscaler.Common.Runtime.{Runtime}
use general_pod_autoscaler.Api.Extern.{K8s}
use general_pod_autoscaler.Api.Metrics.{MetricStatus}
use general_pod_autoscaler.Api.Modes.{MetricMode}
use general_pod_autoscaler.Api.Autoscaler.{GeneralPodAutoscaler, GeneralPodAutoscalerStatus}
use general_pod_autoscaler.ScalerCore.Errors.{GoError, Result, ok, err}
use general_pod_autoscaler.Replicas.Calculator.{ReplicaCalculator}
use general_pod_autoscaler.Scaler.State.{GeneralController}
use general_pod_autoscaler.Scaler.Conditions.Lookup.{spec-set_condition}
use general_pod_autoscaler.Scaler.Normalize.Bounds.{
  normalize_desired_replicas_bounds, normalize_with_behaviors_bounds,
}
use general_pod_autoscaler.Scaler.Normalize.Rules.{
  HasBothRules, normalize_desired_replicas-spec, normalize_with_behaviors-HasBothRules,
}
use general_pod_autoscaler.Reconcile.{
  Scale, Cluster, Clock, at_normalize, at_set_status, event, event_warning,
}
use general_pod_autoscaler.Reconcile.Writes.{scale_writes, writes_none}
use general_pod_autoscaler.Reconcile.Status.{
  set_current_replicas_in_status, update_status_if_needed,
}
use general_pod_autoscaler.Reconcile.Status.Effects.{update_status_writes}
use general_pod_autoscaler.Reconcile.Replicas.{Computation}
use general_pod_autoscaler.Reconcile.Replicas.Effects.{
  IsHarmless, compute_replicas_for_metrics-IsHarmless,
}
use general_pod_autoscaler.Reconcile.Replicas.Simple.{Scalers}
use general_pod_autoscaler.Reconcile.Replicas.Simple.Effects.{
  compute_replicas_for_simple-IsHarmless,
}
use general_pod_autoscaler.Reconcile.Rescale.{Run, Outcome, min_replicas_of, is_empty_mode}
use general_pod_autoscaler.Reconcile.Autoscaler.Ready.{
  IsCompleteIfAny, IsReady, IsWithin, IsBounded, complete-HasBothRules, IsReady-SameBounds,
  IsWithin-SameBounds, back, IsBounded-SameBounds,
}
use general_pod_autoscaler.Reconcile.Autoscaler.{
  compute_replicas, return_failed_compute, normalize, exceeded_events, apply_mode, after_mode,
  decide_by_mode, decide,
}

module _ {k : K8s} (rt : Runtime) (ieee : IsIeee rt.float) (w : Cluster k) (clock : Clock)
    (original : GeneralPodAutoscalerStatus k) (c : ReplicaCalculator rt) (lib : Scalers) where
  pub normalize-IsWithin :
      (key : String) (current desired : ℤ) (gpa : GeneralPodAutoscaler k) (a : GeneralController)
      (r : ℤ × GeneralPodAutoscaler k × GeneralController)
      → IsReady gpa
      → IsWithin gpa current
      → normalize rt w clock original c lib key current desired gpa a ≡ some r
      → IsWithin gpa r.0
  unfolding normalize
  normalize-IsWithin key current desired gpa a r ready (lo, hi) =
      if_split (is_nil gpa.spec.behavior) _ _
        (λ plain h.
          let (low, high, _) =
            normalize_desired_replicas_bounds rt (clock at_normalize) gpa a key current desired
              (min_replicas_of gpa) ieee ready.nonneg ready.ordered lo
              (let small = ready.small in omega arith) in
          subst (λ x. IsWithin gpa x.0) (some_inj h) (low, high))
        (λ set h. elim (Option-cases gpa.spec.behavior) [
          | inl missing ↦ absurd (true≢false (sym (ap is_nil missing) ∙ set))
          | inr (behavior, has) ↦
              let (r', e, low, high) =
                normalize_with_behaviors_bounds rt (clock at_normalize) gpa a key current desired
                  (min_replicas_of gpa) behavior has (subst IsCompleteIfAny has ready.complete) lo
                  hi in
              subst (λ x. IsWithin gpa x.0) (some_inj (sym e ∙ h)) (low, high)
        ])

  -- The behaviour that the normalization leaves has both rules.
  normalize-HasBothRules :
      (key : String) (current desired : ℤ) (gpa : GeneralPodAutoscaler k) (a : GeneralController)
      (r : ℤ × GeneralPodAutoscaler k × GeneralController)
      → IsReady gpa
      → normalize rt w clock original c lib key current desired gpa a ≡ some r
      → HasBothRules r.1.spec.behavior
  unfolding normalize
  normalize-HasBothRules key current desired gpa a r ready =
      let rules = complete-HasBothRules gpa.spec.behavior ready.complete in
      if_split (is_nil gpa.spec.behavior) _ _
        (λ plain h.
          subst HasBothRules
            (ap (λ x. x.behavior)
                (sym (
                  normalize_desired_replicas-spec rt (clock at_normalize) gpa a key current desired
                    (min_replicas_of gpa)))
              ∙ ap (λ x. x.1.spec.behavior) (some_inj h))
            rules)
        (λ set h.
          normalize_with_behaviors-HasBothRules rt (clock at_normalize) gpa a key current desired
            (min_replicas_of gpa) r rules h)

  exceeded-writes :
      (gpa : GeneralPodAutoscaler k) (desired : ℤ)
      → scale_writes (exceeded_events rt w clock original c lib gpa desired) ≡ []
  unfolding exceeded_events scale_writes
  exceeded-writes gpa desired = ground arith

  apply_mode-IsBounded :
      (key : String) (current desired : ℤ) (name : String) (statuses : List (MetricStatus k))
      (run : Run k) (o : Outcome k)
      → IsReady run.gpa
      → IsWithin run.gpa current
      → scale_writes run.effects ≡ []
      → apply_mode rt w clock original c lib key current desired name statuses run ≡ some o
      → IsBounded run.gpa o
  unfolding apply_mode
  apply_mode-IsBounded key current desired name statuses run o ready within h e =
      let wanted : ℤ = if ltb_ℤ (pos 0) desired then desired else pos 0 in
      let (r, en, is_o) =
        bind-some (normalize rt w clock original c lib key current wanted run.gpa run.controller) _
          e in
      subst (IsBounded run.gpa) (some_inj is_o) (
        writes_none run.effects (exceeded_events rt w clock original c lib run.gpa desired) h
            (exceeded-writes run.gpa desired),
        (λ _. normalize-IsWithin key current wanted run.gpa run.controller r ready within en),
        normalize-HasBothRules key current wanted run.gpa run.controller r ready en,
      )

  pub computation-IsHarmless :
      (mode : Option (MetricMode k)) (scale : Scale) (run : Run k) (m : Computation k)
      → compute_replicas rt w clock original c lib mode scale run ≡ some m
      → IsHarmless run.gpa m
  unfolding compute_replicas
  computation-IsHarmless (some mode) scale run m e =
      compute_replicas_for_metrics-IsHarmless rt w clock run.gpa scale run.process c mode.metrics m
        e
  computation-IsHarmless none scale run m e =
      compute_replicas_for_simple-IsHarmless rt w clock lib run.gpa scale run.process m e

  return_failed_compute-writes :
      (current : ℤ) (e : GoError) (run : Run k)
      → scale_writes run.effects ≡ []
      → scale_writes (return_failed_compute rt w clock original c lib current e run).1.effects ≡ []
  unfolding return_failed_compute scale_writes
  return_failed_compute-writes current e run h =
      let gpa = set_current_replicas_in_status (clock at_set_status 0) run.gpa current in
      writes_none (run.effects ++ (update_status_if_needed w original gpa).0)
        (event event_warning "FailedComputeMetricsReplicas" (w.show_error e) ∷ [])
        (writes_none run.effects _ h (update_status_writes w original gpa)) refl

  after_mode-IsBounded :
      (key : String) (current : ℤ) (result : Result (ℤ × String)) (statuses : List (MetricStatus k))
      (run : Run k) (o : Outcome k)
      → IsReady run.gpa
      → IsWithin run.gpa current
      → scale_writes run.effects ≡ []
      → after_mode rt w clock original c lib key current result statuses run ≡ some o
      → IsBounded run.gpa o
  unfolding after_mode
  after_mode-IsBounded key current (err e) statuses run o ready within h eq =
      subst (IsBounded run.gpa) (some_inj eq) (return_failed_compute-writes current e run h)
  after_mode-IsBounded key current (ok (desired, name)) statuses run o ready within h eq =
      apply_mode-IsBounded key current desired name statuses run o ready within h eq

  decide_by_mode-IsBounded :
      (key : String) (scale : Scale) (run : Run k) (o : Outcome k)
      → IsReady run.gpa
      → IsWithin run.gpa scale.spec_replicas
      → scale_writes run.effects ≡ []
      → decide_by_mode rt w clock original c lib key scale run ≡ some o
      → IsBounded run.gpa o
  unfolding decide_by_mode
  decide_by_mode-IsBounded key scale run o ready within h =
      if_split (is_empty_mode run.gpa.spec.mode) _ _
        (λ on_empty e. subst (IsBounded run.gpa) (some_inj e) h)
        (λ set e.
          let (m, em, rest) =
            bind-some
              (compute_replicas rt w clock original c lib run.gpa.spec.mode.metric_mode scale run) _
              e in
          let (harmless, same) =
            computation-IsHarmless run.gpa.spec.mode.metric_mode scale run m em in
          IsBounded-SameBounds run.gpa m.gpa o same (
            after_mode-IsBounded key scale.spec_replicas m.result m.statuses
              (record run { gpa = m.gpa; process = m.process; effects = run.effects ++ m.effects })
              o (IsReady-SameBounds run.gpa m.gpa same ready)
              (IsWithin-SameBounds m.gpa run.gpa scale.spec_replicas (back same) within)
              (writes_none run.effects m.effects h harmless) rest))

  -- The count of a decision is within the bounds, if it is to be applied.
  pub decide-IsBounded :
      (key : String) (scale : Scale) (run : Run k) (o : Outcome k)
      → IsReady run.gpa
      → scale_writes run.effects ≡ []
      → decide rt w clock original c lib key scale run ≡ some o
      → IsBounded run.gpa o
  unfolding decide
  decide-IsBounded key scale run o ready h =
      let current = scale.spec_replicas in
      let lowest = min_replicas_of run.gpa in
      let highest = run.gpa.spec.max_replicas in
      let ordered = ready.ordered in
      let rules = complete-HasBothRules run.gpa.spec.behavior ready.complete in
      if_split (eqb_ℤ current (pos 0) && not (eqb_ℤ lowest (pos 0))) _ _
        (λ disabled e. subst (IsBounded run.gpa) (some_inj e) (
          h,
          (λ rescales. absurd (true≢false (sym rescales))),
          subst HasBothRules
              (sym (ap (λ x. x.behavior) (spec-set_condition rt _ run.gpa _ _ _ _ _))) rules,
        ))
        (λ active.
          if_split (ltb_ℤ highest current) _ _
            (λ above e.
              subst (IsBounded run.gpa) (some_inj e)
                (h, (λ rescales. (ordered, omega arith)), rules))
            (λ at_most.
              if_split (ltb_ℤ current lowest) _ _
                (λ below e.
                  subst (IsBounded run.gpa) (some_inj e)
                    (h, (λ rescales. (omega arith, ordered)), rules))
                (λ at_least e.
                  decide_by_mode-IsBounded key scale run o ready (ground arith, ground arith) h e)))
