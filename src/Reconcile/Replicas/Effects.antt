-- ===== src/Reconcile/Replicas/Effects.antt =====
-- The modes write no scale, and leave the bounds and the behaviour of the autoscaler.
use general_pod_autoscaler.Common.{
  ℕ, suc, Bool, true, false, leb, length, if◌then◌else◌, if_both, List, [], ◌∷◌, Option, some, ◌≡◌,
  refl, arith, bind-some, some_inj, ap, ◌∙◌, subst,
}
use general_pod_autoscaler.Common.Runtime.{Runtime}
use text.Mathlib.Text.{◌==◌ as str_eq}
use general_pod_autoscaler.ScalerCore.Errors.{GoError, Result, ok, err}
use general_pod_autoscaler.Scaler.Conditions.Lookup.{spec-set_condition}
use general_pod_autoscaler.Api.Extern.{K8s}
use general_pod_autoscaler.Api.Metrics.{MetricSpec}
use general_pod_autoscaler.Api.Autoscaler.{GeneralPodAutoscaler}
use general_pod_autoscaler.Replicas.Calculator.{ReplicaCalculator}
use general_pod_autoscaler.Reconcile.{Scale, Cluster, Clock, recorded}
use general_pod_autoscaler.Reconcile.Writes.{scale_writes, writes_none}
use general_pod_autoscaler.Reconcile.Metrics.{MetricResult, computed, failed}
use general_pod_autoscaler.Reconcile.Replicas.{
  Process, Computation, Tally, tally_metric, tally_all, no_tally, judge_tally, all_failed,
  one_computed, with_scale_selector, compute_replicas_for_metrics,
}

-- The parts of a specification that bound the count.
pub record SameBounds {k : K8s} (before after : GeneralPodAutoscaler k) : Type 0 where
  pub same_min : after.spec.min_replicas ≡ before.spec.min_replicas
  pub same_max : after.spec.max_replicas ≡ before.spec.max_replicas
  pub same_behavior : after.spec.behavior ≡ before.spec.behavior

pub spec→SameBounds :
    {k : K8s} (before after : GeneralPodAutoscaler k)
    → after.spec ≡ before.spec
    → SameBounds before after
spec→SameBounds before after h = record {
  same_min = ap (λ s. s.min_replicas) h;
  same_max = ap (λ s. s.max_replicas) h;
  same_behavior = ap (λ s. s.behavior) h;
}

pub after :
    {k : K8s} {first second third : GeneralPodAutoscaler k}
    → SameBounds first second
    → SameBounds second third
    → SameBounds first third
after h g = record {
  same_min = g.same_min ∙ h.same_min;
  same_max = g.same_max ∙ h.same_max;
  same_behavior = g.same_behavior ∙ h.same_behavior;
}

-- What holds of every mode's computation.
abbrev pub IsHarmless : {k : K8s} → GeneralPodAutoscaler k → Computation k → Type 0
IsHarmless gpa m = (scale_writes m.effects ≡ []) × SameBounds gpa m.gpa

module _ {k : K8s} where
  tally_metric-writes :
      (t : Tally k) (r : MetricResult k)
      → scale_writes t.effects ≡ []
      → scale_writes (tally_metric t r).effects ≡ []
  unfolding tally_metric scale_writes
  tally_metric-writes t (failed warning condition e) h =
      writes_none t.effects (recorded warning ∷ []) h refl
  tally_metric-writes t (computed n name status) h = ground arith

  tally_all-writes :
      (compute : ℕ → MetricSpec k → Option (MetricResult k)) (i : ℕ) (specs : List (MetricSpec k))
      (t r : Tally k)
      → scale_writes t.effects ≡ []
      → tally_all compute i specs t ≡ some r
      → scale_writes r.effects ≡ []
  unfolding tally_all
  tally_all-writes compute i [] t r h e = subst (λ x. scale_writes x.effects ≡ []) (some_inj e) h
  tally_all-writes compute i (spec ∷ rest) t r h e =
      let (m, em, er) =
        bind-some (compute i spec) (λ m. tally_all compute (suc i) rest (tally_metric t m)) e in
      tally_all-writes compute (suc i) rest (tally_metric t m) r (tally_metric-writes t m h) er

module _ {k : K8s} (rt : Runtime) (w : Cluster k) (clock : Clock) (gpa : GeneralPodAutoscaler k)
    (scale : Scale) (process : Process) where
  pub by_cases :
      (P : Option (Computation k) → Type 0) (b : Bool) (r : Result w.Selector)
      (missing : Computation k) (unparsed : GoError → Computation k)
      (f : w.Selector → Option (Computation k))
      → P (some missing)
      → ((e : GoError) → P (some (unparsed e)))
      → ((s : w.Selector) → P (f s))
      → P (if b then some missing else elim r [ ok s ↦ f s | err e ↦ some (unparsed e) ])
  by_cases P true r missing unparsed f hm hu hf = hm
  by_cases P false (ok s) missing unparsed f hm hu hf = hf s
  by_cases P false (err e) missing unparsed f hm hu hf = hu e

  -- A computation that goes on from the selector is harmless if its continuation is.
  pub with_scale_selector-IsHarmless :
      (f : w.Selector → Option (Computation k)) (m : Computation k)
      → ((s : w.Selector) → f s ≡ some m → IsHarmless gpa m)
      → with_scale_selector rt w clock gpa scale process f ≡ some m
      → IsHarmless gpa m
  unfolding with_scale_selector scale_writes
  with_scale_selector-IsHarmless f m next e =
      by_cases (λ o. o ≡ some m → IsHarmless gpa m) (str_eq scale.status_selector "")
        (w.parse_selector scale.status_selector) _ _ f
        (λ h.
          subst (IsHarmless gpa) (some_inj h)
            (refl, spec→SameBounds _ _ (spec-set_condition rt _ gpa _ _ _ _ _)))
        (λ e' h.
          subst (IsHarmless gpa) (some_inj h)
            (refl, spec→SameBounds _ _ (spec-set_condition rt _ gpa _ _ _ _ _)))
        next e

  judge_tally-IsHarmless :
      (n : ℕ) (t : Tally k)
      → scale_writes t.effects ≡ []
      → IsHarmless gpa (judge_tally rt w clock gpa scale process n t)
  unfolding judge_tally all_failed one_computed
  judge_tally-IsHarmless n t h =
      if_both (IsHarmless gpa) (leb n t.invalid_metrics_count) _ _
        (h, spec→SameBounds _ _ (spec-set_condition rt _ gpa _ _ _ _ _))
        (h, spec→SameBounds _ _ (spec-set_condition rt _ gpa _ _ _ _ _))

  pub compute_replicas_for_metrics-IsHarmless :
      (c : ReplicaCalculator rt) (specs : List (MetricSpec k)) (m : Computation k)
      → compute_replicas_for_metrics rt w clock gpa scale process c specs ≡ some m
      → IsHarmless gpa m
  unfolding compute_replicas_for_metrics scale_writes
  compute_replicas_for_metrics-IsHarmless c specs m e =
      with_scale_selector-IsHarmless _ m
        (λ selector h.
          let (t, et, er) = bind-some (tally_all _ 0 specs no_tally) _ h in
          subst (IsHarmless gpa) (some_inj er) (
            judge_tally-IsHarmless (length specs) t
              (tally_all-writes _ 0 specs no_tally t refl et)))
        e
