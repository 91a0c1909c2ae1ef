-- ===== src/Scaler/Normalize/Rules.antt =====
-- The normalization keeps the rules of both directions.
use general_pod_autoscaler.Common.{
  ℕ, String, Option, none, some, ◌≡◌, ◌≢◌, bind-some, some_inj, ap, ◌∙◌, sym, subst, ◌+◌,
  some_ne_none, if_both,
}
use general_pod_autoscaler.Common.Int.{ℤ}
use general_pod_autoscaler.Common.Runtime.{Runtime}
use general_pod_autoscaler.Api.Extern.{K8s, Time}
use general_pod_autoscaler.Api.Behavior.{GpaScalingRules, GeneralPodAutoscalerBehavior}
use general_pod_autoscaler.Api.Autoscaler.{GeneralPodAutoscaler}
use general_pod_autoscaler.Scaler.State.{GeneralController}
use general_pod_autoscaler.Scaler.Conditions.Lookup.{spec-set_condition}
use general_pod_autoscaler.Scaler.Normalize.{
  maybe_init_scale_down_stabilization_window, normalize_desired_replicas,
  normalize_desired_replicas_with_behaviors, with_behavior,
}
use general_pod_autoscaler.Scaler.Policies.{convert_desired_replicas_with_behavior_rate}
use general_pod_autoscaler.Scaler.Recommendations.{stabilize_recommendation_with_behaviors}

-- Rules in both directions, if there is a behaviour.
abbrev pub HasBothRules : Option GeneralPodAutoscalerBehavior → Type 0
HasBothRules none = Unit
HasBothRules (some behavior) = (behavior.scale_up ≢ none) × (behavior.scale_down ≢ none)

some_inner :
    (o : Option GpaScalingRules) (f : GpaScalingRules → GpaScalingRules)
    → o ≢ none
    → (elim o as (λ _. Option GpaScalingRules) [ none ↦ none | some rules ↦ some (f rules) ]) ≢ none
some_inner none f h = h
some_inner (some rules) f h = some_ne_none

maybe_init-HasBothRules :
    (rt : Runtime) (a : GeneralController) (behavior : Option GeneralPodAutoscalerBehavior)
    → HasBothRules behavior
    → HasBothRules (maybe_init_scale_down_stabilization_window rt a behavior)
unfolding maybe_init_scale_down_stabilization_window
maybe_init-HasBothRules rt a none has = has
maybe_init-HasBothRules rt a (some behavior) (up, down) =
    (up, some_inner behavior.scale_down _ down)

module _ {k : K8s} (rt : Runtime) (clock : ℕ → Time) (gpa : GeneralPodAutoscaler k)
    (a : GeneralController) (key : String) (current desired lowest : ℤ) where
  pub normalize_desired_replicas-spec :
      (normalize_desired_replicas rt clock gpa a key current desired lowest).1.spec ≡ gpa.spec
  unfolding normalize_desired_replicas
  normalize_desired_replicas-spec =
      spec-set_condition rt (clock 3) _ _ _ _ _ _
      ∙ if_both (λ (x : GeneralPodAutoscaler k). x.spec ≡ gpa.spec) _ _ _
          (spec-set_condition rt (clock 2) gpa _ _ _ _ _)
          (spec-set_condition rt (clock 2) gpa _ _ _ _ _)

  pub normalize_with_behaviors-HasBothRules :
      (r : ℤ × GeneralPodAutoscaler k × GeneralController)
      → HasBothRules gpa.spec.behavior
      → normalize_desired_replicas_with_behaviors rt clock gpa a key current desired lowest ≡ some r
      → HasBothRules r.1.spec.behavior
  unfolding normalize_desired_replicas_with_behaviors
  normalize_with_behaviors-HasBothRules r has e =
      let filled = maybe_init_scale_down_stabilization_window rt a gpa.spec.behavior in
      let (behavior, is_filled, rest) = bind-some filled _ e in
      let (stable, is_stable, rest') =
        bind-some (stabilize_recommendation_with_behaviors (clock 0) (clock 1) (clock 2) _ a) _
          rest in
      let (limited, is_limited, last) =
        bind-some
          (convert_desired_replicas_with_behavior_rate rt.float (λ i. clock (i + 5)) stable.1 _) _
          rest' in
      subst HasBothRules
        (ap (λ x. x.behavior)
            (sym (
              spec-set_condition rt (clock 4) _ _ _ _ _ _
              ∙ if_both
                  (λ (x : GeneralPodAutoscaler k).
                    x.spec ≡ (with_behavior rt clock gpa (some behavior)).spec)
                  _ _ _ (spec-set_condition rt (clock 3) _ _ _ _ _ _)
                  (spec-set_condition rt (clock 3) _ _ _ _ _ _)))
          ∙ ap (λ x. x.1.spec.behavior) (some_inj last))
        (subst HasBothRules is_filled (maybe_init-HasBothRules rt a gpa.spec.behavior has))
