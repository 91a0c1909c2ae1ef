-- ===== src/Scaler/Normalize.antt =====
-- From the desired count of the metrics to the one that is applied: `normalizeDesiredReplicas`,
-- `normalizeDesiredReplicasWithBehaviors`, `maybeInitScaleDownStabilizationWindow` of
-- pkg/scaler/general.go. The readings of the clock are the values of `clock`,
-- at one number for each call of `time.Now`.
pub mod Bounds
pub mod Rules
pub mod Reach
use general_pod_autoscaler.Common.{
  ℕ, ◌+◌, String, List, [], Bool, Option, none, some, ◌>>=◌, if◌then◌else◌, is_nil,
}
use general_pod_autoscaler.Common.Int.{ℤ, eqb_ℤ}
use general_pod_autoscaler.Common.Runtime.{Runtime}
use general_pod_autoscaler.Api.Extern.{K8s, Time}
use general_pod_autoscaler.Api.Behavior.{GpaScalingRules, GeneralPodAutoscalerBehavior}
use general_pod_autoscaler.Api.Autoscaler.{
  GeneralPodAutoscaler, GeneralPodAutoscalerSpec, able_to_scale, scaling_limited, condition_true,
  condition_false,
}
use general_pod_autoscaler.Scaler.State.{GeneralController}
use general_pod_autoscaler.Scaler.Limits.{convert_desired_replicas_with_rules}
use general_pod_autoscaler.Scaler.Policies.{
  NormalizationArg, convert_desired_replicas_with_behavior_rate,
}
use general_pod_autoscaler.Scaler.Recommendations.{
  stabilize_recommendation, stabilize_recommendation_with_behaviors,
}
use general_pod_autoscaler.Scaler.Conditions.{set_condition}

-- The write through the pointer `gpa.Spec.Behavior.ScaleDown`.
pub maybe_init_scale_down_stabilization_window :
    Runtime
    → GeneralController
    → Option GeneralPodAutoscalerBehavior
    → Option GeneralPodAutoscalerBehavior
maybe_init_scale_down_stabilization_window rt a none = none
maybe_init_scale_down_stabilization_window rt a (some behavior) = some (record behavior {
  scale_down = elim behavior.scale_down [
    | none ↦ none
    | some rules ↦ some (
        if is_nil rules.stabilization_window_seconds
        then record rules {
          stabilization_window_seconds =
              some (rt.float.to_int32 (rt.duration_seconds a.downscale_stabilisation_window));
        }
        else rules)
  ];
})

module _ {k : K8s} (rt : Runtime) (clock : ℕ → Time) where
  -- The result, the autoscaler with its conditions, and the controller.
  pub normalize_desired_replicas :
      GeneralPodAutoscaler k
      → GeneralController
      → String
      → ℤ
      → ℤ
      → ℤ
      → ℤ × GeneralPodAutoscaler k × GeneralController
  normalize_desired_replicas gpa a key current_replicas prenormalized_desired_replicas
        min_replicas =
      let (stabilized, a') =
        stabilize_recommendation (clock 0) (clock 1) key prenormalized_desired_replicas a in
      let gpa' =
        if eqb_ℤ stabilized prenormalized_desired_replicas
        then set_condition rt (clock 2) gpa able_to_scale condition_true "ReadyForNewScale"
            "recommended size matches current size" []
        else set_condition rt (clock 2) gpa able_to_scale condition_true "ScaleDownStabilized"
            "recent recommendations were higher than current one, applying the highest recent recommendation"
            [] in
      let (desired, condition, reason) =
        convert_desired_replicas_with_rules rt.float current_replicas stabilized min_replicas
          gpa.spec.max_replicas in
      (
        desired,
        set_condition rt (clock 3) gpa' scaling_limited
            (if eqb_ℤ desired stabilized then condition_false else condition_true) condition reason
            [],
        a',
      )

  abbrev pub with_behavior :
      GeneralPodAutoscaler k → Option GeneralPodAutoscalerBehavior → GeneralPodAutoscaler k
  with_behavior gpa behavior =
      let spec : GeneralPodAutoscalerSpec k = gpa.spec in
      record gpa { spec = record spec { behavior = behavior } }

  -- `none` is the panic of a nil pointer that is dereferenced.
  pub normalize_desired_replicas_with_behaviors :
      GeneralPodAutoscaler k
      → GeneralController
      → String
      → ℤ
      → ℤ
      → ℤ
      → Option (ℤ × GeneralPodAutoscaler k × GeneralController)
  unfolding maybe_init_scale_down_stabilization_window
  normalize_desired_replicas_with_behaviors gpa a key current_replicas
        prenormalized_desired_replicas min_replicas =
      do
        behavior ← maybe_init_scale_down_stabilization_window rt a gpa.spec.behavior
        let gpa' = with_behavior gpa (some behavior)
        let arg : NormalizationArg = record {
          key = key;
          scale_up_behavior = behavior.scale_up;
          scale_down_behavior = behavior.scale_down;
          min_replicas = min_replicas;
          max_replicas = gpa.spec.max_replicas;
          current_replicas = current_replicas;
          desired_replicas = prenormalized_desired_replicas;
        }
        ((stabilized, reason, message), a') ←
            stabilize_recommendation_with_behaviors (clock 0) (clock 1) (clock 2) arg a
        let arg' : NormalizationArg = record arg { desired_replicas = stabilized }
        let gpa'' =
            if eqb_ℤ stabilized prenormalized_desired_replicas
            then set_condition rt (clock 3) gpa' able_to_scale condition_true "ReadyForNewScale"
                "recommended size matches current size" []
            else set_condition rt (clock 3) gpa' able_to_scale condition_true reason message []
        (desired, limit_reason, limit_message) ←
            convert_desired_replicas_with_behavior_rate rt.float (λ i. clock (i + 5)) a' arg'
        some (
          desired,
          set_condition rt (clock 4) gpa'' scaling_limited
              (if eqb_ℤ desired stabilized then condition_false else condition_true) limit_reason
              limit_message [],
          a',
        )
