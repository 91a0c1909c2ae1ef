-- ===== src/Validation/Spec.antt =====
-- The validation of an autoscaler (`validateHorizontalPodAutoscalerSpec` and the three functions that
-- the admission webhook calls). `none` is a panic.
pub mod Sound
use general_pod_autoscaler.Common.{
  String, Bool, true, false, List, [], ◌∷◌, ◌++◌, Option, none, some, ◌>>=◌,
}
use general_pod_autoscaler.Common.Int.{ℤ, pos, ltb_ℤ}
use general_pod_autoscaler.Common.Runtime.{FmtArg}
use general_pod_autoscaler.Api.Extern.{K8s}
use general_pod_autoscaler.Api.Modes.{
  MetricMode, WebhookMode, TimeMode, EventMode, AutoScalingDrivenMode,
}
use general_pod_autoscaler.Api.Autoscaler.{
  GeneralPodAutoscaler, GeneralPodAutoscalerSpec, GeneralPodAutoscalerStatus,
}
use general_pod_autoscaler.Validation.Field.{
  ValidationLibrary, FieldPath, child, at, ErrorList, error, error_if, invalid,
}
use general_pod_autoscaler.Validation.Behavior.{validate_behavior}
use general_pod_autoscaler.Validation.Metrics.{
  validate_cross_version_object_reference, validate_metrics,
}
use general_pod_autoscaler.Validation.Modes.{validate_webhook, validate_time, validate_event}

-- `m != nil && *m < bound`, and `m != nil && bound < *m`
abbrev below : Option ℤ → ℤ → Bool
below none bound = false
below (some m) bound = ltb_ℤ m bound

abbrev above : Option ℤ → ℤ → Bool
above none bound = false
above (some m) bound = ltb_ℤ bound m

-- The bound that the code passes: scaling to zero is allowed.
abbrev pub min_replicas_lower_bound : ℤ
min_replicas_lower_bound = pos 0

module _ {k : K8s} (lib : ValidationLibrary k) where
  unfoldable pub validate_metric_mode : Option (MetricMode k) → FieldPath → Option ℤ → ErrorList
  validate_metric_mode none path min_replicas = []
  validate_metric_mode (some m) path min_replicas = validate_metrics lib m.metrics path min_replicas

  unfoldable pub validate_webhook_mode : Option WebhookMode → FieldPath → Option ErrorList
  validate_webhook_mode none path = some []
  validate_webhook_mode (some m) path = validate_webhook lib m.webhook_client_config path

  unfoldable pub validate_time_mode : Option TimeMode → FieldPath → ErrorList
  validate_time_mode none path = []
  validate_time_mode (some m) path = validate_time lib m.time_ranges path

  unfoldable pub validate_event_mode : Option EventMode → FieldPath → ErrorList
  validate_event_mode none path = []
  validate_event_mode (some m) path = validate_event m.triggers path

  -- The three checks of the bounds.
  unfoldable pub validate_bounds : Option ℤ → ℤ → FieldPath → ℤ → ErrorList
  validate_bounds min_replicas max_replicas path lower =
      error_if (below min_replicas lower) (
        error invalid (at path "minReplicas")
          (lib.rt.sprintf "must be greater than or equal to %d" (FmtArg.int lower ∷ [])))
      ++ error_if (ltb_ℤ max_replicas (pos 1))
          (error invalid (at path "maxReplicas") "must be greater than 0")
      ++ error_if (above min_replicas max_replicas)
          (error invalid (at path "maxReplicas") "must be greater than or equal to `minReplicas`")

  -- What comes before and after the webhook's errors.
  unfoldable pub validate_before : GeneralPodAutoscalerSpec k → FieldPath → ℤ → ErrorList
  validate_before spec path lower =
      validate_bounds spec.min_replicas spec.max_replicas path lower
      ++ validate_cross_version_object_reference lib spec.scale_target_ref
          (at path "scaleTargetRef")
      ++ validate_metric_mode spec.mode.metric_mode (at path "metrics") spec.min_replicas

  unfoldable pub validate_after : GeneralPodAutoscalerSpec k → FieldPath → ErrorList
  validate_after spec path =
      validate_time_mode spec.mode.time_mode (at path "time")
      ++ validate_event_mode spec.mode.event_mode (at path "event")
      ++ validate_behavior lib.rt spec.behavior (at path "behavior")

  unfoldable pub validate_horizontal_pod_autoscaler_spec :
      GeneralPodAutoscalerSpec k → FieldPath → ℤ → Option ErrorList
  validate_horizontal_pod_autoscaler_spec spec path lower = do
    webhook ← validate_webhook_mode spec.mode.webhook_mode (at path "webhook")
    some (validate_before spec path lower ++ webhook ++ validate_after spec path)

  unfoldable pub validate_horizontal_pod_autoscaler : GeneralPodAutoscaler k → Option ErrorList
  validate_horizontal_pod_autoscaler autoscaler = do
    errs ←
        validate_horizontal_pod_autoscaler_spec autoscaler.spec (child "spec" ∷ [])
          min_replicas_lower_bound
    some (lib.validate_object_meta autoscaler ++ errs)

  pub validate_horizontal_pod_autoscaler_update :
      GeneralPodAutoscaler k → GeneralPodAutoscaler k → Option ErrorList
  validate_horizontal_pod_autoscaler_update new_autoscaler old_autoscaler = do
    errs ←
        validate_horizontal_pod_autoscaler_spec new_autoscaler.spec (child "spec" ∷ [])
          min_replicas_lower_bound
    some (lib.validate_object_meta_update new_autoscaler old_autoscaler ++ errs)

  pub validate_horizontal_pod_autoscaler_status_update :
      GeneralPodAutoscaler k → GeneralPodAutoscaler k → ErrorList
  validate_horizontal_pod_autoscaler_status_update new_autoscaler old_autoscaler =
      let path = at (child "status" ∷ []) in
      lib.validate_object_meta_update new_autoscaler old_autoscaler
      ++ lib.validate_nonnegative_field new_autoscaler.status.current_replicas
          (path "currentReplicas")
      ++ lib.validate_nonnegative_field new_autoscaler.status.desired_replicas
          (path "desiredReplicas")
