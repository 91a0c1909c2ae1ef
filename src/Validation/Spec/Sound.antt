-- ===== src/Validation/Spec/Sound.antt =====
-- What a specification that passes the validation satisfies.
use general_pod_autoscaler.Common.{
  ◌≡◌, ◌≢◌, [], ◌++◌, Option, none, some, arith, some_inj, some_ne_none, bind-some, sym, ap, ◌∙◌,
}
use general_pod_autoscaler.Common.Int.{ℤ, pos, ◌≤ℤ◌}
use general_pod_autoscaler.Api.Extern.{K8s}
use general_pod_autoscaler.Api.Modes.{WebhookMode}
use general_pod_autoscaler.Api.Autoscaler.{GeneralPodAutoscalerSpec}
use general_pod_autoscaler.Validation.Field.{
  ValidationLibrary, FieldPath, ErrorList, at, append_3-eq-nil,
}
use general_pod_autoscaler.Validation.Behavior.Accepts.{IsAllowedBehavior, validate_behavior_iff}
use general_pod_autoscaler.Validation.Modes.{validate_webhook}
use general_pod_autoscaler.Validation.Modes.Nil.{validate_webhook_nil}
use general_pod_autoscaler.Validation.Spec.{
  validate_bounds, validate_webhook_mode, validate_time_mode, validate_event_mode, validate_before,
  validate_after, validate_horizontal_pod_autoscaler_spec,
}

-- A minimum, if there is one, from the lower bound to the maximum.
abbrev pub IsAllowedMin : Option ℤ → ℤ → ℤ → Type 0
IsAllowedMin none lower max_replicas = Unit
IsAllowedMin (some m) lower max_replicas = (lower ≤ℤ m) × (m ≤ℤ max_replicas)

-- A webhook mode with a configuration.
abbrev pub HasConfig : Option WebhookMode → Type 0
HasConfig none = Unit
HasConfig (some m) = m.webhook_client_config ≢ none

module _ {k : K8s} (lib : ValidationLibrary k) where
  bounds_allowed :
      (m : Option ℤ) (max_replicas lower : ℤ) (path : FieldPath)
      → validate_bounds lib m max_replicas path lower ≡ []
      → IsAllowedMin m lower max_replicas × (pos 1 ≤ℤ max_replicas)
  unfolding validate_bounds
  bounds_allowed none max_replicas lower path h = ground arith
  bounds_allowed (some m) max_replicas lower path h = ground arith

  webhook_allowed :
      (m : Option WebhookMode) (path : FieldPath) (errs : ErrorList)
      → validate_webhook_mode lib m path ≡ some errs
      → HasConfig m
  unfolding validate_webhook_mode
  webhook_allowed none path errs h = tt
  webhook_allowed (some m) path errs h = λ none_set.
      some_ne_none
        (sym h ∙ ap (λ o. validate_webhook lib o path) none_set ∙ validate_webhook_nil lib path)

  -- A specification that is found to have no error has a maximum of at least 1, a minimum that, if it
  -- is set, is from the lower bound to the maximum, a behaviour that is allowed, and a
  -- configuration of the webhook, if the webhook drives it.
  pub validate_spec_sound :
      (spec : GeneralPodAutoscalerSpec k) (path : FieldPath) (lower : ℤ)
      → validate_horizontal_pod_autoscaler_spec lib spec path lower ≡ some []
      → IsAllowedMin spec.min_replicas lower spec.max_replicas
        × (pos 1 ≤ℤ spec.max_replicas)
        × IsAllowedBehavior spec.behavior
        × HasConfig spec.mode.webhook_mode
  unfolding validate_horizontal_pod_autoscaler_spec validate_before validate_after
  validate_spec_sound spec path lower h =
      let (webhook, found, errs) =
        bind-some (validate_webhook_mode lib spec.mode.webhook_mode (at path "webhook"))
          (λ w. some (validate_before lib spec path lower ++ w ++ validate_after lib spec path))
          h in
      let parts =
        append_3-eq-nil (validate_before lib spec path lower) webhook (validate_after lib spec path)
          (some_inj errs) in
      let before = append_3-eq-nil _ _ _ parts.0 in
      let after =
        append_3-eq-nil (validate_time_mode lib spec.mode.time_mode (at path "time"))
          (validate_event_mode lib spec.mode.event_mode (at path "event")) _ parts.2 in
      let bounds = bounds_allowed spec.min_replicas spec.max_replicas lower path before.0 in
      (
        bounds.0,
        bounds.1,
        (validate_behavior_iff lib.rt spec.behavior (at path "behavior")).0 after.2,
        webhook_allowed spec.mode.webhook_mode (at path "webhook") webhook found,
      )
