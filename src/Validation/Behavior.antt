-- ===== src/Validation/Behavior.antt =====
-- The validation of a scaling behaviour (`validateBehavior`, `validateScalingRules`,
-- `validateScalingPolicy`). An `if` around an append of errors that may be none is left out.
pub mod Accepts
use text.Mathlib.Text.{◌==◌ as str_eq}
use general_pod_autoscaler.Common.{
  ℕ, suc, String, Bool, true, false, not, ◌&&◌, ◌||◌, List, [], ◌∷◌, ◌++◌, Option, none, some,
}
use general_pod_autoscaler.Common.Int.{ℤ, pos, ltb_ℤ, leb_ℤ}
use general_pod_autoscaler.Common.Runtime.{FmtArg, Runtime}
use general_pod_autoscaler.Api.Behavior.{
  GpaScalingPolicy, GpaScalingRules, GeneralPodAutoscalerBehavior, max_policy_select,
  min_policy_select, disabled_policy_select, pods_scaling_policy, percent_scaling_policy,
}
use general_pod_autoscaler.Validation.Field.{
  FieldPath, index, at, ErrorList, is_empty, error, error_if, invalid, required, not_supported,
}

abbrev pub max_period_seconds : ℤ
max_period_seconds = pos 1800

abbrev pub max_stabilization_window_seconds : ℤ
max_stabilization_window_seconds = pos 3600

-- `validSelectPolicyTypes.Has`
abbrev pub valid_select_policy_types : String → Bool
valid_select_policy_types s =
    str_eq s max_policy_select || str_eq s min_policy_select || str_eq s disabled_policy_select

module _ (rt : Runtime) where
  unfoldable pub validate_scaling_policy : GpaScalingPolicy → FieldPath → ErrorList
  validate_scaling_policy policy path =
      error_if
        (not (str_eq policy.type pods_scaling_policy)
          && not (str_eq policy.type percent_scaling_policy))
        (error not_supported (at path "type") "Percent, Pods")
      ++ error_if (leb_ℤ policy.value (pos 0))
          (error invalid (at path "value") "must be greater than zero")
      ++ error_if (leb_ℤ policy.period_seconds (pos 0))
          (error invalid (at path "periodSeconds") "must be greater than zero")
      ++ error_if (ltb_ℤ max_period_seconds policy.period_seconds) (
          error invalid (at path "periodSeconds")
            (rt.sprintf "must be less than or equal to %v" (FmtArg.int max_period_seconds ∷ [])))

  -- The loop over the policies.
  unfoldable pub validate_policies : ℕ → List GpaScalingPolicy → FieldPath → ErrorList
  validate_policies i [] path = []
  validate_policies i (policy ∷ rest) path =
      validate_scaling_policy policy (index i ∷ path) ++ validate_policies (suc i) rest path

  unfoldable pub validate_window : Option ℤ → FieldPath → ErrorList
  validate_window none path = []
  validate_window (some w) path =
      error_if (ltb_ℤ w (pos 0)) (
        error invalid (at path "stabilizationWindowSeconds")
          "must be greater than or equal to zero")
      ++ error_if (ltb_ℤ max_stabilization_window_seconds w) (
          error invalid (at path "stabilizationWindowSeconds") (
            rt.sprintf "must be less than or equal to %v"
              (FmtArg.int max_stabilization_window_seconds ∷ [])))

  unfoldable pub validate_select : Option String → FieldPath → ErrorList
  validate_select none path = []
  validate_select (some s) path =
      error_if (not (valid_select_policy_types s))
        (error not_supported (at path "selectPolicy") "Disabled, Max, Min")

  unfoldable pub validate_scaling_rules : Option GpaScalingRules → FieldPath → ErrorList
  validate_scaling_rules none path = []
  validate_scaling_rules (some rules) path =
      validate_window rules.stabilization_window_seconds path
      ++ validate_select rules.select_policy path
      ++ error_if (is_empty rules.policies)
          (error required (at path "policies") "must specify at least one Policy")
      ++ validate_policies 0 rules.policies (at path "policies")

  unfoldable pub validate_behavior : Option GeneralPodAutoscalerBehavior → FieldPath → ErrorList
  validate_behavior none path = []
  validate_behavior (some behavior) path =
      validate_scaling_rules behavior.scale_up (at path "scaleUp")
      ++ validate_scaling_rules behavior.scale_down (at path "scaleDown")
