-- ===== src/Validation/Behavior/Accepts.antt =====
-- Which behaviours the validation accepts, exactly.
use text.Mathlib.TextEquality.{eq_iff}
use general_pod_autoscaler.Common.{
  ℕ, suc, ◌≡◌, refl, ◌≢◌, ◌↔◌, ◌⊎◌, String, List, [], ◌∷◌, Option, none, some, arith, All,
}
use general_pod_autoscaler.Common.Int.{ℤ, pos, ◌≤ℤ◌, ◌<ℤ◌}
use general_pod_autoscaler.Common.Runtime.{Runtime}
use general_pod_autoscaler.Api.Behavior.{
  GpaScalingPolicy, GpaScalingRules, GeneralPodAutoscalerBehavior, max_policy_select,
  min_policy_select, disabled_policy_select, pods_scaling_policy, percent_scaling_policy,
}
use general_pod_autoscaler.Validation.Field.{FieldPath, at, index, append-eq-nil}
use general_pod_autoscaler.Validation.Behavior.{
  validate_scaling_policy, validate_policies, validate_window, validate_select,
  validate_scaling_rules, validate_behavior,
}

-- A policy of a known type, with a positive value and a period of 1 to 1800 seconds.
abbrev pub IsAllowedPolicy : GpaScalingPolicy → Type 0
IsAllowedPolicy p =
    ((p.type ≡ pods_scaling_policy) ⊎ (p.type ≡ percent_scaling_policy))
    × (pos 0 <ℤ p.value)
    × (pos 0 <ℤ p.period_seconds)
    × (p.period_seconds ≤ℤ pos 1800)

abbrev pub IsAllowedWindow : Option ℤ → Type 0
IsAllowedWindow none = Unit
IsAllowedWindow (some w) = (pos 0 ≤ℤ w) × (w ≤ℤ pos 3600)

abbrev pub IsAllowedSelect : Option String → Type 0
IsAllowedSelect none = Unit
IsAllowedSelect (some s) =
    (s ≡ max_policy_select) ⊎ (s ≡ min_policy_select) ⊎ (s ≡ disabled_policy_select)

-- Rules that are left out, or rules with an allowed window and selection, if they have any, and
-- with at least one policy, all of them allowed.
abbrev pub IsAllowedRules : Option GpaScalingRules → Type 0
IsAllowedRules none = Unit
IsAllowedRules (some r) =
    IsAllowedWindow r.stabilization_window_seconds
    × IsAllowedSelect r.select_policy
    × (r.policies ≢ [])
    × All IsAllowedPolicy r.policies

abbrev pub IsAllowedBehavior : Option GeneralPodAutoscalerBehavior → Type 0
IsAllowedBehavior none = Unit
IsAllowedBehavior (some b) = IsAllowedRules b.scale_up × IsAllowedRules b.scale_down

module _ (rt : Runtime) where
  policy_allowed :
      (p : GpaScalingPolicy) (path : FieldPath)
      → (validate_scaling_policy rt p path ≡ []) ↔ IsAllowedPolicy p
  unfolding validate_scaling_policy
  policy_allowed p path =
      ground (arith, eq_iff p.type pods_scaling_policy, eq_iff p.type percent_scaling_policy)

  policies_allowed :
      (i : ℕ) (ps : List GpaScalingPolicy) (path : FieldPath)
      → (validate_policies rt i ps path ≡ []) ↔ All IsAllowedPolicy ps
  unfolding validate_policies
  policies_allowed i [] path = ((λ h. tt), (λ h. refl))
  policies_allowed i (p ∷ ps) path =
      let split =
        append-eq-nil (validate_scaling_policy rt p (index i ∷ path))
          (validate_policies rt (suc i) ps path) in
      let first = policy_allowed p (index i ∷ path) in
      let rest = policies_allowed (suc i) ps path in
      (
        (λ h. (first.0 (split.0 h).0, rest.0 (split.0 h).1)),
        (λ h. split.1 (first.1 h.0, rest.1 h.1)),
      )

  window_allowed :
      (w : Option ℤ) (path : FieldPath) → (validate_window rt w path ≡ []) ↔ IsAllowedWindow w
  unfolding validate_window
  window_allowed none path = ((λ h. tt), (λ h. refl))
  window_allowed (some w) path = ground arith

  select_allowed :
      (s : Option String) (path : FieldPath) → (validate_select rt s path ≡ []) ↔ IsAllowedSelect s
  unfolding validate_select
  select_allowed none path = ((λ h. tt), (λ h. refl))
  select_allowed (some s) path = ground (
    arith,
    eq_iff s max_policy_select,
    eq_iff s min_policy_select,
    eq_iff s disabled_policy_select,
  )

  rules_allowed :
      (r : Option GpaScalingRules) (path : FieldPath)
      → (validate_scaling_rules rt r path ≡ []) ↔ IsAllowedRules r
  unfolding validate_scaling_rules
  rules_allowed none path = ((λ h. tt), (λ h. refl))
  rules_allowed (some r) path = ground (
    arith,
    window_allowed r.stabilization_window_seconds path,
    select_allowed r.select_policy path,
    policies_allowed 0 r.policies (at path "policies"),
  )

  -- The validation of a behaviour finds no error exactly when the behaviour is left out, or its rules in
  -- each direction are left out or allowed: a window of 0 to 3600 seconds and a known selection,
  -- if there are any, and at least one policy, each of a known type, with a positive value and a
  -- period of 1 to 1800 seconds.
  pub validate_behavior_iff :
      (b : Option GeneralPodAutoscalerBehavior) (path : FieldPath)
      → (validate_behavior rt b path ≡ []) ↔ IsAllowedBehavior b
  unfolding validate_behavior
  validate_behavior_iff none path = ((λ h. tt), (λ h. refl))
  validate_behavior_iff (some b) path =
      let split =
        append-eq-nil (validate_scaling_rules rt b.scale_up (at path "scaleUp"))
          (validate_scaling_rules rt b.scale_down (at path "scaleDown")) in
      let up = rules_allowed b.scale_up (at path "scaleUp") in
      let down = rules_allowed b.scale_down (at path "scaleDown") in
      ((λ h. (up.0 (split.0 h).0, down.0 (split.0 h).1)), (λ h. split.1 (up.1 h.0, down.1 h.1)))
