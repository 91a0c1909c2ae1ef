-- ===== src/Api/Behavior.antt =====
-- The scaling behaviour of an autoscaler: rules and policies (types.go).
use general_pod_autoscaler.Common.{String, Option, List}
use general_pod_autoscaler.Common.Int.{ℤ}

abbrev pub ScalingPolicySelect : Type 0
ScalingPolicySelect = String

abbrev pub max_policy_select : ScalingPolicySelect
max_policy_select = "Max"

abbrev pub min_policy_select : ScalingPolicySelect
min_policy_select = "Min"

abbrev pub disabled_policy_select : ScalingPolicySelect
disabled_policy_select = "Disabled"

abbrev pub GpaScalingPolicyType : Type 0
GpaScalingPolicyType = String

abbrev pub pods_scaling_policy : GpaScalingPolicyType
pods_scaling_policy = "Pods"

abbrev pub percent_scaling_policy : GpaScalingPolicyType
percent_scaling_policy = "Percent"

pub record GpaScalingPolicy : Type 0 where
  pub type : GpaScalingPolicyType
  pub value : ℤ
  pub period_seconds : ℤ

pub record GpaScalingRules : Type 0 where
  pub stabilization_window_seconds : Option ℤ
  pub select_policy : Option ScalingPolicySelect
  pub policies : List GpaScalingPolicy

pub record GeneralPodAutoscalerBehavior : Type 0 where
  pub scale_up : Option GpaScalingRules
  pub scale_down : Option GpaScalingRules
