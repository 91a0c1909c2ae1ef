-- ===== src/Api/Autoscaler.antt =====
-- The autoscaler object: specification, status, conditions (types.go).
use general_pod_autoscaler.Common.{String, Option, List}
use general_pod_autoscaler.Common.Int.{ℤ}
use general_pod_autoscaler.Common.Dict.{Dict}
use general_pod_autoscaler.Api.Extern.{K8s, Time}
use general_pod_autoscaler.Api.Behavior.{GeneralPodAutoscalerBehavior}
use general_pod_autoscaler.Api.Metrics.{CrossVersionObjectReference, MetricStatus}
use general_pod_autoscaler.Api.Modes.{AutoScalingDrivenMode}

-- v1.ConditionStatus
abbrev pub condition_true : String
condition_true = "True"

abbrev pub condition_false : String
condition_false = "False"

abbrev pub GeneralPodAutoscalerConditionType : Type 0
GeneralPodAutoscalerConditionType = String

abbrev pub scaling_active : GeneralPodAutoscalerConditionType
scaling_active = "ScalingActive"

abbrev pub able_to_scale : GeneralPodAutoscalerConditionType
able_to_scale = "AbleToScale"

abbrev pub scaling_limited : GeneralPodAutoscalerConditionType
scaling_limited = "ScalingLimited"

-- The zero `metav1.Time` is `none`.
pub record GeneralPodAutoscalerCondition : Type 0 where
  pub type : GeneralPodAutoscalerConditionType
  pub status : String
  pub last_transition_time : Option Time
  pub reason : String
  pub message : String

pub record GeneralPodAutoscalerStatus (k : K8s) : Type 0 where
  pub observed_generation : Option ℤ
  pub last_scale_time : Option Time
  pub current_replicas : ℤ
  pub desired_replicas : ℤ
  pub current_metrics : List (MetricStatus k)
  pub conditions : List GeneralPodAutoscalerCondition
  pub last_cron_schedule_time : Option Time

-- The embedded `AutoScalingDrivenMode` is the first field.
pub record GeneralPodAutoscalerSpec (k : K8s) : Type 0 where
  pub mode : AutoScalingDrivenMode k
  pub scale_target_ref : CrossVersionObjectReference
  pub min_replicas : Option ℤ
  pub max_replicas : ℤ
  pub behavior : Option GeneralPodAutoscalerBehavior

-- The embedded object metadata is represented by the fields that the code reads. The labels are a
-- map that can be nil.
pub record GeneralPodAutoscaler (k : K8s) : Type 0 where
  pub namespace : String
  pub name : String
  pub creation_timestamp : Time
  pub labels : Option (Dict String)
  pub annotations : Dict String
  pub spec : GeneralPodAutoscalerSpec k
  pub status : GeneralPodAutoscalerStatus k
