-- ===== src/Api/Modes.antt =====
-- What can drive an autoscaler: metrics, a webhook, times or events (types.go).
use general_pod_autoscaler.Common.{String, Option, List}
use general_pod_autoscaler.Common.Int.{ℤ}
use general_pod_autoscaler.Common.Dict.{Dict}
use general_pod_autoscaler.Api.Extern.{K8s, WebhookClientConfig}
use general_pod_autoscaler.Api.Metrics.{MetricSpec}

pub record MetricMode (k : K8s) : Type 0 where
  pub metrics : List (MetricSpec k)

pub record ScaleTriggers : Type 0 where
  pub type : String
  pub name : String
  pub metadata : Dict String

pub record EventMode : Type 0 where
  pub triggers : List ScaleTriggers

-- The embedded `*WebhookClientConfig` is the first field.
pub record WebhookMode : Type 0 where
  pub webhook_client_config : Option WebhookClientConfig
  pub parameters : Dict String

pub record TimeRange : Type 0 where
  pub schedule : String
  pub desired_replicas : ℤ

pub record TimeMode : Type 0 where
  pub time_ranges : List TimeRange

pub record AutoScalingDrivenMode (k : K8s) : Type 0 where
  pub metric_mode : Option (MetricMode k)
  pub webhook_mode : Option WebhookMode
  pub time_mode : Option TimeMode
  pub event_mode : Option EventMode
