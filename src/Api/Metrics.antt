-- ===== src/Api/Metrics.antt =====
-- The metric sources of a specification and the metric values of a status (types.go).
use general_pod_autoscaler.Common.{String, Option}
use general_pod_autoscaler.Common.Int.{ℤ}
use general_pod_autoscaler.Api.Extern.{K8s}

pub record CrossVersionObjectReference : Type 0 where
  pub kind : String
  pub name : String
  pub api_version : String

abbrev pub MetricSourceType : Type 0
MetricSourceType = String

abbrev pub object_metric_source_type : MetricSourceType
object_metric_source_type = "Object"

abbrev pub pods_metric_source_type : MetricSourceType
pods_metric_source_type = "Pods"

abbrev pub resource_metric_source_type : MetricSourceType
resource_metric_source_type = "Resource"

abbrev pub container_resource_metric_source_type : MetricSourceType
container_resource_metric_source_type = "ContainerResource"

abbrev pub external_metric_source_type : MetricSourceType
external_metric_source_type = "External"

abbrev pub MetricTargetType : Type 0
MetricTargetType = String

abbrev pub utilization_metric_type : MetricTargetType
utilization_metric_type = "Utilization"

abbrev pub value_metric_type : MetricTargetType
value_metric_type = "Value"

abbrev pub average_value_metric_type : MetricTargetType
average_value_metric_type = "AverageValue"

pub record MetricIdentifier (k : K8s) : Type 0 where
  pub name : String
  pub selector : Option k.LabelSelector

pub record MetricTarget (k : K8s) : Type 0 where
  pub type : MetricTargetType
  pub value : Option k.Quantity
  pub average_value : Option k.Quantity
  pub average_utilization : Option ℤ

pub record ObjectMetricSource (k : K8s) : Type 0 where
  pub described_object : CrossVersionObjectReference
  pub target : MetricTarget k
  pub metric : MetricIdentifier k

pub record PodsMetricSource (k : K8s) : Type 0 where
  pub metric : MetricIdentifier k
  pub target : MetricTarget k

pub record ResourceMetricSource (k : K8s) : Type 0 where
  pub name : String
  pub target : MetricTarget k

pub record ContainerResourceMetricSource (k : K8s) : Type 0 where
  pub name : String
  pub target : MetricTarget k
  pub container : String

pub record ExternalMetricSource (k : K8s) : Type 0 where
  pub metric : MetricIdentifier k
  pub target : MetricTarget k

pub record MetricSpec (k : K8s) : Type 0 where
  pub type : MetricSourceType
  pub object : Option (ObjectMetricSource k)
  pub pods : Option (PodsMetricSource k)
  pub resource : Option (ResourceMetricSource k)
  pub external : Option (ExternalMetricSource k)
  pub container_resource : Option (ContainerResourceMetricSource k)

pub record MetricValueStatus (k : K8s) : Type 0 where
  pub value : Option k.Quantity
  pub average_value : Option k.Quantity
  pub average_utilization : Option ℤ

pub record ObjectMetricStatus (k : K8s) : Type 0 where
  pub metric : MetricIdentifier k
  pub current : MetricValueStatus k
  pub described_object : CrossVersionObjectReference

pub record PodsMetricStatus (k : K8s) : Type 0 where
  pub metric : MetricIdentifier k
  pub current : MetricValueStatus k

pub record ResourceMetricStatus (k : K8s) : Type 0 where
  pub name : String
  pub current : MetricValueStatus k

pub record ContainerResourceMetricStatus (k : K8s) : Type 0 where
  pub name : String
  pub current : MetricValueStatus k
  pub container : String

pub record ExternalMetricStatus (k : K8s) : Type 0 where
  pub metric : MetricIdentifier k
  pub current : MetricValueStatus k

pub record MetricStatus (k : K8s) : Type 0 where
  pub type : MetricSourceType
  pub object : Option (ObjectMetricStatus k)
  pub pods : Option (PodsMetricStatus k)
  pub resource : Option (ResourceMetricStatus k)
  pub external : Option (ExternalMetricStatus k)
  pub container_resource : Option (ContainerResourceMetricStatus k)
