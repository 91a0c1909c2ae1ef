-- ===== src/Api/Extern.antt =====
-- What the API objects take from the Kubernetes libraries, which are not part of the repository:
-- quantities and label selectors as an interface, and records with the fields that the code reads.
use general_pod_autoscaler.Common.{String, Option}
use general_pod_autoscaler.Common.Int.{ℤ}

pub record K8s : Type 1 where
  -- resource.Quantity, with MilliValue, NewMilliQuantity(_, DecimalSI) and Sign
  pub Quantity : Type 0
  pub milli_value : Quantity → ℤ
  pub new_milli_quantity : ℤ → Quantity
  pub sign : Quantity → ℤ
  -- metav1.LabelSelector
  pub LabelSelector : Type 0

-- An instant, or a duration, in nanoseconds: `time.Time`, `metav1.Time` and `time.Duration`.
abbrev pub Time : Type 0
Time = ℤ

-- admissionregistration/v1beta1
pub record ServiceReference : Type 0 where
  pub namespace : String
  pub name : String
  pub path : Option String
  pub port : Option ℤ

pub record WebhookClientConfig : Type 0 where
  pub url : Option String
  pub service : Option ServiceReference
  pub ca_bundle : Option String
