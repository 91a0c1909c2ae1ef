-- ===== src/Validation/Metrics.antt =====
-- The validation of a metric specification (`validateMetricSpec`, the sources, `validateMetricTarget`,
-- `validateMetricIdentifier`, `ValidateCrossVersionObjectReference`, `validateMetrics`). The set
-- `typesPresent` is a list in the order of the insertions, which is the order of the errors that
-- the code makes in the unspecified order of a set.
pub mod Sources
pub mod Containers
use text.Mathlib.Text.{◌==◌ as str_eq}
use general_pod_autoscaler.Common.{
  ℕ, suc, String, Bool, true, false, not, ◌&&◌, ◌||◌, List, [], ◌∷◌, ◌++◌, Option, none, some,
  length, ◌==◌, if◌then◌else◌, is_nil,
}
use general_pod_autoscaler.Common.Int.{ℤ, pos, ltb_ℤ, eqb_ℤ}
use general_pod_autoscaler.Api.Extern.{K8s}
use general_pod_autoscaler.Api.Metrics.{
  CrossVersionObjectReference, MetricIdentifier, MetricTarget, ObjectMetricSource, PodsMetricSource,
  ResourceMetricSource, ExternalMetricSource, MetricSpec, MetricSourceType,
  object_metric_source_type, pods_metric_source_type, resource_metric_source_type,
  container_resource_metric_source_type, external_metric_source_type, utilization_metric_type,
  value_metric_type, average_value_metric_type,
}
use general_pod_autoscaler.Validation.Field.{
  ValidationLibrary, FieldPath, index, at, ErrorList, FieldError, is_blank, error, error_if,
  invalid_all, invalid, required, forbidden, not_supported,
}

abbrev both_set {ℓ ℓ'} : {A : Type ℓ} {B : Type ℓ'} → Option A → Option B → Bool
both_set a b = not (is_nil a) && not (is_nil b)

module _ {k : K8s} (lib : ValidationLibrary k) where
  -- A name that is required and is checked as a segment of a path.
  unfoldable pub validate_segment : String → FieldPath → String → ErrorList
  validate_segment s path detail =
      if is_blank s
      then error required path detail ∷ []
      else invalid_all path (lib.is_valid_path_segment_name s)

  unfoldable pub validate_cross_version_object_reference :
      CrossVersionObjectReference → FieldPath → ErrorList
  validate_cross_version_object_reference ref path =
      validate_segment ref.kind (at path "kind") "" ++ validate_segment ref.name (at path "name") ""

  pub validate_metric_identifier : MetricIdentifier k → FieldPath → ErrorList
  validate_metric_identifier id path =
      validate_segment id.name (at path "name") "must specify a metric name"

  -- `q != nil && q.Sign() != 1`
  abbrev not_positive : Option k.Quantity → Bool
  not_positive none = false
  not_positive (some q) = not (eqb_ℤ (k.sign q) (pos 1))

  abbrev below_one : Option ℤ → Bool
  below_one none = false
  below_one (some n) = ltb_ℤ n (pos 1)

  pub validate_metric_target : MetricTarget k → FieldPath → ErrorList
  validate_metric_target mt path =
      error_if (is_blank mt.type)
        (error required (at path "type") "must specify a metric target type")
      ++ error_if
          (not (str_eq mt.type utilization_metric_type)
            && (not (str_eq mt.type value_metric_type)
                && not (str_eq mt.type average_value_metric_type)))
          (error invalid (at path "type") "must be either Utilization, Value, or AverageValue")
      ++ error_if (is_nil mt.average_utilization && (is_nil mt.average_value && is_nil mt.value))
          (error invalid (at path " utilization, value and averageValue") "at least one not nil")
      ++ error_if (not_positive mt.value) (error invalid (at path "value") "must be positive")
      ++ error_if (not_positive mt.average_value)
          (error invalid (at path "averageValue") "must be positive")
      ++ error_if (below_one mt.average_utilization)
          (error invalid (at path "averageUtilization") "must be greater than 0")

  pub validate_object_source : ObjectMetricSource k → FieldPath → ErrorList
  validate_object_source src path =
      validate_cross_version_object_reference src.described_object (at path "describedObject")
      ++ validate_metric_identifier src.metric (at path "metric")
      ++ validate_metric_target src.target (at path "target")
      ++ error_if (is_nil src.target.value && is_nil src.target.average_value) (
          error required (at (at path "target") "averageValue")
            "must set either a target value or averageValue")

  pub validate_external_source : ExternalMetricSource k → FieldPath → ErrorList
  validate_external_source src path =
      validate_metric_identifier src.metric (at path "metric")
      ++ validate_metric_target src.target (at path "target")
      ++ error_if (is_nil src.target.value && is_nil src.target.average_value) (
          error required (at (at path "target") "averageValue")
            "must set either a target value for metric or a per-pod target")
      ++ error_if (both_set src.target.value src.target.average_value) (
          error forbidden (at (at path "target") "value")
            "may not set both a target value for metric and a per-pod target")

  pub validate_pods_source : PodsMetricSource k → FieldPath → ErrorList
  validate_pods_source src path =
      validate_metric_identifier src.metric (at path "metric")
      ++ validate_metric_target src.target (at path "target")
      ++ error_if (is_nil src.target.average_value) (
          error required (at (at path "target") "averageValue")
            "must specify a positive target averageValue")

  pub validate_resource_source : ResourceMetricSource k → FieldPath → ErrorList
  validate_resource_source src path =
      error_if (is_blank src.name) (error required (at path "name") "must specify a resource name")
      ++ validate_metric_target src.target (at path "target")
      ++ error_if (is_nil src.target.average_utilization && is_nil src.target.average_value) (
          error required (at (at path "target") "averageUtilization")
            "must set either a target raw value or a target utilization")
      ++ error_if (both_set src.target.average_utilization src.target.average_value) (
          error forbidden (at (at path "target") "averageValue")
            "may not set both a target raw value and a target utilization")

  -- `validMetricSourceTypes.Has`
  pub valid_metric_source_types : MetricSourceType → Bool
  valid_metric_source_types t =
      str_eq t object_metric_source_type
      || (str_eq t pods_metric_source_type
          || (str_eq t resource_metric_source_type
              || (str_eq t container_resource_metric_source_type
                  || str_eq t external_metric_source_type)))

  -- A source that is set is inserted in `typesPresent`, and is validated if it is the only one there.
  pub visit {ℓ} :
      {A : Type ℓ}
      → Option A
      → String
      → (A → ErrorList)
      → List String × ErrorList
      → List String × ErrorList
  visit none name validate acc = acc
  visit (some src) name validate (present, errs) =
      let present' = present ++ (name ∷ []) in
      (present', errs ++ (if length present' == 1 then validate src else []))

  abbrev visit_all : MetricSpec k → FieldPath → List String × ErrorList
  visit_all spec path =
      visit spec.resource "resource" (λ s. validate_resource_source s (at path "resource"))
        (visit spec.pods "pods" (λ s. validate_pods_source s (at path "pods"))
          (visit spec.external "external" (λ s. validate_external_source s (at path "external"))
            (visit spec.object "object" (λ s. validate_object_source s (at path "object"))
              ([], []))))

  abbrev pub missing : FieldPath → String → FieldError
  missing path name =
      error required (at path name) "must populate information for the given metric source"

  -- The switch on the type: the errors and `expectedField`.
  pub expect_source : MetricSpec k → FieldPath → ErrorList × String
  expect_source spec path =
      if str_eq spec.type object_metric_source_type
      then (error_if (is_nil spec.object) (missing path "object"), "object")
      else if str_eq spec.type pods_metric_source_type
      then (error_if (is_nil spec.pods) (missing path "pods"), "pods")
      else if str_eq spec.type resource_metric_source_type
      then (error_if (is_nil spec.resource) (missing path "resource"), "resource")
      else if str_eq spec.type container_resource_metric_source_type
      then (
        error_if (is_nil spec.container_resource) (missing path "containerResource"),
        "containerResource",
      )
      else if str_eq spec.type external_metric_source_type
      then (error_if (is_nil spec.external) (missing path "external"), "external")
      else (error not_supported (at path "type") "" ∷ [], "")

  -- `typesPresent.Delete(expectedField)`, and an error for each of the rest.
  pub forbid_others : String → List String → FieldPath → ErrorList
  forbid_others expected [] path = []
  forbid_others expected (typ ∷ rest) path =
      error_if (not (str_eq typ expected))
        (error forbidden (at path typ) "must populate the given metric source only")
      ++ forbid_others expected rest path

  pub validate_metric_spec : MetricSpec k → FieldPath → ErrorList
  validate_metric_spec spec path =
      let visited = visit_all spec path in
      let expected = expect_source spec path in
      error_if (is_blank spec.type)
        (error required (at path "type") "must specify a metric source type")
      ++ error_if (not (valid_metric_source_types spec.type))
          (error not_supported (at path "type") "")
      ++ visited.1
      ++ expected.0
      ++ (if length visited.0 == 1 then [] else forbid_others expected.1 visited.0 path)

  -- The loop over the metrics: the errors, `hasObjectMetrics` and `hasExternalMetrics`.
  pub validate_each_metric : ℕ → List (MetricSpec k) → FieldPath → ErrorList × Bool × Bool
  validate_each_metric i [] path = ([], false, false)
  validate_each_metric i (spec ∷ rest) path =
      let (errs, has_object, has_external) = validate_each_metric (suc i) rest path in
      (
        validate_metric_spec spec (index i ∷ path) ++ errs,
        str_eq spec.type object_metric_source_type || has_object,
        str_eq spec.type external_metric_source_type || has_external,
      )

  abbrev is_zero : Option ℤ → Bool
  is_zero none = false
  is_zero (some n) = eqb_ℤ n (pos 0)

  pub validate_metrics : List (MetricSpec k) → FieldPath → Option ℤ → ErrorList
  validate_metrics metrics path min_replicas =
      let (errs, has_object, has_external) = validate_each_metric 0 metrics path in
      errs
      ++ error_if (is_zero min_replicas && (not has_object && not has_external)) (
          error forbidden path
            "must specify at least one Object or External metric to support scaling to zero replicas")
