-- ===== src/Validation/Metrics/Sources.antt =====
-- What a metric specification that passes the validation satisfies.
use text.Mathlib.TextEquality.{eq_iff}
use general_pod_autoscaler.Common.{
  ◌≡◌, ap, ◌↔◌, ◌⊎◌, inl, inr, String, true, false, [], Option, none, some, arith, is_nil,
}
use general_pod_autoscaler.Common.Int.{ℤ, pos, eqb_ℤ, ◌≤ℤ◌}
use general_pod_autoscaler.Api.Extern.{K8s}
use general_pod_autoscaler.Api.Metrics.{
  MetricTarget, utilization_metric_type, value_metric_type, average_value_metric_type,
}
use general_pod_autoscaler.Validation.Field.{ValidationLibrary, FieldPath, is_blank}
use general_pod_autoscaler.Validation.Metrics.{validate_metric_target}

-- A quantity that, if it is set, has the sign 1.
abbrev pub IsPositive : (k : K8s) → Option k.Quantity → Type 0
IsPositive k none = Unit
IsPositive k (some q) = eqb_ℤ (k.sign q) (pos 1) ≡ true

abbrev pub IsAtLeastOne : Option ℤ → Type 0
IsAtLeastOne none = Unit
IsAtLeastOne (some n) = pos 1 ≤ℤ n

abbrev IsKnownType : String → Type 0
IsKnownType t =
    (t ≡ utilization_metric_type) ⊎ (t ≡ value_metric_type) ⊎ (t ≡ average_value_metric_type)

-- A target of a known type with at least one value, and with each value that it has positive.
abbrev pub IsAllowedTarget : {k : K8s} → MetricTarget k → Type 0
IsAllowedTarget {k} mt =
    IsKnownType mt.type
    × ((is_nil mt.average_utilization ≡ false)
        ⊎ (is_nil mt.average_value ≡ false)
        ⊎ (is_nil mt.value ≡ false))
    × IsPositive k mt.value
    × IsPositive k mt.average_value
    × IsAtLeastOne mt.average_utilization

not_blank : (t : String) → IsKnownType t → is_blank t ≡ false
not_blank t (inl e) = ap is_blank e
not_blank t (inr (inl e)) = ap is_blank e
not_blank t (inr (inr e)) = ap is_blank e

module _ {k : K8s} (lib : ValidationLibrary k) where
  target_parts :
      (t : String) (v a : Option k.Quantity) (u : Option ℤ) (path : FieldPath)
      → let mt : MetricTarget k = record {
        type = t;
        value = v;
        average_value = a;
        average_utilization = u;
      } in
        (validate_metric_target lib mt path ≡ []) ↔ IsAllowedTarget mt
  unfolding validate_metric_target
  target_parts t none none none path = ground (
    arith,
    not_blank t,
    eq_iff t utilization_metric_type,
    eq_iff t value_metric_type,
    eq_iff t average_value_metric_type,
  )
  target_parts t none none (some u) path = ground (
    arith,
    not_blank t,
    eq_iff t utilization_metric_type,
    eq_iff t value_metric_type,
    eq_iff t average_value_metric_type,
  )
  target_parts t none (some a) none path = ground (
    arith,
    not_blank t,
    eq_iff t utilization_metric_type,
    eq_iff t value_metric_type,
    eq_iff t average_value_metric_type,
  )
  target_parts t none (some a) (some u) path = ground (
    arith,
    not_blank t,
    eq_iff t utilization_metric_type,
    eq_iff t value_metric_type,
    eq_iff t average_value_metric_type,
  )
  target_parts t (some v) none none path = ground (
    arith,
    not_blank t,
    eq_iff t utilization_metric_type,
    eq_iff t value_metric_type,
    eq_iff t average_value_metric_type,
  )
  target_parts t (some v) none (some u) path = ground (
    arith,
    not_blank t,
    eq_iff t utilization_metric_type,
    eq_iff t value_metric_type,
    eq_iff t average_value_metric_type,
  )
  target_parts t (some v) (some a) none path = ground (
    arith,
    not_blank t,
    eq_iff t utilization_metric_type,
    eq_iff t value_metric_type,
    eq_iff t average_value_metric_type,
  )
  target_parts t (some v) (some a) (some u) path = ground (
    arith,
    not_blank t,
    eq_iff t utilization_metric_type,
    eq_iff t value_metric_type,
    eq_iff t average_value_metric_type,
  )

  -- The validation of a target finds no error exactly when its type is known, it has at least
  -- one of a utilization, an average value and a value, each quantity that it has has the
  -- sign 1, and the utilization, if it has one, is at least 1.
  pub validate_metric_target_iff :
      (mt : MetricTarget k) (path : FieldPath)
      → (validate_metric_target lib mt path ≡ []) ↔ IsAllowedTarget mt
  validate_metric_target_iff mt path =
      target_parts mt.type mt.value mt.average_value mt.average_utilization path
