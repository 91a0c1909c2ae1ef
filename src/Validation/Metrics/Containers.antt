-- ===== src/Validation/Metrics/Containers.antt =====
-- What the validation asks of a metric of the type ContainerResource.
use general_pod_autoscaler.Common.{
  ◌≡◌, ◌↔◌, true, false, List, [], ◌∷◌, ◌++◌, Option, none, some, arith, is_nil, sym, subst,
}
use general_pod_autoscaler.Api.Extern.{K8s}
use general_pod_autoscaler.Api.Metrics.{
  ObjectMetricSource, PodsMetricSource, ResourceMetricSource, ContainerResourceMetricSource,
  ExternalMetricSource, MetricSpec, container_resource_metric_source_type,
}
use general_pod_autoscaler.Validation.Field.{
  ValidationLibrary, FieldPath, ErrorList, error_if, at, append-eq-nil,
}
use general_pod_autoscaler.Validation.Metrics.{
  validate_object_source, validate_external_source, validate_pods_source, validate_resource_source,
  visit, expect_source, forbid_others, valid_metric_source_types, validate_metric_spec, missing,
}

-- A list that ends with an entry is not empty.
refuses {ℓ} :
    {A : Type ℓ} {P : Type 0} (xs ys : List A) (z : A) (zs : List A)
    → (P → ⊥)
    → ((xs ++ ys ++ z ∷ zs) ≡ []) ↔ P
refuses xs ys z zs never =
    ((λ h. cc ((append-eq-nil (xs ++ ys) (z ∷ zs)).0 h).1), λ q. absurd (never q))

module _ {k : K8s} (lib : ValidationLibrary k) (path : FieldPath) where
  -- At most one of the four sources of other types is there, and it has no error of its own.
  abbrev pub IsAllowedAside :
      Option (ObjectMetricSource k)
      → Option (ExternalMetricSource k)
      → Option (PodsMetricSource k)
      → Option (ResourceMetricSource k)
      → Type 0
  IsAllowedAside (some s) e p r =
      (validate_object_source lib s (at path "object") ≡ [])
      × (is_nil e ≡ true)
      × (is_nil p ≡ true)
      × (is_nil r ≡ true)
  IsAllowedAside none (some s) p r =
      (validate_external_source lib s (at path "external") ≡ [])
      × (is_nil p ≡ true)
      × (is_nil r ≡ true)
  IsAllowedAside none none (some s) r =
      (validate_pods_source lib s (at path "pods") ≡ []) × (is_nil r ≡ true)
  IsAllowedAside none none none (some s) = validate_resource_source lib s (at path "resource") ≡ []
  IsAllowedAside none none none none = Unit

  -- The error when there is no source of the type.
  abbrev first : Option (ContainerResourceMetricSource k) → ErrorList
  first c = error_if (is_nil c) (missing lib path "containerResource")

  parts :
      (c : Option (ContainerResourceMetricSource k)) (o : Option (ObjectMetricSource k))
      (e : Option (ExternalMetricSource k)) (p : Option (PodsMetricSource k))
      (r : Option (ResourceMetricSource k))
      → (validate_metric_spec lib
            (record {
              type = container_resource_metric_source_type;
              object = o;
              pods = p;
              resource = r;
              external = e;
              container_resource = c;
            })
            path
          ≡ [])
        ↔ ((is_nil c ≡ false) × IsAllowedAside o e p r)
  unfolding validate_metric_spec valid_metric_source_types visit expect_source forbid_others
  parts c (some s) (some t) (some u) (some v) =
      refuses ((((validate_object_source lib s (at path "object")) ++ []) ++ []) ++ []) (first c) _
        _ (λ q. ground arith)
  parts c (some s) (some t) (some u) none =
      refuses (((validate_object_source lib s (at path "object")) ++ []) ++ []) (first c) _ _
        (λ q. ground arith)
  parts c (some s) (some t) none (some v) =
      refuses (((validate_object_source lib s (at path "object")) ++ []) ++ []) (first c) _ _
        (λ q. ground arith)
  parts c (some s) (some t) none none =
      refuses ((validate_object_source lib s (at path "object")) ++ []) (first c) _ _
        (λ q. ground arith)
  parts c (some s) none (some u) (some v) =
      refuses (((validate_object_source lib s (at path "object")) ++ []) ++ []) (first c) _ _
        (λ q. ground arith)
  parts c (some s) none (some u) none =
      refuses ((validate_object_source lib s (at path "object")) ++ []) (first c) _ _
        (λ q. ground arith)
  parts c (some s) none none (some v) =
      refuses ((validate_object_source lib s (at path "object")) ++ []) (first c) _ _
        (λ q. ground arith)
  parts c (some s) none none none =
      ground
        (arith, append-eq-nil (validate_object_source lib s (at path "object")) (first c ++ []))
  parts c none (some t) (some u) (some v) =
      refuses (((validate_external_source lib t (at path "external")) ++ []) ++ []) (first c) _ _
        (λ q. ground arith)
  parts c none (some t) (some u) none =
      refuses ((validate_external_source lib t (at path "external")) ++ []) (first c) _ _
        (λ q. ground arith)
  parts c none (some t) none (some v) =
      refuses ((validate_external_source lib t (at path "external")) ++ []) (first c) _ _
        (λ q. ground arith)
  parts c none (some t) none none =
      ground
        (arith, append-eq-nil (validate_external_source lib t (at path "external")) (first c ++ []))
  parts c none none (some u) (some v) =
      refuses ((validate_pods_source lib u (at path "pods")) ++ []) (first c) _ _
        (λ q. ground arith)
  parts c none none (some u) none =
      ground (arith, append-eq-nil (validate_pods_source lib u (at path "pods")) (first c ++ []))
  parts c none none none (some v) =
      ground
        (arith, append-eq-nil (validate_resource_source lib v (at path "resource")) (first c ++ []))
  parts c none none none none = ground arith

  -- A specification of the type ContainerResource has no error exactly when it has such a source
  -- and, of the sources of the other types, at most one, which has no error of its own. So what
  -- the source says (its name, its container and its target) is never looked at, and a source of
  -- another type beside it is not refused.
  pub validate_container_resource_iff :
      (spec : MetricSpec k)
      → spec.type ≡ container_resource_metric_source_type
      → (validate_metric_spec lib spec path ≡ []) ↔ (
          (is_nil spec.container_resource ≡ false)
          × IsAllowedAside spec.object spec.external spec.pods spec.resource)
  validate_container_resource_iff spec typed =
      subst
        (λ t. (validate_metric_spec lib (record spec { type = t }) path ≡ []) ↔ (
          (is_nil spec.container_resource ≡ false)
          × IsAllowedAside spec.object spec.external spec.pods spec.resource))
        (sym typed)
        (parts spec.container_resource spec.object spec.external spec.pods spec.resource)
