-- ===== src/Clients/Rest/Sums.antt =====
-- The metrics of the pods, each from its containers.
use general_pod_autoscaler.Common.{
  String, List, [], ◌∷◌, ◌++◌, All, Option, some, none, ◌≡◌, ◌≢◌, refl, ap, sym, ◌∙◌, some_ne_none,
}
use general_pod_autoscaler.Common.Int.{ℤ, pos, ◌+ℤ◌}
use general_pod_autoscaler.Common.Machine.{wrap64}
use general_pod_autoscaler.Common.Dict.{lookup, insert, lookup-insert_self, lookup-insert_ne}
use general_pod_autoscaler.Api.Extern.{K8s}
use general_pod_autoscaler.Replicas.Pods.{PodMetric, PodMetricsInfo}
use general_pod_autoscaler.Clients.Rest.{
  ContainerMetrics, PodMetrics, metric_of, sum_containers, pod_value, pod_metrics, get_pod_metrics,
}

module _ {k : K8s} (resource : String) where
  -- The metric of a pod, if it has one.
  abbrev pub metric_if_any : PodMetrics k → Option ℤ → Option PodMetric
  metric_if_any m none = none
  metric_if_any m (some value) = some (metric_of m value)

  abbrev pub IsNotNamed : String → PodMetrics k → Type 0
  IsNotNamed name m = m.name ≢ name

  put-lookup_ne :
      (name : String) (m : PodMetrics k) (value : Option ℤ) (res : PodMetricsInfo)
      → m.name ≢ name
      → lookup name (elim value as (λ _. PodMetricsInfo) [
        | none ↦ res
        | some v ↦ insert m.name (metric_of m v) res
      ])
        ≡ lookup name res
  put-lookup_ne name m none res ne = refl
  put-lookup_ne name m (some v) res ne = lookup-insert_ne m.name name (metric_of m v) res ne

  lookup-pod_metrics_ne :
      (name : String) (items : List (PodMetrics k)) (res : PodMetricsInfo)
      → All (IsNotNamed name) items
      → lookup name (pod_metrics items resource res) ≡ lookup name res
  unfolding pod_metrics
  lookup-pod_metrics_ne name [] res h = refl
  lookup-pod_metrics_ne name (m ∷ rest) res (ne, h) =
      lookup-pod_metrics_ne name rest _ h ∙ put-lookup_ne name m (pod_value resource m) res ne

  put-lookup_self :
      (m : PodMetrics k) (value : Option ℤ) (res : PodMetricsInfo)
      → lookup m.name res ≡ none
      → lookup m.name (elim value as (λ _. PodMetricsInfo) [
        | none ↦ res
        | some v ↦ insert m.name (metric_of m v) res
      ])
        ≡ metric_if_any m value
  put-lookup_self m none res h = h
  put-lookup_self m (some v) res h = lookup-insert_self m.name (metric_of m v) res

  lookup-pod_metrics_split :
      (front : List (PodMetrics k)) (m : PodMetrics k) (back : List (PodMetrics k))
      (res : PodMetricsInfo)
      → All (IsNotNamed m.name) front
      → All (IsNotNamed m.name) back
      → lookup m.name res ≡ none
      → lookup m.name (pod_metrics (front ++ (m ∷ back)) resource res)
        ≡ metric_if_any m (pod_value resource m)
  unfolding pod_metrics
  lookup-pod_metrics_split [] m back res f b h =
      lookup-pod_metrics_ne m.name back _ b ∙ put-lookup_self m (pod_value resource m) res h
  lookup-pod_metrics_split (n ∷ front) m back res (ne, f) b h =
      lookup-pod_metrics_split front m back _ f b
        (put-lookup_ne m.name n (pod_value resource n) res ne ∙ h)

  -- Every container has the resource.
  abbrev pub HasResource : ContainerMetrics k → Type 0
  HasResource c = lookup resource c.usage ≢ none

  -- The sum of the containers' values in the 64 bits of Go; none counts as 0.
  pub total : ℤ → List (ContainerMetrics k) → ℤ
  total sum [] = sum
  total sum (c ∷ rest) = elim (lookup resource c.usage) [
    | none ↦ total sum rest
    | some q ↦ total (wrap64 (sum +ℤ k.milli_value q)) rest
  ]

  sum_containers-total :
      (sum : ℤ) (containers : List (ContainerMetrics k))
      → All HasResource containers
      → sum_containers resource sum containers ≡ some (total sum containers)
  unfolding sum_containers total
  sum_containers-total sum [] h = refl
  sum_containers-total sum (c ∷ rest) (has, h) =
      by_value (lookup resource c.usage) has λ next. sum_containers-total next rest h
    where
      by_value :
          (o : Option k.Quantity)
          → o ≢ none
          → ((next : ℤ) → sum_containers resource next rest ≡ some (total next rest))
          → (elim o as (λ _. Option ℤ) [
            | none ↦ none
            | some q ↦ sum_containers resource (wrap64 (sum +ℤ k.milli_value q)) rest
          ])
            ≡ some (elim o as (λ _. ℤ) [
              | none ↦ total sum rest
              | some q ↦ total (wrap64 (sum +ℤ k.milli_value q)) rest
            ])
      by_value none ne below = absurd (ne refl)
      by_value (some q) ne below = below (wrap64 (sum +ℤ k.milli_value q))

  sum_containers-HasResource :
      (sum : ℤ) (containers : List (ContainerMetrics k))
      → sum_containers resource sum containers ≢ none
      → All HasResource containers
  unfolding sum_containers
  sum_containers-HasResource sum [] h = tt
  sum_containers-HasResource sum (c ∷ rest) h =
      by_value (lookup resource c.usage) refl (λ next. sum_containers-HasResource next rest) h
    where
      by_value :
          (o : Option k.Quantity)
          → lookup resource c.usage ≡ o
          → ((next : ℤ) → sum_containers resource next rest ≢ none → All HasResource rest)
          → (elim o as (λ _. Option ℤ) [
            | none ↦ none
            | some q ↦ sum_containers resource (wrap64 (sum +ℤ k.milli_value q)) rest
          ])
            ≢ none
          → HasResource c × All HasResource rest
      by_value none e below h = absurd (h refl)
      by_value (some q) e below h =
          ((λ nothing. some_ne_none (sym e ∙ nothing)), below (wrap64 (sum +ℤ k.milli_value q)) h)

  -- The value of a pod, from its containers.
  abbrev value_of : List (ContainerMetrics k) → Option ℤ
  value_of [] = none
  value_of (c ∷ rest) = sum_containers resource (pos 0) (c ∷ rest)

  value_of-total :
      (cs : List (ContainerMetrics k))
      → cs ≢ []
      → All HasResource cs
      → value_of cs ≡ some (total (pos 0) cs)
  value_of-total [] ne h = absurd (ne refl)
  value_of-total (c ∷ rest) ne h = sum_containers-total (pos 0) (c ∷ rest) h

  value_of-HasResource :
      (cs : List (ContainerMetrics k)) → value_of cs ≢ none → (cs ≢ []) × All HasResource cs
  value_of-HasResource [] h = absurd (h refl)
  value_of-HasResource (c ∷ rest) h = ((λ e. cc), sum_containers-HasResource (pos 0) (c ∷ rest) h)

  pod_value-value_of : (m : PodMetrics k) → pod_value resource m ≡ value_of m.containers
  unfolding pod_value
  pod_value-value_of m = by_list m.containers
    where
      by_list :
          (cs : List (ContainerMetrics k))
          → (elim cs as (λ _. Option ℤ) [
            | [] ↦ none
            | c ∷ rest ↦ sum_containers resource (pos 0) (c ∷ rest)
          ])
            ≡ value_of cs
      by_list [] = refl
      by_list (c ∷ rest) = refl

  metric_if_any-none : (m : PodMetrics k) (o : Option ℤ) → metric_if_any m o ≢ none → o ≢ none
  metric_if_any-none m none h = absurd (h refl)
  metric_if_any-none m (some v) h = some_ne_none

  -- Among pods of different names: a pod has a metric exactly when it has containers and each of
  -- them has the resource, and its value is the sum over the containers in 64 bits.
  pub lookup-get_pod_metrics :
      (front : List (PodMetrics k)) (m : PodMetrics k) (back : List (PodMetrics k))
      → All (IsNotNamed m.name) front
      → All (IsNotNamed m.name) back
      → let found = lookup m.name (get_pod_metrics (front ++ (m ∷ back)) resource) in
        (m.containers ≢ []
          → All HasResource m.containers
          → found ≡ some (metric_of m (total (pos 0) m.containers)))
        × (found ≢ none → (m.containers ≢ []) × All HasResource m.containers)
  unfolding get_pod_metrics lookup
  lookup-get_pod_metrics front m back f b =
      let split =
        lookup-pod_metrics_split front m back [] f b refl
        ∙ ap (metric_if_any m) (pod_value-value_of m) in
      (
        (λ ne h. split ∙ ap (metric_if_any m) (value_of-total m.containers ne h)),
        (λ h.
            value_of-HasResource m.containers
              (metric_if_any-none m (value_of m.containers) (λ e. h (split ∙ e)))),
      )
