-- ===== src/Replicas/Pods/Partition.antt =====
-- The groups of the pods, and the metrics that are taken away.
use text.Mathlib.TextEquality.{eq_iff}
use general_pod_autoscaler.Common.{
  ℕ, suc, ◌+◌, ◌≡◌, refl, ◌∙◌, ◌≢◌, String, false, List, [], ◌∷◌, none, arith, if◌then◌else◌,
  length, All,
}
use general_pod_autoscaler.Common.Int.{ℤ}
use general_pod_autoscaler.Common.Dict.{Dict, lookup, delete, lookup-delete_self, lookup-delete_ne}
use general_pod_autoscaler.Api.Extern.{K8s, Time}
use general_pod_autoscaler.Replicas.Pods.{
  Pod, PodMetricsInfo, has, add_name, Groups, no_groups, PodGroup, ready, unready, missing, ignored,
  classify, put_in, group_pods, remove_metrics_for_pods,
}

-- How many pods the groups hold.
abbrev pub size : Groups → ℕ
size g = g.ready_pod_count + length g.unready_pods + length g.missing_pods + length g.ignored_pods

-- No set of the groups has the name.
abbrev IsNew : String → Groups → Type 0
IsNew s g =
    (has s g.unready_pods ≡ false) × (has s g.missing_pods ≡ false) × (has s g.ignored_pods ≡ false)

-- No two pods have the same name.
abbrev pub HasDistinctNames : {k : K8s} → List (Pod k) → Type 0
HasDistinctNames [] = Unit
HasDistinctNames (p ∷ rest) = All (λ q. p.name ≢ q.name) rest × HasDistinctNames rest

has-add_name_ne : (s t : String) (set : List String) → t ≢ s → has s (add_name t set) ≡ has s set
unfolding has add_name
has-add_name_ne s t set ne = ground (arith, eq_iff t s)

length-add_name :
    (s : String) (set : List String)
    → has s set ≡ false
    → length (add_name s set) ≡ suc (length set)
unfolding add_name
length-add_name s set new = ground arith

put_in-IsNew :
    (group : PodGroup) (s t : String) (g : Groups) → t ≢ s → IsNew s g → IsNew s (put_in group t g)
unfolding put_in
put_in-IsNew ready s t g ne new = new
put_in-IsNew unready s t g ne new = (has-add_name_ne s t g.unready_pods ne ∙ new.0, new.1, new.2)
put_in-IsNew missing s t g ne new = (new.0, has-add_name_ne s t g.missing_pods ne ∙ new.1, new.2)
put_in-IsNew ignored s t g ne new = (new.0, new.1, has-add_name_ne s t g.ignored_pods ne ∙ new.2)

put_in-size :
    (group : PodGroup) (s : String) (g : Groups)
    → IsNew s g
    → size (put_in group s g) ≡ suc (size g)
unfolding put_in
put_in-size ready s g new = omega arith
put_in-size unready s g new = rw (length-add_name s g.unready_pods new.0) (omega arith)
put_in-size missing s g new = rw (length-add_name s g.missing_pods new.1) (omega arith)
put_in-size ignored s g new = rw (length-add_name s g.ignored_pods new.2) (omega arith)

All-IsNew :
    {k : K8s} (group : PodGroup) (t : String) (g : Groups) (pods : List (Pod k))
    → All (λ q. t ≢ q.name) pods
    → All (λ q. IsNew q.name g) pods
    → All (λ q. IsNew q.name (put_in group t g)) pods
All-IsNew group t g [] ne new = tt
All-IsNew group t g (q ∷ rest) ne new =
    (put_in-IsNew group q.name t g ne.0 new.0, All-IsNew group t g rest ne.1 new.1)

module _ {k : K8s} (clock : ℕ → Time) (period delay : ℤ) (resource : String)
    (metrics : PodMetricsInfo) where
  size-group_pods_add :
      (pods : List (Pod k)) (i : ℕ) (g : Groups)
      → HasDistinctNames pods
      → All (λ q. IsNew q.name g) pods
      → size (group_pods clock period delay resource metrics pods i g) ≡ size g + length pods
  unfolding group_pods
  size-group_pods_add [] i g distinct new = omega arith
  size-group_pods_add (p ∷ rest) i g distinct new =
      let group = classify (clock i) period delay resource metrics p in
      let later =
        size-group_pods_add rest (suc i) (put_in group p.name g) distinct.1
          (All-IsNew group p.name g rest distinct.0 new.1) in
      let now = put_in-size group p.name g new.0 in rw (later, now) (omega arith)

  nothing_yet : (pods : List (Pod k)) → All (λ q. IsNew q.name no_groups) pods
  unfolding has
  nothing_yet [] = tt
  nothing_yet (p ∷ rest) = ((refl, refl, refl), nothing_yet rest)

  -- Pods with distinct names are divided without loss: the ready ones that are counted and the
  -- members of the sets of unready, missing and ignored pods are as many as the pods.
  pub group_pods-size :
      (pods : List (Pod k))
      → HasDistinctNames pods
      → size (group_pods clock period delay resource metrics pods 0 no_groups) ≡ length pods
  group_pods-size pods distinct =
      rw (size-group_pods_add pods 0 no_groups distinct (nothing_yet pods)) (omega arith)

-- After `removeMetricsForPods` the pods of the set have no metric, and each other pod
-- has the one that it had.
lookup-remove_metrics_for_pods {ℓ} :
    {V : Type ℓ} (s : String) (pods : List String) (metrics : Dict V)
    → lookup s (remove_metrics_for_pods metrics pods)
      ≡ (if has s pods then none else lookup s metrics)
unfolding remove_metrics_for_pods has
lookup-remove_metrics_for_pods s [] metrics = refl
lookup-remove_metrics_for_pods s (t ∷ rest) metrics = ground (
  arith,
  eq_iff t s,
  lookup-remove_metrics_for_pods s rest (delete t metrics),
  lookup-delete_self t metrics,
  lookup-delete_ne t s metrics,
)
