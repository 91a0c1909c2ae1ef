-- ===== src/Reconcile/Autoscaler/Ready.antt =====
-- What an autoscaler must hold for a reconciliation to be safe, and what it keeps of that.
use general_pod_autoscaler.Common.{true, [], Option, some, none, ◌≡◌, refl, ◌∙◌, sym, some_ne_none}
use general_pod_autoscaler.Common.Int.{ℤ, pos, ◌≤ℤ◌}
use general_pod_autoscaler.Api.Extern.{K8s}
use general_pod_autoscaler.Api.Behavior.{GeneralPodAutoscalerBehavior}
use general_pod_autoscaler.Api.Autoscaler.{GeneralPodAutoscaler}
use general_pod_autoscaler.Scaler.Normalize.Bounds.{IsComplete}
use general_pod_autoscaler.Scaler.Normalize.Rules.{HasBothRules}
use general_pod_autoscaler.Reconcile.Writes.{scale_writes}
use general_pod_autoscaler.Reconcile.Replicas.Effects.{SameBounds}
use general_pod_autoscaler.Reconcile.Rescale.{Outcome, decided, returned, min_replicas_of}

-- A behaviour that is complete, if there is one.
abbrev pub IsCompleteIfAny : Option GeneralPodAutoscalerBehavior → Type 0
IsCompleteIfAny none = Unit
IsCompleteIfAny (some behavior) = IsComplete behavior

-- Bounds in order, the largest at most half of the largest int32, and a complete behaviour.
pub record IsReady {k : K8s} (gpa : GeneralPodAutoscaler k) : Type 0 where
  pub nonneg : pos 0 ≤ℤ min_replicas_of gpa
  pub ordered : min_replicas_of gpa ≤ℤ gpa.spec.max_replicas
  pub small : gpa.spec.max_replicas ≤ℤ pos 1073741823
  pub complete : IsCompleteIfAny gpa.spec.behavior

abbrev pub IsWithin : {k : K8s} → GeneralPodAutoscaler k → ℤ → Type 0
IsWithin gpa n = (min_replicas_of gpa ≤ℤ n) × (n ≤ℤ gpa.spec.max_replicas)

-- No scale is written before the decision, which is within the bounds; it can be recorded.
abbrev pub IsBounded : {k : K8s} → GeneralPodAutoscaler k → Outcome k → Type 0
IsBounded gpa (decided d run) =
    (scale_writes run.effects ≡ [])
    × (d.rescale ≡ true → IsWithin gpa d.desired_replicas)
    × HasBothRules run.gpa.spec.behavior
IsBounded gpa (returned error run) = scale_writes run.effects ≡ []

pub complete-HasBothRules :
    (behavior : Option GeneralPodAutoscalerBehavior)
    → IsCompleteIfAny behavior
    → HasBothRules behavior
complete-HasBothRules none complete = tt
complete-HasBothRules (some behavior) complete =
    ((λ e. some_ne_none (sym complete.up_is ∙ e)), (λ e. some_ne_none (sym complete.down_is ∙ e)))

module _ {k : K8s} where
  pub min-SameBounds :
      (gpa gpa' : GeneralPodAutoscaler k)
      → SameBounds gpa gpa'
      → min_replicas_of gpa' ≡ min_replicas_of gpa
  unfolding min_replicas_of
  min-SameBounds gpa gpa' same = rw same.same_min refl

  pub IsReady-SameBounds :
      (gpa gpa' : GeneralPodAutoscaler k) → SameBounds gpa gpa' → IsReady gpa → IsReady gpa'
  IsReady-SameBounds gpa gpa' same ready =
      let m = min-SameBounds gpa gpa' same in
      record {
        nonneg = rw m ready.nonneg;
        ordered = rw (m, same.same_max) ready.ordered;
        small = rw same.same_max ready.small;
        complete = rw same.same_behavior ready.complete;
      }

  pub IsWithin-SameBounds :
      (gpa gpa' : GeneralPodAutoscaler k) (n : ℤ)
      → SameBounds gpa gpa'
      → IsWithin gpa' n
      → IsWithin gpa n
  IsWithin-SameBounds gpa gpa' n same (lo, hi) =
      (rw (sym (min-SameBounds gpa gpa' same)) lo, rw (sym same.same_max) hi)

  pub back : {gpa gpa' : GeneralPodAutoscaler k} → SameBounds gpa gpa' → SameBounds gpa' gpa
  back same = record {
    same_min = sym same.same_min;
    same_max = sym same.same_max;
    same_behavior = sym same.same_behavior;
  }

  pub IsBounded-SameBounds :
      (gpa gpa' : GeneralPodAutoscaler k) (o : Outcome k)
      → SameBounds gpa gpa'
      → IsBounded gpa' o
      → IsBounded gpa o
  IsBounded-SameBounds gpa gpa' (decided d run) same (none_written, within, rules) = (
    none_written,
    (λ rescales. IsWithin-SameBounds gpa gpa' d.desired_replicas same (within rescales)),
    rules,
  )
  IsBounded-SameBounds gpa gpa' (returned error run) same none_written = none_written
