-- ===== src/Reconcile/Autoscaler/Writes.antt =====
-- What a reconciliation writes to the scale of its target.
use general_pod_autoscaler.Common.{
  String, [], ◌∷◌, Option, some, ◌≡◌, refl, ◌⊎◌, inl, inr, ap, ◌∙◌, sym, subst, Option-cases, ◌>>=◌,
}
use general_pod_autoscaler.Common.Float.{IsIeee}
use general_pod_autoscaler.Common.Runtime.{Runtime}
use general_pod_autoscaler.Api.Extern.{K8s}
use general_pod_autoscaler.Api.Autoscaler.{
  GeneralPodAutoscaler, GeneralPodAutoscalerStatus, able_to_scale, condition_true,
}
use general_pod_autoscaler.ScalerCore.Errors.{GoError, Result, ok, err}
use general_pod_autoscaler.Replicas.Calculator.{ReplicaCalculator}
use general_pod_autoscaler.Scaler.State.{GeneralController}
use general_pod_autoscaler.Scaler.Conditions.Lookup.{
  spec-set_condition, creation-set_condition, last_cron-set_condition,
}
use general_pod_autoscaler.Reconcile.{Scale, GroupResource, Cluster, Clock, at_succeeded_get_scale}
use general_pod_autoscaler.Reconcile.Writes.{scale_writes, writes_none}
use general_pod_autoscaler.Reconcile.Target.{find_scale, take_over_labels}
use general_pod_autoscaler.Reconcile.Target.Labels.{take_over_labels-KeepsAll}
use general_pod_autoscaler.Reconcile.Replicas.{Process}
use general_pod_autoscaler.Reconcile.Replicas.Effects.{spec→SameBounds}
use general_pod_autoscaler.Reconcile.Replicas.Simple.{Scalers}
use general_pod_autoscaler.Reconcile.Replicas.Simple.Total.{CanAsk, CanAsk-same}
use general_pod_autoscaler.Reconcile.Rescale.{Run, Outcome, decided, returned, apply_decision}
use general_pod_autoscaler.Reconcile.Rescale.Effects.{
  return_failed_get_scale-writes, apply_decision-writes,
}
use general_pod_autoscaler.Reconcile.Rescale.Total.{apply_decision_total}
use general_pod_autoscaler.Reconcile.Autoscaler.Ready.{
  IsReady, IsWithin, IsBounded, IsReady-SameBounds, IsBounded-SameBounds,
}
use general_pod_autoscaler.Reconcile.Autoscaler.Bounds.{decide-IsBounded}
use general_pod_autoscaler.Reconcile.Autoscaler.Total.{decide_total}
use general_pod_autoscaler.Reconcile.Autoscaler.{
  start_run, decide, act, after_find, reconcile_autoscaler,
}

-- At most one scale is written, and its count is within the bounds.
abbrev pub WritesWithin : {k : K8s} → GeneralPodAutoscaler k → Run k → Type 0
WritesWithin gpa run =
    (scale_writes run.effects ≡ [])
    ⊎ ((s : Scale) × (scale_writes run.effects ≡ s ∷ []) × IsWithin gpa s.spec_replicas)

-- A result that is there, with what holds of it.
abbrev Ends : {k : K8s} → GeneralPodAutoscaler k → Option (Option GoError × Run k) → Type 0
Ends {k} gpa o = (r : Option GoError × Run k) × (o ≡ some r) × WritesWithin gpa r.1

module _ {k : K8s} (rt : Runtime) (ieee : IsIeee rt.float) (w : Cluster k) (clock : Clock)
    (original : GeneralPodAutoscalerStatus k) (c : ReplicaCalculator rt) (lib : Scalers)
    (key : String) where
  act-Ends :
      (gpa : GeneralPodAutoscaler k) (scale : Scale) (target_gr : GroupResource) (o : Outcome k)
      → IsBounded gpa o
      → Ends gpa (act rt w clock original c lib key scale target_gr o)
  unfolding act
  act-Ends gpa scale target_gr (returned error run) bounded = ((error, run), refl, inl bounded)
  act-Ends gpa scale target_gr (decided d run) (none_written, within, rules) =
      elim (Option-cases (apply_decision rt w clock original target_gr scale key d run)) [
        | inl nothing ↦
            absurd
              (apply_decision_total rt w clock original target_gr scale key d run rules nothing)
        | inr (r, e) ↦ (
          r,
          e,
          elim (apply_decision-writes rt w clock original target_gr scale key d run r none_written
              e) [
                | inl nothing ↦ inl nothing
                | inr (rescales, one) ↦ inr (_, one, within rescales)
              ],
        )
      ]

  after_find-Ends :
      (run : Run k) (found : Result (Scale × GroupResource)) (format : String)
      → IsReady run.gpa
      → CanAsk clock lib run.gpa
      → scale_writes run.effects ≡ []
      → Ends run.gpa (after_find rt w clock original c lib key run found format)
  unfolding after_find
  after_find-Ends run (err e) format ready can h =
      (_, refl, inl (return_failed_get_scale-writes rt w clock original e format run h))
  after_find-Ends run (ok (scale, target_gr)) format ready can h =
      let start = start_run rt w clock original c lib key scale run in
      let keeps = take_over_labels-KeepsAll w run.gpa scale in
      let spec =
        spec-set_condition rt (clock at_succeeded_get_scale 0) (take_over_labels w run.gpa scale).0
          able_to_scale condition_true "SucceededGetScale"
          "the GPA controller was able to get the target's current scale" []
        ∙ keeps.keeps_spec in
      let same = spec→SameBounds run.gpa start.gpa spec in
      let ready' = IsReady-SameBounds run.gpa start.gpa same ready in
      let can' =
        CanAsk-same clock lib run.gpa start.gpa spec
          (record {
            same_creation = creation-set_condition rt _ _ _ _ _ _ _ ∙ keeps.keeps_creation;
            same_last =
                last_cron-set_condition rt _ _ _ _ _ _ _
                ∙ ap (λ s. s.last_cron_schedule_time) keeps.keeps_status;
          })
          can in
      let writes = writes_none run.effects _ h keeps.writes_nothing in
      elim (Option-cases (decide rt w clock original c lib key scale start)) [
        | inl nothing ↦
            absurd (decide_total rt ieee w clock original c lib key scale start ready' can' nothing)
        | inr (o, e) ↦
            let bounded =
              IsBounded-SameBounds run.gpa start.gpa o same (
                decide-IsBounded rt ieee w clock original c lib key scale start o ready' writes
                  e) in
            subst (λ x. Ends run.gpa (x >>= act rt w clock original c lib key scale target_gr))
              (sym e) (act-Ends run.gpa scale target_gr o bounded)
      ]

-- For an autoscaler whose minimum is from 0 to its maximum, whose maximum is at most half of the
-- largest int32, whose behaviour is complete if it has one, and whose mode can be asked: a
-- reconciliation ends without a panic. Whatever the metrics, the scalers and the API server answer
-- (errors included), and whatever was recommended or scaled before, it writes at most one
-- scale, whose count is from the minimum to the maximum.
pub reconcile-WritesWithin :
    {k : K8s} (rt : Runtime) (w : Cluster k) (clock : Clock) (c : ReplicaCalculator rt)
    (lib : Scalers) (gpa : GeneralPodAutoscaler k) (a : GeneralController) (process : Process)
    (key : String)
    → IsIeee rt.float
    → IsReady gpa
    → CanAsk clock lib gpa
    → (r : Option GoError × Run k) × (reconcile_autoscaler rt w clock c lib gpa a process key
        ≡ some r)
      × WritesWithin gpa r.1
unfolding reconcile_autoscaler scale_writes
reconcile-WritesWithin {k} rt w clock c lib gpa a process key ieee ready can =
    let run : Run k = record { gpa = gpa; controller = a; process = process; effects = [] } in
    after_find-Ends rt ieee w clock gpa.status c lib key run (find_scale w gpa).0
      (find_scale w gpa).1 ready can refl
