-- ===== src/Reconcile/Rescale/Effects.antt =====
-- What the ends of a reconciliation write.
use general_pod_autoscaler.Common.{
  String, true, [], ◌∷◌, ◌++◌, Option, some, none, ◌≡◌, refl, ◌⊎◌, inl, inr, bind-some, some_inj,
  ap, ◌∙◌, subst, if_split, sym,
}
use general_pod_autoscaler.Common.Int.{ℤ}
use general_pod_autoscaler.Common.Runtime.{Runtime}
use general_pod_autoscaler.Api.Extern.{K8s}
use general_pod_autoscaler.Api.Autoscaler.{GeneralPodAutoscalerStatus}
use general_pod_autoscaler.ScalerCore.Errors.{GoError}
use general_pod_autoscaler.Scaler.Events.{store_scale_event}
use general_pod_autoscaler.Reconcile.{
  Scale, GroupResource, Cluster, Clock, at_store, event, event_warning,
}
use general_pod_autoscaler.Reconcile.Writes.{scale_writes, writes_first, writes_none, writes_one}
use general_pod_autoscaler.Reconcile.Status.Effects.{update_status_writes}
use general_pod_autoscaler.Reconcile.Rescale.{
  Run, Decision, update_and_return, return_failed_get_scale, finish_reconcile, rescaled,
  return_failed_update, after_update, after_put, apply_decision,
}

module _ {k : K8s} (rt : Runtime) (w : Cluster k) (clock : Clock)
    (original : GeneralPodAutoscalerStatus k) where
  pub update_and_return-writes :
      (e : GoError) (run : Run k)
      → scale_writes (update_and_return rt w clock original e run).1.effects
        ≡ scale_writes run.effects
  unfolding update_and_return
  update_and_return-writes e run =
      writes_first run.effects _ (update_status_writes w original run.gpa)

  pub return_failed_get_scale-writes :
      (e : GoError) (format : String) (run : Run k)
      → scale_writes run.effects ≡ []
      → scale_writes (return_failed_get_scale rt w clock original e format run).1.effects ≡ []
  unfolding return_failed_get_scale update_and_return scale_writes
  return_failed_get_scale-writes e format run h =
      writes_none (run.effects ++ (event event_warning "FailedGetScale" (w.show_error e) ∷ [])) _
        (writes_none run.effects _ h refl) (update_status_writes w original _)

  pub finish_reconcile-writes :
      (current : ℤ) (decision : Decision k) (run : Run k)
      → scale_writes (finish_reconcile rt w clock original current decision run).1.effects
        ≡ scale_writes run.effects
  unfolding finish_reconcile
  finish_reconcile-writes current decision run =
      writes_first run.effects _ (update_status_writes w original _)

  module _ (target_gr : GroupResource) (scale : Scale) (key : String) (decision : Decision k)
      (run : Run k) where
    -- The scale that is written, once.
    after_put-writes :
        (put : Option GoError) (r : Option GoError × Run k)
        → scale_writes run.effects ≡ []
        → after_put rt w clock original target_gr scale put key decision run ≡ some r
        → scale_writes r.1.effects ≡ rescaled rt w clock original target_gr scale decision ∷ []
    unfolding after_put return_failed_update update_and_return after_update finish_reconcile
    after_put-writes (some e) r h eq =
        subst
          (λ x.
            scale_writes x.1.effects ≡ rescaled rt w clock original target_gr scale decision ∷ [])
          (some_inj eq)
          (writes_one run.effects _ target_gr _ _ h (update_status_writes w original _))
    after_put-writes none r h eq =
        let (run', stored, end) =
          bind-some (after_update rt w clock original target_gr scale key decision run) _ eq in
        let (controller, kept, is_run') =
          bind-some
            (store_scale_event (clock at_store 0) (clock at_store 1) run.controller
              run.gpa.spec.behavior key scale.spec_replicas decision.desired_replicas)
            _ stored in
        subst
          (λ x.
            scale_writes x.1.effects ≡ rescaled rt w clock original target_gr scale decision ∷ [])
          (ap (λ y. finish_reconcile rt w clock original scale.spec_replicas decision y)
              (some_inj is_run')
            ∙ some_inj end)
          (writes_one run.effects _ target_gr _ _ h (update_status_writes w original _))

    -- The ends write the scale of the decision once if it is to rescale, and no scale else.
    pub apply_decision-writes :
        (r : Option GoError × Run k)
        → scale_writes run.effects ≡ []
        → apply_decision rt w clock original target_gr scale key decision run ≡ some r
        → (scale_writes r.1.effects ≡ [])
          ⊎ ((decision.rescale ≡ true)
              × (scale_writes r.1.effects
                  ≡ rescaled rt w clock original target_gr scale decision ∷ []))
    unfolding apply_decision
    apply_decision-writes r h =
        if_split decision.rescale _ _ (λ yes put. inr (yes, after_put-writes _ r h put))
          (λ no end. inl (
            ap (λ x. scale_writes x.1.effects) (sym (some_inj end))
            ∙ finish_reconcile-writes scale.spec_replicas decision run
            ∙ h))
