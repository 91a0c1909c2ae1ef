-- ===== src/Reconcile/Rescale/Total.antt =====
-- A decision is applied without a panic.
use general_pod_autoscaler.Common.{
  String, Option, none, some, ◌≢◌, bind_ne_none, if_ne_none, some_ne_none,
}
use general_pod_autoscaler.Common.Runtime.{Runtime}
use general_pod_autoscaler.Api.Extern.{K8s}
use general_pod_autoscaler.Api.Autoscaler.{GeneralPodAutoscalerStatus}
use general_pod_autoscaler.ScalerCore.Errors.{GoError}
use general_pod_autoscaler.Scaler.Normalize.Rules.{HasBothRules}
use general_pod_autoscaler.Scaler.Events.Total.{store_scale_event_total}
use general_pod_autoscaler.Reconcile.{Scale, GroupResource, Cluster, Clock, at_store}
use general_pod_autoscaler.Reconcile.Rescale.{
  Run, Decision, after_update, after_put, apply_decision,
}

module _ {k : K8s} (rt : Runtime) (w : Cluster k) (clock : Clock)
    (original : GeneralPodAutoscalerStatus k) (target_gr : GroupResource) (scale : Scale)
    (key : String) (decision : Decision k) (run : Run k) where
  after_put_total :
      (put : Option GoError)
      → HasBothRules run.gpa.spec.behavior
      → after_put rt w clock original target_gr scale put key decision run ≢ none
  unfolding after_put after_update
  after_put_total (some e) has = some_ne_none
  after_put_total none has =
      bind_ne_none _ _
        (bind_ne_none _ _
          (store_scale_event_total (clock at_store 0) (clock at_store 1) run.controller _ key
            scale.spec_replicas decision.desired_replicas has)
          (λ controller. some_ne_none))
        (λ run'. some_ne_none)

  pub apply_decision_total :
      HasBothRules run.gpa.spec.behavior
      → apply_decision rt w clock original target_gr scale key decision run ≢ none
  unfolding apply_decision
  apply_decision_total has = if_ne_none _ _ _ (after_put_total _ has) some_ne_none
