-- ===== src/Reconcile/Queue/Items.antt =====
-- What becomes of an item of the queue.
use general_pod_autoscaler.Common.{String, true, List, [], ◌∷◌, some, none, ◌≡◌, ◌≢◌, refl}
use general_pod_autoscaler.Common.Float.{IsIeee}
use general_pod_autoscaler.Common.Dict.{Dict, lookup, delete, lookup-delete_self, lookup-delete_ne}
use general_pod_autoscaler.Common.Runtime.{Runtime}
use general_pod_autoscaler.Api.Extern.{K8s}
use general_pod_autoscaler.Api.Autoscaler.{GeneralPodAutoscaler}
use general_pod_autoscaler.ScalerCore.Errors.{Result, ok}
use general_pod_autoscaler.Replicas.Calculator.{ReplicaCalculator}
use general_pod_autoscaler.Scaler.State.{GeneralController}
use general_pod_autoscaler.Reconcile.{Cluster, Clock, Effect}
use general_pod_autoscaler.Reconcile.Replicas.Simple.{Scalers}
use general_pod_autoscaler.Reconcile.Replicas.Simple.Total.{CanAsk}
use general_pod_autoscaler.Reconcile.Autoscaler.Ready.{IsReady}
use general_pod_autoscaler.Reconcile.Autoscaler.Writes.{reconcile-WritesWithin}
use general_pod_autoscaler.Reconcile.Queue.{
  add_rate_limited, done, Listed, found, not_found, Memory, forget_key, reconcile_key,
  process_next_work_item,
}

-- A map without the entry of a key, and with the same entries for the others.
abbrev pub IsWithout : {V : Type 0} → String → Dict V → Dict V → Type 0
IsWithout key before now =
    (lookup key now ≡ none) × ((j : String) → key ≢ j → lookup j now ≡ lookup j before)

-- All three maps are without the key.
pub record HasForgotten (key : String) (a a' : GeneralController) : Type 0 where
  pub no_recommendations : IsWithout key a.recommendations a'.recommendations
  pub no_scale_ups : IsWithout key a.scale_up_events a'.scale_up_events
  pub no_scale_downs : IsWithout key a.scale_down_events a'.scale_down_events

delete-IsWithout : {V : Type 0} (key : String) (m : Dict V) → IsWithout key m (delete key m)
delete-IsWithout key m = (lookup-delete_self key m, λ j ne. lookup-delete_ne key j m ne)

module _ {k : K8s} (rt : Runtime) (w : Cluster k) (clock : Clock) (c : ReplicaCalculator rt)
    (lib : Scalers) (split : String → Result (String × String))
    (lister : String → String → Listed k) (key namespace name : String) (m : Memory) where
  -- When the autoscaler of a key is not found: the worker goes on, everything that was kept for the
  -- key is deleted, the memory of every other key and the global variables stay, nothing is written,
  -- and the key is not queued again.
  pub item_deleted :
      split key ≡ ok (namespace, name)
      → lister namespace name ≡ not_found
      → (m' : Memory) × (process_next_work_item rt w clock c lib split lister (some key) m
          ≡ some (true, m', done key ∷ [], []))
        × HasForgotten key m.controller m'.controller
        × (m'.process ≡ m.process)
  unfolding process_next_work_item reconcile_key forget_key
  item_deleted is_split missing =
      rw (is_split, missing, reconcile_key, process_next_work_item)
        (
          _,
          refl,
          record {
            no_recommendations = delete-IsWithout key m.controller.recommendations;
            no_scale_ups = delete-IsWithout key m.controller.scale_up_events;
            no_scale_downs = delete-IsWithout key m.controller.scale_down_events;
          },
          refl,
        )

  -- When the autoscaler of a key is found, with bounds in order, a complete behaviour if it has one,
  -- and a mode that can be asked: the worker goes on and the key is queued again, before it is done,
  -- whatever the reconciliation meets.
  pub item_queued_again :
      (gpa : GeneralPodAutoscaler k)
      → IsIeee rt.float
      → IsReady gpa
      → CanAsk clock lib gpa
      → split key ≡ ok (namespace, name)
      → lister namespace name ≡ found gpa
      → (m' : Memory) × (effects : List (Effect k)) × (process_next_work_item rt w clock c lib split
            lister
            (some key)
            m
          ≡ some (true, m', add_rate_limited key ∷ done key ∷ [], effects))
  unfolding process_next_work_item reconcile_key
  item_queued_again gpa ieee ready can is_split listed =
      let (r, e, _) =
        reconcile-WritesWithin rt w clock c lib gpa m.controller m.process key ieee ready can in
      rw (is_split, listed, e, reconcile_key, process_next_work_item) (_, _, refl)
