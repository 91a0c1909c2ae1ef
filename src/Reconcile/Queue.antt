-- ===== src/Reconcile/Queue.antt =====
-- The worker of the controller and its queue: `reconcileKey`, `processNextWorkItem`, `worker`,
-- `enqueueGPA`, `updateGPA`, `deleteGPA` of pkg/scaler/general.go and pkg/scaler/rate_limiters.go.
--
-- The queue and the lister are other libraries: what the queue is asked to do is a list of calls,
-- and what the lister answers is an argument. An error of the worker is only logged.
pub mod Items
use general_pod_autoscaler.Common.{
  String, Bool, true, false, List, [], ◌∷◌, ◌++◌, Option, none, some, ◌>>=◌, if◌then◌else◌,
}
use general_pod_autoscaler.Common.Int.{ℤ, pos}
use general_pod_autoscaler.Common.Dict.{delete}
use general_pod_autoscaler.Common.Runtime.{Runtime}
use general_pod_autoscaler.Api.Extern.{K8s, Time}
use general_pod_autoscaler.Api.Autoscaler.{GeneralPodAutoscaler}
use general_pod_autoscaler.ScalerCore.Errors.{GoError, Result, ok, err}
use general_pod_autoscaler.Replicas.Calculator.{ReplicaCalculator}
use general_pod_autoscaler.Scaler.State.{GeneralController}
use general_pod_autoscaler.Reconcile.{Cluster, Clock, Effect}
use general_pod_autoscaler.Reconcile.Replicas.{Process}
use general_pod_autoscaler.Reconcile.Replicas.Simple.{Scalers}
use general_pod_autoscaler.Reconcile.Autoscaler.{reconcile_autoscaler}

-- What `workqueue.RateLimitingInterface` is asked to do.
pub data QueueCall : Type 0 where
  add_rate_limited : String → QueueCall
  forget : String → QueueCall
  done : String → QueueCall

-- The handlers of the informer; a key that cannot be computed is only logged.
pub enqueue_gpa : Result String → List QueueCall
enqueue_gpa (ok key) = add_rate_limited key ∷ []
enqueue_gpa (err e) = []

pub update_gpa : {A : Type 0} → (A → Result String) → A → A → List QueueCall
unfolding enqueue_gpa
update_gpa key_of old cur = enqueue_gpa (key_of cur)

pub delete_gpa : Result String → List QueueCall
delete_gpa (ok key) = forget key ∷ []
delete_gpa (err e) = []

-- The rate limiter: the same interval for every item, at every call.
pub record FixedItemIntervalRateLimiter : Type 0 where
  pub interval : Time

pub when : {A : Type 0} → FixedItemIntervalRateLimiter → A → Time
when r item = r.interval

pub num_requeues : {A : Type 0} → FixedItemIntervalRateLimiter → A → ℤ
num_requeues r item = pos 1

pub new_default_gpa_rate_limiter : Time → FixedItemIntervalRateLimiter
new_default_gpa_rate_limiter interval = record { interval = interval }

-- What the lister has for a name.
pub data Listed (k : K8s) : Type 0 where
  found : GeneralPodAutoscaler k → Listed k
  not_found : Listed k
  failed : GoError → Listed k

-- What the controller keeps from one item to the next.
pub record Memory : Type 0 where
  pub controller : GeneralController
  pub process : Process

-- `delete`, of the three maps.
unfoldable pub forget_key : String → GeneralController → GeneralController
forget_key key a = record a {
  recommendations = delete key a.recommendations;
  scale_up_events = delete key a.scale_up_events;
  scale_down_events = delete key a.scale_down_events;
}

module _ {k : K8s} (rt : Runtime) (w : Cluster k) (clock : Clock) (c : ReplicaCalculator rt)
    (lib : Scalers) (split_meta_namespace_key : String → Result (String × String))
    (lister : String → String → Listed k) where
  -- Whether the autoscaler is deleted, the error, the memory and what was written.
  abbrev pub Reconciled : Type 0
  Reconciled = Bool × Option GoError × Memory × List (Effect k)

  pub reconcile_key : String → Memory → Option Reconciled
  unfolding forget_key
  reconcile_key key m = elim (split_meta_namespace_key key) [
    | err e ↦ some (true, some e, m, [])
    | ok (namespace, name) ↦ elim (lister namespace name) [
      | not_found ↦ some (true, none, record m { controller = forget_key key m.controller }, [])
      | failed e ↦ some (false, some e, m, [])
      | found gpa ↦ reconcile_autoscaler rt w clock c lib gpa m.controller m.process key >>= (λ r.
          some (
            false,
            r.0,
            record { controller = r.1.controller; process = r.1.process },
            r.1.effects,
          ))
    ]
  ]

  -- The result of `queue.Get` is a key, or none when the queue was shut down. The item is done
  -- when the function returns.
  pub process_next_work_item :
      Option String → Memory → Option (Bool × Memory × List QueueCall × List (Effect k))
  unfolding reconcile_key
  process_next_work_item none m = some (false, m, [], [])
  process_next_work_item (some key) m = reconcile_key key m >>= (λ r.
      some (true, r.2, (if r.0 then [] else add_rate_limited key ∷ []) ++ (done key ∷ []), r.3))
