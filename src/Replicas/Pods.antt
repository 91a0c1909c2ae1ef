-- ===== src/Replicas/Pods.antt =====
-- Pods: their conditions (pkg/scaler/utils.go), their groups, requests and limits
-- (pkg/scaler/replica_calculator.go). A pod has the fields of `v1.Pod` that the code reads; a set of
-- names is a list without repetitions.
pub mod Partition
use text.Mathlib.Text.{◌==◌ as str_eq}
use general_pod_autoscaler.Common.{
  ℕ, suc, String, Bool, true, false, not, ◌&&◌, ◌||◌, List, [], ◌∷◌, Option, none, some,
  if◌then◌else◌, is_nil,
}
use general_pod_autoscaler.Common.Int.{ℤ, pos, ◌+ℤ◌, ltb_ℤ}
use general_pod_autoscaler.Common.Machine.{wrap64}
use general_pod_autoscaler.Common.Dict.{Dict, lookup, insert, delete}
use general_pod_autoscaler.Common.Runtime.{FmtArg, Runtime}
use general_pod_autoscaler.Api.Extern.{K8s, Time}
use general_pod_autoscaler.ScalerCore.Errors.{GoError, message, Result, ok, err}

pub record PodCondition : Type 0 where
  pub type : String
  pub status : String
  pub last_transition_time : Time

pub record Container (k : K8s) : Type 0 where
  pub name : String
  pub requests : Dict k.Quantity
  pub limits : Dict k.Quantity

pub record Pod (k : K8s) : Type 0 where
  pub name : String
  pub deletion_timestamp : Option Time
  pub phase : String
  pub start_time : Option Time
  pub conditions : List PodCondition
  pub containers : List (Container k)

pub record PodMetric : Type 0 where
  pub timestamp : Time
  pub window : ℤ
  pub value : ℤ

abbrev pub PodMetricsInfo : Type 0
PodMetricsInfo = Dict PodMetric

pub get_pod_condition_from_list : List PodCondition → String → Option PodCondition
get_pod_condition_from_list [] condition_type = none
get_pod_condition_from_list (c ∷ rest) condition_type =
    if str_eq c.type condition_type then some c else get_pod_condition_from_list rest condition_type

abbrev ready_status : Option PodCondition → Bool
ready_status none = false
ready_status (some c) = str_eq c.status "True"

pub is_pod_ready : {k : K8s} → Pod k → Bool
is_pod_ready pod = ready_status (get_pod_condition_from_list pod.conditions "Ready")

-- sets.String
pub has : String → List String → Bool
has s [] = false
has s (t ∷ rest) = str_eq t s || has s rest

pub add_name : String → List String → List String
add_name s set = if has s set then set else s ∷ set

pub record Groups : Type 0 where
  pub ready_pod_count : ℕ
  pub unready_pods : List String
  pub missing_pods : List String
  pub ignored_pods : List String

abbrev pub no_groups : Groups
no_groups = record { ready_pod_count = 0; unready_pods = []; missing_pods = []; ignored_pods = [] }

-- The test of a pod with a metric of the processor's use. `now` is the reading of the clock.
pub unready_for_cpu : Time → ℤ → ℤ → PodMetric → Option PodCondition → Option Time → Bool
unready_for_cpu now cpu_initialization_period delay metric none start_time = true
unready_for_cpu now cpu_initialization_period delay metric (some c) none = true
unready_for_cpu now cpu_initialization_period delay metric (some c) (some start) =
    if ltb_ℤ now (start +ℤ cpu_initialization_period)
    then str_eq c.status "False" || ltb_ℤ metric.timestamp (c.last_transition_time +ℤ metric.window)
    else str_eq c.status "False" && ltb_ℤ c.last_transition_time (start +ℤ delay)

-- What the body of the loop over the pods does with one of them.
pub data PodGroup : Type 0 where
  ready unready missing ignored : PodGroup

pub classify : {k : K8s} → Time → ℤ → ℤ → String → PodMetricsInfo → Pod k → PodGroup
classify now cpu_initialization_period delay resource metrics pod =
    if not (is_nil pod.deletion_timestamp) || str_eq pod.phase "Failed"
    then ignored
    else if str_eq pod.phase "Pending"
    then unready
    else elim (lookup pod.name metrics) [
      | none ↦ missing
      | some metric ↦
          if str_eq resource "cpu"
            && unready_for_cpu now cpu_initialization_period delay metric
                (get_pod_condition_from_list pod.conditions "Ready") pod.start_time
          then unready
          else ready
    ]

pub put_in : PodGroup → String → Groups → Groups
put_in ready name g = record g { ready_pod_count = suc g.ready_pod_count }
put_in unready name g = record g { unready_pods = add_name name g.unready_pods }
put_in missing name g = record g { missing_pods = add_name name g.missing_pods }
put_in ignored name g = record g { ignored_pods = add_name name g.ignored_pods }

-- The loop; the clock is read at most once for each pod.
pub group_pods :
    {k : K8s} → (ℕ → Time) → ℤ → ℤ → String → PodMetricsInfo → List (Pod k) → ℕ → Groups → Groups
group_pods clock cpu_initialization_period delay resource metrics [] i g = g
group_pods clock cpu_initialization_period delay resource metrics (pod ∷ rest) i g =
    group_pods clock cpu_initialization_period delay resource metrics rest (suc i)
      (put_in (classify (clock i) cpu_initialization_period delay resource metrics pod) pod.name g)

-- The inner loop of `calculatePodRequests` and `calculatePodLimits`, which differ in the
-- quantities that they read and in the message.
pub pod_sum :
    (k : K8s)
    → (Container k → Dict k.Quantity)
    → GoError
    → String
    → String
    → List (Container k)
    → ℤ
    → Result ℤ
pod_sum k quantities missing_error resource container_name [] sum = ok sum
pod_sum k quantities missing_error resource container_name (c ∷ rest) sum =
    if not (str_eq container_name "") && not (str_eq c.name container_name)
    then pod_sum k quantities missing_error resource container_name rest sum
    else elim (lookup resource (quantities c)) [
      | none ↦ err missing_error
      | some q ↦
          pod_sum k quantities missing_error resource container_name rest
            (wrap64 (sum +ℤ k.milli_value q))
    ]

pub pod_sums :
    (k : K8s)
    → (Container k → Dict k.Quantity)
    → GoError
    → String
    → String
    → List (Pod k)
    → Dict ℤ
    → Result (Dict ℤ)
pod_sums k quantities missing_error resource container_name [] sums = ok sums
pod_sums k quantities missing_error resource container_name (pod ∷ rest) sums =
    elim (pod_sum k quantities missing_error resource container_name pod.containers (pos 0)) [
      | err e ↦ err e
      | ok sum ↦
          pod_sums k quantities missing_error resource container_name rest
            (insert pod.name sum sums)
    ]

pub calculate_pod_requests : {k : K8s} → Runtime → List (Pod k) → String → String → Result (Dict ℤ)
calculate_pod_requests {k} rt pods resource container_name =
    pod_sums k (λ c. c.requests)
      (message (rt.sprintf "missing request for %s" (FmtArg.str resource ∷ []))) resource
      container_name pods []

pub calculate_pod_limits : {k : K8s} → Runtime → List (Pod k) → String → String → Result (Dict ℤ)
calculate_pod_limits {k} rt pods resource container_name =
    pod_sums k (λ c. c.limits)
      (message (rt.sprintf "missing limit for %s" (FmtArg.str resource ∷ []))) resource
      container_name pods []

pub remove_metrics_for_pods {ℓ} : {V : Type ℓ} → Dict V → List String → Dict V
remove_metrics_for_pods metrics [] = metrics
remove_metrics_for_pods metrics (pod ∷ rest) = remove_metrics_for_pods (delete pod metrics) rest
