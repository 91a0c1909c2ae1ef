-- ===== src/Reconcile.antt =====
-- The reconciliation of one autoscaler with its target (pkg/scaler/general.go): what it asks of
-- the cluster, what it writes, and the state that it changes.
--
-- The API server, the RESTMapper, the metrics client, the pod lister and the label libraries are
-- not part of the repository (or, the client, only asked): the record `Cluster` holds their answers.
-- A request that can be made several times in one reconciliation has the number of the
-- request as an argument, so that no two answers need agree. What is written is a list of
-- effects, the first one first. Time stamps of metrics, which are only logged, are left out.
pub mod Writes
pub mod Status
pub mod Metrics
pub mod Replicas
pub mod Target
pub mod Rescale
pub mod Queue
pub mod Autoscaler
use general_pod_autoscaler.Common.{ℕ, String, Bool, List, Option}
use general_pod_autoscaler.Common.Int.{ℤ}
use general_pod_autoscaler.Common.Dict.{Dict}
use general_pod_autoscaler.Api.Extern.{K8s, Time}
use general_pod_autoscaler.Api.Metrics.{CrossVersionObjectReference}
use general_pod_autoscaler.Api.Autoscaler.{GeneralPodAutoscaler, GeneralPodAutoscalerStatus}
use general_pod_autoscaler.ScalerCore.Errors.{GoError, Result}
use general_pod_autoscaler.Replicas.Pods.{Pod, PodMetricsInfo}

-- The scale subresource of k8s.io/api/autoscaling: the fields that the code reads or writes.
pub record Scale : Type 0 where
  pub spec_replicas : ℤ
  pub status_replicas : ℤ
  pub status_selector : String

-- schema.GroupResource
pub record GroupResource : Type 0 where
  pub group : String
  pub resource : String

-- `MetricsClient`, and the lister of pods, over a type of selectors.
pub record MetricsClient (k : K8s) (S : Type 0) : Type 0 where
  pub get_resource_metric : String → String → S → String → Result PodMetricsInfo
  pub get_raw_metric : String → String → S → S → Result PodMetricsInfo
  pub get_object_metric : String → String → CrossVersionObjectReference → S → Result ℤ
  pub get_external_metric : String → String → S → Result (List ℤ)
  pub list_pods : String → S → Result (List (Pod k))

-- An event of the recorder.
pub record Event : Type 0 where
  pub type : String
  pub reason : String
  pub message : String

-- An event that is recorded, or a request that writes.
pub data Effect (k : K8s) : Type 0 where
  recorded : Event → Effect k
  patch_labels : Dict String → Effect k
  update_scale : GroupResource → Scale → Effect k
  update_status : GeneralPodAutoscaler k → Effect k
  update_object : GeneralPodAutoscaler k → Effect k

abbrev pub event : {k : K8s} → String → String → String → Effect k
event type reason message = recorded (record { type = type; reason = reason; message = message })

-- v1.EventTypeNormal, v1.EventTypeWarning
abbrev pub event_normal : String
event_normal = "Normal"

abbrev pub event_warning : String
event_warning = "Warning"

pub record Cluster (k : K8s) : Type 1 where
  -- labels.Selector, with labels.Parse, metav1.LabelSelectorAsSelector, ConvertSelectorToLabelsMap
  pub Selector : Type 0
  pub parse_selector : String → Result Selector
  pub label_selector_as_selector : Option k.LabelSelector → Result Selector
  pub convert_selector_to_labels_map : String → Result (Dict String)
  -- schema.ParseGroupVersion, of which the group is used, and RESTMapper.RESTMappings, of which
  -- the group-resources are used
  pub parse_group : String → Result String
  pub rest_mappings : String → String → Result (List GroupResource)
  -- the scale client: the answer to the request of this number, and to the update
  pub get_scale : ℕ → String → GroupResource → String → Result Scale
  pub put_scale : String → GroupResource → Scale → Option GoError
  -- apiequality.Semantic.DeepEqual, and the client of autoscalers
  pub status_equal : GeneralPodAutoscalerStatus k → GeneralPodAutoscalerStatus k → Bool
  pub put_status : GeneralPodAutoscaler k → Option GoError
  pub put_object : GeneralPodAutoscaler k → Option GoError
  pub create_merge_patch : GeneralPodAutoscaler k → Dict String → Option GoError
  pub put_labels : Dict String → Option GoError
  -- the metrics client and the pod lister, at the metric of this number
  pub client : ℕ → MetricsClient k Selector
  -- `err.Error()`, and `%+v` of a label selector
  pub show_error : GoError → String
  pub show_selector : Option k.LabelSelector → String

-- The places of a reconciliation at which the clock is read.
pub data Place : Type 0 where
  at_failed_get_scale : Place
  at_succeeded_get_scale : Place
  at_initial_recommendation : Place
  at_disabled : Place
  at_selector : Place
  at_metric : ℕ → Place
  at_active : Place
  at_cron : Place
  at_normalize : Place
  at_failed_update : Place
  at_rescaled : Place
  at_store : Place
  at_set_status : Place

-- The readings of the clock: at each place, one for each call of `time.Now` there.
abbrev pub Clock : Type 0
Clock = Place → ℕ → Time
