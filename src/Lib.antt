-- ===== src/Lib.antt =====
-- Verification of the general pod autoscaler, a Kubernetes controller that sets the number of
-- replicas of a workload from metrics, a webhook, a timetable or events.
--
-- The controller reads an autoscaler object, asks a chain of scalers or the metrics for a desired
-- count, normalizes it (stabilization over recent recommendations, bounds, rates of the scaling
-- policies), applies it, and writes conditions in the status. A worker takes the keys of objects from
-- a queue and reconciles one after another; the queue holds a key for the interval of resynchronizing.
-- An admission webhook validates the objects before the controller sees them. The files, each with
-- the code that it is about:
--
--   Common, Common/*   Shared names: tests, lists, integers (Int), the wrap-around of int32 and int64
--                      (Machine), Go's maps (Dict), sums (Sum), floating point (Float) and formatted
--                      text (Runtime) as interfaces.
--   Api, Api/*         The objects, pkg/apis/autoscaling/v1alpha1/types.go: Behavior, Metrics, Modes,
--                      Autoscaler; Extern holds what they take from Kubernetes.
--   Scaler/State       GeneralController of pkg/scaler/general.go: the recommendations and the logs of
--                      scale events for each autoscaler. Every operation takes it and returns it.
--   Scaler/Limits      calculateScaleUpLimit, convertDesiredReplicasWithRules; Bounds and Reach.
--   Scaler/Policies    calculateScaleUpLimitWithScalingRules, calculateScaleDownLimitWithBehaviors,
--                      getReplicasChangePerPeriod, convertDesiredReplicasWithBehaviorRate; Rate,
--                      Window and Select.
--   Scaler/Events      storeScaleEvent, markScaleEventsOutdated, getLongestPolicyPeriod; Account,
--                      Store and Total.
--   Scaler/Recommendations
--                      recordInitialRecommendation, stabilizeRecommendation,
--                      stabilizeRecommendationWithBehaviors; Scan, Stable and Same.
--   Scaler/Conditions  setCondition, setConditionInList; Lookup.
--   Scaler/Normalize   normalizeDesiredReplicas, normalizeDesiredReplicasWithBehaviors; Bounds,
--                      Rules and Reach.
--   ScalerCore/Cron    The timetable of pkg/scalercore/cron.go; Walk (the loop), Ranges
--                      and Replicas.
--   ScalerCore/Chain   computeDesiredSize of pkg/scaler/general.go over the interface of
--                      pkg/scalercore/scaler.go; Largest.
--   ScalerCore/Webhook The webhook of pkg/scalercore/webhook.go, with pkg/requests/api.go; Answer.
--   ScalerCore/Event   The stub of pkg/scalercore/event.go.
--   ScalerCore/Errors  What the components share on errors.
--   Reconcile          What the reconciliation reads and writes: the API server as a record of its
--                      answers (Cluster), and the writes and events in their order (Effect).
--   Reconcile/Status   setStatus, setCurrentReplicasInStatus, updateStatus, updateStatusIfNeeded of
--                      pkg/scaler/general.go; Effects.
--   Reconcile/Metrics  computeReplicasForMetric and computeStatusFor*Metric: Kinds, Resources, Each;
--                      each with Total.
--   Reconcile/Replicas computeReplicasForMetrics; Judged, Largest, Total and Effects.
--   Reconcile/Replicas/Simple
--                      computeReplicasForSimple, buildScalerChain; Total and Effects.
--   Reconcile/Target   scaleForResourceMappings, updateLabelsIfNeeded; Labels.
--   Reconcile/Rescale  The end of reconcileAutoscaler, from the update of the scale on; Failed, Total
--                      and Effects.
--   Reconcile/Autoscaler
--                      reconcileAutoscaler; Ready, Bounds, Total and Writes.
--   Reconcile/Queue    reconcileKey, processNextWorkItem, enqueueGPA, updateGPA, deleteGPA, and
--                      pkg/scaler/rate_limiters.go; Items.
--   Clients/Rest       pkg/metrics/rest_metrics_client.go; Sums.
--   Clients/Samples, Clients/Heapster
--                      pkg/metrics/legacy_metrics_client.go; Total.
--   Replicas/Pods      groupPods, calculatePodRequests, calculatePodLimits, removeMetricsForPods of
--                      pkg/scaler/replica_calculator.go, and pkg/scaler/utils.go; Partition.
--   Replicas/Utilization
--                      pkg/metrics/utilization.go; Total.
--   Replicas/Calculator, Replicas/Queries
--                      The Get*Replicas methods and calcPlainMetricReplicas of
--                      pkg/scaler/replica_calculator.go; Safe and Total.
--   Validation, Validation/*
--                      pkg/validation/validation.go: Field (errors and paths), Behavior, Metrics, Modes
--                      and Spec; Accepts, Sources, Containers, Nil and Sound.
--   Admission          pkg/validator/hook.go; Allowed.
--   Tests, Tests/*     Test data, and each theorem at concrete data.
--
-- Conventions. A nil pointer is `none`, and a function that may panic (on a nil pointer, or on a
-- division by zero) returns an Option, with `none` for the panic. A Go error is a Result or an
-- Option. An int32 or int64 is an integer, and arithmetic wraps around where the code's does. A
-- time or a duration is an integer of nanoseconds; each reading of the clock is an argument. A log
-- message is left out. What the API server, the metrics and the lister answer is an argument, indexed
-- where one reconciliation asks more than once; what the code writes is a list of effects in its
-- order, and an effect is in the list also when the write fails.
--
-- Bounds and fuel. The loop of the timetable takes fuel; a number of steps equal to the nanoseconds
-- from its start to the present, plus two, is enough where the activations come one after another,
-- since each step then advances by a nanosecond or more. All other loops are over lists.
--
-- Libraries as parameters: floating point (Float64, with the facts of IEEE 754 that a theorem needs
-- in IsIeee; `fractions` is an instance that runs), fmt.Sprintf and Duration.Seconds (Runtime),
-- quantities and selectors (K8s), the cron library (CronLibrary), the validation of names, URLs,
-- schedules and metadata (ValidationLibrary), the API server (Cluster), the APIs of metrics
-- (MetricsApis, HeapsterApis), HTTP and JSON (WebhookLibrary, AdmissionLibrary), the queue (QueueCall)
-- and the pod lister (arguments).
--
-- Not modelled: the start-up of the controller (NewGeneralController, Run) and the loops that call
-- processNextWorkItem; pathStatus, which nothing calls; CreateMergePatch, which compares JSON (what it
-- returns is a parameter); the entry points (cmd, pkg/apis/config, pkg/util, pkg/version), which are
-- flags, defaults and logging; generated code (pkg/client, deep copies). The results of one
-- reconciliation are modelled, not the races of several controllers on the same objects.
pub mod Common
pub mod Api
pub mod Scaler
pub mod ScalerCore
pub mod Replicas
pub mod Validation
pub mod Reconcile
pub mod Clients
pub mod Admission
mod Tests
