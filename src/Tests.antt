-- ===== src/Tests.antt =====
-- An autoscaler, its controller and its libraries as test data; the child modules apply the
-- theorems to them.
mod Scaling
mod Memory
mod Modes
mod Calculation
mod World
mod Reconciliation
mod Requests
use general_pod_autoscaler.Common.{String, List, [], ◌∷◌, Option, none, some, true, false}
use general_pod_autoscaler.Common.Int.{ℤ, pos}
use general_pod_autoscaler.Common.Float.{Float64, fractions}
use general_pod_autoscaler.Common.Runtime.{Runtime}
use general_pod_autoscaler.Api.Extern.{K8s, WebhookClientConfig}
use general_pod_autoscaler.Api.Behavior.{
  GpaScalingPolicy, GpaScalingRules, GeneralPodAutoscalerBehavior, max_policy_select,
  min_policy_select, disabled_policy_select, pods_scaling_policy, percent_scaling_policy,
}
use general_pod_autoscaler.Api.Metrics.{CrossVersionObjectReference}
use general_pod_autoscaler.Api.Modes.{TimeRange, AutoScalingDrivenMode}
use general_pod_autoscaler.Api.Autoscaler.{
  GeneralPodAutoscaler, GeneralPodAutoscalerSpec, GeneralPodAutoscalerStatus,
}
use general_pod_autoscaler.Scaler.State.{
  TimestampedRecommendation, TimestampedScaleEvent, GeneralController,
}
use general_pod_autoscaler.Scaler.Policies.{NormalizationArg}

-- A quantity is its value in thousandths.
abbrev pub k8s : K8s
k8s = record {
  Quantity = ℤ;
  milli_value = λ q. q;
  new_milli_quantity = λ q. q;
  sign = λ q. q;
  LabelSelector = String;
}

-- The operands of a format are not shown, and a duration has the float of its nanoseconds.
abbrev pub runtime : Runtime
runtime = record {
  float = fractions;
  sprintf = λ format operands. format;
  duration_seconds = λ d. fractions.of_int d;
}

-- Four pods a minute.
abbrev pub four_pods : GpaScalingPolicy
four_pods = record { type = pods_scaling_policy; value = pos 4; period_seconds = pos 60 }

abbrev pub all_percent : GpaScalingPolicy
all_percent = record { type = percent_scaling_policy; value = pos 100; period_seconds = pos 15 }

abbrev pub rules_of : Option ℤ → String → List GpaScalingPolicy → GpaScalingRules
rules_of window select policies = record {
  stabilization_window_seconds = window;
  select_policy = some select;
  policies = policies;
}

abbrev pub up_rules : GpaScalingRules
up_rules = rules_of (some (pos 30)) max_policy_select (four_pods ∷ [])

abbrev pub down_rules : GpaScalingRules
down_rules = rules_of (some (pos 300)) max_policy_select (four_pods ∷ all_percent ∷ [])

abbrev pub min_rules : GpaScalingRules
min_rules = rules_of (some (pos 0)) min_policy_select (four_pods ∷ [])

abbrev pub disabled_rules : GpaScalingRules
disabled_rules = rules_of (some (pos 0)) disabled_policy_select (four_pods ∷ [])

abbrev pub behavior : GeneralPodAutoscalerBehavior
behavior = record { scale_up = some up_rules; scale_down = some down_rules }

-- Driven by a timetable, from 2 to 20 replicas.
abbrev pub ranges : List TimeRange
ranges = record { schedule = "0 8 * * *"; desired_replicas = pos 9 } ∷ []

abbrev pub spec : GeneralPodAutoscalerSpec k8s
spec = record {
  mode = record { metric_mode = none; webhook_mode = none; time_mode = none; event_mode = none };
  scale_target_ref = record { kind = "Deployment"; name = "web"; api_version = "apps/v1" };
  min_replicas = some (pos 2);
  max_replicas = pos 20;
  behavior = some behavior;
}

abbrev pub gpa : GeneralPodAutoscaler k8s
gpa = record {
  namespace = "default";
  name = "web";
  creation_timestamp = pos 5;
  labels = none;
  annotations = [];
  spec = spec;
  status = record {
    observed_generation = none;
    last_scale_time = none;
    current_replicas = pos 5;
    desired_replicas = pos 5;
    current_metrics = [];
    conditions = [];
    last_cron_schedule_time = none;
  };
}

-- Fifty seconds; the clock stands still.
abbrev pub now : ℤ
now = pos 50000000000

-- Two pods were added after ten seconds, and eight replicas were recommended after forty.
abbrev pub added_two : TimestampedScaleEvent
added_two = record { replica_change = pos 2; timestamp = pos 10000000000; outdated = false }

abbrev pub eight : TimestampedRecommendation
eight = record { recommendation = pos 8; timestamp = pos 40000000000 }

abbrev pub controller : GeneralController
controller = record {
  downscale_stabilisation_window = pos 300000000000;
  recommendations = ("default/web", eight ∷ []) ∷ [];
  scale_up_events = ("default/web", added_two ∷ []) ∷ [];
  scale_down_events = [];
}

abbrev pub args_of : GpaScalingRules → GpaScalingRules → ℤ → ℤ → NormalizationArg
args_of up down current desired = record {
  key = "default/web";
  scale_up_behavior = some up;
  scale_down_behavior = some down;
  min_replicas = pos 2;
  max_replicas = pos 20;
  current_replicas = current;
  desired_replicas = desired;
}
