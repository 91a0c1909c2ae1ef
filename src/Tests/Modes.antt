-- ===== src/Tests/Modes.antt =====
-- The theorems on the timetable, the chain of scalers and the validation, at concrete data.
use general_pod_autoscaler.Common.{
  suc, ◌≡◌, refl, ◌↔◌, ◌⊎◌, String, List, [], ◌∷◌, false, none, some, arith, All,
}
use general_pod_autoscaler.Common.Int.{ℤ, pos, ◌≤ℤ◌, ◌<ℤ◌, ◌+ℤ◌}
use general_pod_autoscaler.Api.Extern.{Time}
use general_pod_autoscaler.Api.Metrics.{
  MetricTarget, MetricSpec, ContainerResourceMetricSource, utilization_metric_type,
  container_resource_metric_source_type,
}
use general_pod_autoscaler.ScalerCore.Errors.{message, ok, err}
use general_pod_autoscaler.ScalerCore.Cron.{CronLibrary, zero_time, walk, last_time, get_replicas}
use general_pod_autoscaler.ScalerCore.Cron.Walk.{IsAround, walk_ends, walk_never_ends}
use general_pod_autoscaler.ScalerCore.Cron.Ranges.{IsRecommendation}
use general_pod_autoscaler.ScalerCore.Cron.Replicas.{get_replicas_total}
use general_pod_autoscaler.ScalerCore.Chain.{Scaler, compute_desired_size}
use general_pod_autoscaler.ScalerCore.Chain.Largest.{
  IsAtMost, IsOk, IsProposed, compute_desired_size_largest,
}
use general_pod_autoscaler.Validation.Field.{ValidationLibrary, child}
use general_pod_autoscaler.Validation.Behavior.{
  validate_scaling_policy, validate_policies, validate_window, validate_select,
  validate_scaling_rules, validate_behavior,
}
use general_pod_autoscaler.Validation.Behavior.Accepts.{IsAllowedBehavior, validate_behavior_iff}
use general_pod_autoscaler.Validation.Metrics.{
  validate_segment, validate_cross_version_object_reference, validate_metric_target,
  validate_metric_spec,
}
use general_pod_autoscaler.Validation.Metrics.Sources.{IsAllowedTarget, validate_metric_target_iff}
use general_pod_autoscaler.Validation.Metrics.Containers.{
  IsAllowedAside, validate_container_resource_iff,
}
use general_pod_autoscaler.Validation.Spec.{
  validate_metric_mode, validate_webhook_mode, validate_time_mode, validate_event_mode,
  validate_bounds, validate_before, validate_after, validate_horizontal_pod_autoscaler_spec,
}
use general_pod_autoscaler.Validation.Spec.Sound.{IsAllowedMin, HasConfig, validate_spec_sound}
use general_pod_autoscaler.Tests.{k8s, runtime, behavior, ranges, spec, gpa}

abbrev next_nanosecond : Time → Time
next_nanosecond t = t +ℤ pos 1

successive : (t : Time) → t <ℤ next_nanosecond t
unfolding ◌+ℤ◌
successive t = ground arith

before_end : pos 8 <ℤ pos 5 +ℤ pos 4
unfolding ◌+ℤ◌
before_end = omega arith

walk_ends_example :
    (times : Time × Time) × (walk (suc (suc 4)) next_nanosecond (pos 8) (pos 5) (pos 5)
      ≡ some times)
    × IsAround next_nanosecond (pos 8) times
walk_ends_example = walk_ends next_nanosecond (pos 8) (pos 5) 4 successive (omega arith) before_end

walk_never_ends_example : walk 100 (λ t. zero_time) (pos 8) (pos 5) (pos 5) ≡ none
walk_never_ends_example =
    walk_never_ends (λ t. zero_time) (pos 8) (pos 5) 100 (λ t. refl) (omega arith) (omega arith)

-- Every text is a schedule that is due in each nanosecond.
abbrev cron : CronLibrary
cron = record { Schedule = String; parse_standard = λ s. some s; next = λ s t. next_nanosecond t }

enough : (name schedule : String) → pos 8 <ℤ last_time gpa name schedule +ℤ pos 4
unfolding last_time ◌+ℤ◌
enough name schedule = ground arith

get_replicas_total_example :
    (r : ℤ × String) × (get_replicas cron (suc (suc 4)) gpa (pos 8) ranges "" (pos 5) ≡ some r)
    × IsRecommendation cron (suc (suc 4)) gpa (pos 8) ranges "" (pos 5) r
get_replicas_total_example =
    get_replicas_total cron 4 gpa (pos 8) (λ s t. successive t) enough ranges "" (pos 5)

-- A scaler that fails, and two that propose a count.
abbrev scalers : List (Scaler String)
scalers =
    record { scaler_name = "webhook"; get_replicas = λ g n. err (message "timeout") }
    ∷ record { scaler_name = "cron"; get_replicas = λ g n. ok (pos 9) }
    ∷ record { scaler_name = "metric"; get_replicas = λ g n. ok n }
    ∷ []

compute_desired_size_largest_example :
    let (replicas, name, errs) = compute_desired_size runtime "web" "web" (pos 5) scalers in
    (pos 0 ≤ℤ replicas)
    × All (λ s. IsAtMost (s.get_replicas "web" (pos 5)) replicas) scalers
    × (((replicas ≡ pos 0) × (name ≡ "")) ⊎ IsProposed "web" (pos 5) scalers replicas name)
    × ((errs ≡ none) ↔ All (λ s. IsOk (s.get_replicas "web" (pos 5))) scalers)
compute_desired_size_largest_example =
    compute_desired_size_largest runtime "web" "web" (pos 5) scalers

validate_behavior_iff_example :
    (validate_behavior runtime (some behavior) (child "behavior" ∷ []) ≡ [])
    ↔ IsAllowedBehavior (some behavior)
validate_behavior_iff_example =
    validate_behavior_iff runtime (some behavior) (child "behavior" ∷ [])

-- Libraries that find no error.
abbrev pub lenient : ValidationLibrary k8s
lenient = record {
  rt = runtime;
  is_valid_path_segment_name = λ s. [];
  validate_webhook_url = λ path url. [];
  validate_webhook_service = λ path name namespace p port. [];
  cron_parse = λ s. none;
  validate_object_meta = λ g. [];
  validate_object_meta_update = λ g h. [];
  validate_nonnegative_field = λ n path. [];
}

abbrev half : MetricTarget k8s
half = record {
  type = utilization_metric_type;
  value = none;
  average_value = none;
  average_utilization = some (pos 50);
}

validate_metric_target_iff_example :
    (validate_metric_target lenient half (child "target" ∷ []) ≡ []) ↔ IsAllowedTarget half
validate_metric_target_iff_example = validate_metric_target_iff lenient half (child "target" ∷ [])

-- A source without a name, a container and a target.
abbrev empty_source : ContainerResourceMetricSource k8s
empty_source = record {
  name = "";
  target = record { type = ""; value = none; average_value = none; average_utilization = none };
  container = "";
}

abbrev container_spec : MetricSpec k8s
container_spec = record {
  type = container_resource_metric_source_type;
  object = none;
  pods = none;
  resource = none;
  external = none;
  container_resource = some empty_source;
}

validate_container_resource_iff_example :
    (validate_metric_spec lenient container_spec (child "metrics" ∷ []) ≡ [])
    ↔ ((false ≡ false) × IsAllowedAside lenient (child "metrics" ∷ []) none none none none)
validate_container_resource_iff_example =
    validate_container_resource_iff lenient (child "metrics" ∷ []) container_spec refl

-- The specification of the test data passes.
pub spec_passes :
    validate_horizontal_pod_autoscaler_spec lenient spec (child "spec" ∷ []) (pos 0) ≡ some []
unfolding validate_horizontal_pod_autoscaler_spec validate_before validate_after validate_bounds
    validate_metric_mode validate_webhook_mode validate_time_mode validate_event_mode
    validate_cross_version_object_reference validate_segment validate_behavior
    validate_scaling_rules validate_select validate_window validate_policies validate_scaling_policy
spec_passes = refl

validate_spec_sound_example :
    IsAllowedMin spec.min_replicas (pos 0) spec.max_replicas
    × (pos 1 ≤ℤ spec.max_replicas)
    × IsAllowedBehavior spec.behavior
    × HasConfig spec.mode.webhook_mode
validate_spec_sound_example =
    validate_spec_sound lenient spec (child "spec" ∷ []) (pos 0) spec_passes
