-- ===== src/Tests/World.antt =====
-- A cluster, the answers of its libraries and an autoscaler that is driven by a metric, as test data.
use general_pod_autoscaler.Common.{
  String, [], ◌∷◌, Option, none, some, true, false, sym, subst, some_inj, some_ne_none, All, arith,
}
use mathlib.Core.Bool.{true≢false}
use general_pod_autoscaler.Common.Int.{pos}
use general_pod_autoscaler.Api.Metrics.{
  MetricSpec, external_metric_source_type, average_value_metric_type,
}
use general_pod_autoscaler.Api.Modes.{MetricMode, WebhookMode}
use general_pod_autoscaler.Api.Autoscaler.{GeneralPodAutoscaler}
use general_pod_autoscaler.ScalerCore.Errors.{GoError, message, ok, err}
use general_pod_autoscaler.ScalerCore.Cron.{CronLibrary}
use general_pod_autoscaler.ScalerCore.Webhook.{WebhookLibrary, HttpResponse, AutoscaleReview}
use general_pod_autoscaler.Reconcile.{Scale, GroupResource, MetricsClient, Cluster, Clock}
use general_pod_autoscaler.Reconcile.Metrics.Each.Total.{IsPopulated}
use general_pod_autoscaler.Reconcile.Replicas.{Process}
use general_pod_autoscaler.Reconcile.Replicas.Simple.{Scalers}
use general_pod_autoscaler.Reconcile.Replicas.Simple.Total.{CanAsk}
use general_pod_autoscaler.Reconcile.Rescale.{min_replicas_of}
use general_pod_autoscaler.Reconcile.Autoscaler.Ready.{IsReady}
use general_pod_autoscaler.Tests.Scaling.{behavior-IsComplete}
use general_pod_autoscaler.Tests.{k8s, spec, gpa, now}

abbrev pub deployments : GroupResource
deployments = record { group = "apps"; resource = "deployments" }

abbrev pub five : Scale
five = record { spec_replicas = pos 5; status_replicas = pos 5; status_selector = "app=web" }

-- Two values of an external metric; the other metrics cannot be had.
abbrev pub client : MetricsClient k8s String
client = record {
  get_resource_metric = λ r n s c. err (message "no metrics");
  get_raw_metric = λ m n s t. err (message "no metrics");
  get_object_metric = λ m n o s. err (message "no metrics");
  get_external_metric = λ m n s. ok (pos 50 ∷ pos 30 ∷ []);
  list_pods = λ n s. ok [];
}

abbrev selector_text : Option String → String
selector_text none = ""
selector_text (some s) = s

-- The update of a scale gives this error, if any.
abbrev pub cluster_with : Option GoError → Cluster k8s
cluster_with update_error = record {
  Selector = String;
  parse_selector = λ s. ok s;
  label_selector_as_selector = λ s. ok (selector_text s);
  convert_selector_to_labels_map = λ s. ok (("app", "web") ∷ []);
  parse_group = λ s. ok "apps";
  rest_mappings = λ group kind. ok (deployments ∷ []);
  get_scale = λ i namespace target_gr name. ok five;
  put_scale = λ namespace target_gr scale. update_error;
  status_equal = λ a b. false;
  put_status = λ g. none;
  put_object = λ g. none;
  create_merge_patch = λ g labels. none;
  put_labels = λ labels. none;
  client = λ i. client;
  show_error = λ e. "error";
  show_selector = selector_text;
}

abbrev pub clock : Clock
clock = λ place i. now

-- Ten units of the metric for each pod.
abbrev pub external_spec : MetricSpec k8s
external_spec = record {
  type = external_metric_source_type;
  object = none;
  pods = none;
  resource = none;
  external = some (record {
    metric = record { name = "queue"; selector = none };
    target = record {
      type = average_value_metric_type;
      value = none;
      average_value = some (pos 10);
      average_utilization = none;
    };
  });
  container_resource = none;
}

abbrev pub metric_gpa : GeneralPodAutoscaler k8s
metric_gpa = record gpa {
  spec = record spec {
    mode = record {
      metric_mode = some (record { metrics = external_spec ∷ [] });
      webhook_mode = none;
      time_mode = none;
      event_mode = none;
    };
  };
}

abbrev pub process : Process
process = record { record_schedule_name = ""; transport = none }

-- The server scales to seven.
abbrev pub answer : HttpResponse
answer = record { status_code = pos 200; body = ok "seven" }

abbrev pub seven : AutoscaleReview
seven = record {
  request = none;
  response = some (record { uid = ""; scale = true; replicas = pos 7 });
}

abbrev pub webhook_library : WebhookLibrary
webhook_library = record {
  Url = String;
  make_url = λ scheme host path. host;
  parse_request_uri = λ s. ok s;
  show_url = λ u. u;
  append_certs_from_pem = λ s. true;
  new_uuid = "1";
  marshal = λ r. ok "review";
  unmarshal = λ s. ok seven;
  post = λ transport address body. ok answer;
}

abbrev pub webhook_mode : WebhookMode
webhook_mode = record {
  webhook_client_config = some (record {
    url = none;
    service = some (record { namespace = ""; name = "scaler"; path = none; port = none });
    ca_bundle = none;
  });
  parameters = [];
}

abbrev cron_library : CronLibrary
cron_library = record { Schedule = String; parse_standard = λ s. none; next = λ s t. t }

abbrev pub scalers : Scalers
scalers = record { cron = cron_library; fuel = 3; webhook = webhook_library }

pub external_spec-IsPopulated : IsPopulated external_spec
external_spec-IsPopulated = record {
  object = λ t. absurd (true≢false (sym t));
  object_target = λ s e. absurd (some_ne_none (sym e));
  pods = λ t. absurd (true≢false (sym t));
  pods_target = λ s e. absurd (some_ne_none (sym e));
  resource = λ t. absurd (true≢false (sym t));
  container = λ t. absurd (true≢false (sym t));
  external = λ t. some_ne_none;
}

pub metric_gpa-CanAsk : CanAsk clock scalers metric_gpa
metric_gpa-CanAsk = record {
  metrics = λ m e.
      subst (λ (x : MetricMode k8s). All IsPopulated x.metrics) (some_inj e)
        (external_spec-IsPopulated, tt);
  webhook = λ m e. absurd (some_ne_none (sym e));
  timetable = λ m e. absurd (some_ne_none (sym e));
}

pub metric_gpa-IsReady : IsReady metric_gpa
unfolding min_replicas_of
metric_gpa-IsReady = record {
  nonneg = omega arith;
  ordered = omega arith;
  small = omega arith;
  complete = behavior-IsComplete;
}
