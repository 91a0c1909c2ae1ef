-- ===== src/Tests/Requests.antt =====
-- The theorems on the webhooks and the clients of metrics, at concrete requests.
use general_pod_autoscaler.Common.{
  String, List, [], ◌∷◌, ◌++◌, All, none, some, ◌≡◌, ◌≢◌, refl, ap, sym, ◌>>=◌, arith,
}
use text.Mathlib.Text.{◌==◌ as str_eq}
use mathlib.Core.Bool.{true≢false}
use general_pod_autoscaler.Common.Dict.{lookup}
use general_pod_autoscaler.Common.Int.{ℤ, pos}
use general_pod_autoscaler.Api.Extern.{WebhookClientConfig}
use general_pod_autoscaler.ScalerCore.Errors.{message, ok, err}
use general_pod_autoscaler.ScalerCore.Webhook.{
  HttpResponse, get_replicas, ask, read_answer, count_of, build_url_from_webhook_policy, url_of,
  fill_service, create_url, request_of,
}
use general_pod_autoscaler.ScalerCore.Webhook.Answer.{IsAnswer, webhook_answered}
use general_pod_autoscaler.Clients.Rest.{ContainerMetrics, PodMetrics, metric_of, get_pod_metrics}
use general_pod_autoscaler.Clients.Rest.Sums.{HasResource, total, lookup-get_pod_metrics}
use general_pod_autoscaler.Clients.Samples.{MetricPoint, collapse_time_samples}
use general_pod_autoscaler.Clients.Samples.Total.{collapse_time_samples_total}
use general_pod_autoscaler.Validation.Spec.{validate_horizontal_pod_autoscaler}
use general_pod_autoscaler.Admission.{
  AdmissionLibrary, AdmissionRequest, AdmissionResponse, mutate, operation_create,
}
use general_pod_autoscaler.Admission.Allowed.{IsJudged, create-IsJudged}
use general_pod_autoscaler.Tests.World.{webhook_library, webhook_mode}
use general_pod_autoscaler.Tests.Modes.{lenient, spec_passes}
use general_pod_autoscaler.Tests.{k8s, runtime, gpa}

abbrev filled_config : WebhookClientConfig
filled_config = record {
  url = none;
  service = some (record { namespace = "default"; name = "scaler"; path = some ""; port = none });
  ca_bundle = none;
}

answered :
    get_replicas runtime webhook_library gpa (some webhook_mode) (pos 5) none
    ≡ some (
      ok (pos 7),
      some (record webhook_mode { webhook_client_config = some filled_config }),
      none,
    )
unfolding get_replicas ask read_answer count_of build_url_from_webhook_policy url_of fill_service
    create_url
answered = refl

webhook_answered_example :
    (address : String) × (body : String) × (res : HttpResponse) × (webhook_library.marshal
        (request_of runtime webhook_library gpa webhook_mode (pos 5))
      ≡ ok body)
    × (webhook_library.post none address body ≡ ok res)
    × IsAnswer webhook_library (pos 5) (pos 7) res
webhook_answered_example =
    webhook_answered runtime webhook_library (pos 5) (pos 7) gpa webhook_mode none
      (some (record webhook_mode { webhook_client_config = some filled_config })) none answered

abbrev containers_of : List ℤ → List (ContainerMetrics k8s)
containers_of [] = []
containers_of (v ∷ rest) = record { name = "app"; usage = ("cpu", v) ∷ [] } ∷ containers_of rest

abbrev pod_of : String → PodMetrics k8s
pod_of name = record {
  name = name;
  timestamp = pos 5;
  window = pos 30;
  containers = containers_of (pos 100 ∷ pos 20 ∷ []);
}

abbrev three_pods : List (PodMetrics k8s)
three_pods = pod_of "a" ∷ pod_of "b" ∷ pod_of "c" ∷ []

lookup-get_pod_metrics_example :
    let found = lookup "b" (get_pod_metrics three_pods "cpu") in
    ((pod_of "b").containers ≢ []
      → All (HasResource "cpu") (pod_of "b").containers
      → found ≡ some (metric_of (pod_of "b") (total "cpu" (pos 0) (pod_of "b").containers)))
    × (found ≢ none
        → ((pod_of "b").containers ≢ []) × All (HasResource "cpu") (pod_of "b").containers)
lookup-get_pod_metrics_example =
    lookup-get_pod_metrics "cpu" (pod_of "a" ∷ []) (pod_of "b") (pod_of "c" ∷ [])
      ((λ e. true≢false (sym (ap (λ s. str_eq s "b") e))), tt)
      ((λ e. true≢false (sym (ap (λ s. str_eq s "b") e))), tt)

abbrev points : List (MetricPoint runtime)
points =
    record { timestamp = pos 10; value = 3; float_value = none }
    ∷ record { timestamp = pos 90; value = 5; float_value = none }
    ∷ []

collapse_time_samples_total_example : collapse_time_samples runtime points (pos 60) ≢ none
collapse_time_samples_total_example =
    collapse_time_samples_total runtime points (pos 60) (omega arith)

abbrev admission : AdmissionLibrary k8s
admission = record {
  validation = lenient;
  unmarshal = λ s. ok gpa;
  decode = λ s. err (message "not used");
  marshal = λ r. ok "";
  write = λ s. none;
  to_aggregate = λ errs. message "invalid";
  show_error = λ e. "invalid";
}

abbrev create_request : AdmissionRequest
create_request = record {
  uid = "1";
  group = "autoscaling.ocgi.dev";
  kind = "GeneralPodAutoscaler";
  name = "web";
  operation = operation_create;
  object = "{}";
  old_object = "";
}

gpa_passes : validate_horizontal_pod_autoscaler lenient gpa ≡ some []
unfolding validate_horizontal_pod_autoscaler
gpa_passes = ap (λ o. o >>= (λ errs. some ([] ++ errs))) spec_passes

create-IsJudged_example :
    (r : AdmissionResponse) × (mutate admission
        (record { request = some create_request; response = none })
      ≡ some r)
    × IsJudged [] r
create-IsJudged_example = create-IsJudged admission create_request gpa [] refl refl refl gpa_passes
