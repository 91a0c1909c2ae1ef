-- ===== src/ScalerCore/Webhook.antt =====
-- The scaler that asks a webhook (pkg/scalercore/webhook.go, pkg/requests/api.go).
--
-- HTTP, JSON, URLs, certificates and identifiers are other libraries, held by
-- `WebhookLibrary`. The configuration is written through its pointers, and the transport of the
-- package's HTTP client is a global variable: both are results. `none` is the panic of a nil pointer
-- that is dereferenced. The body of the response is closed at the end, which changes no result.
pub mod Answer
use text.Mathlib.Text.{◌==◌ as str_eq}
use general_pod_autoscaler.Common.{
  String, Bool, not, ◌&&◌, [], ◌∷◌, Option, none, some, ◌>>=◌, if◌then◌else◌, is_nil,
}
use general_pod_autoscaler.Common.Int.{ℤ, pos, eqb_ℤ}
use general_pod_autoscaler.Common.Dict.{Dict}
use general_pod_autoscaler.Common.Runtime.{FmtArg, Runtime}
use general_pod_autoscaler.Api.Extern.{K8s, ServiceReference, WebhookClientConfig}
use general_pod_autoscaler.Api.Modes.{WebhookMode}
use general_pod_autoscaler.Api.Autoscaler.{GeneralPodAutoscaler}
use general_pod_autoscaler.ScalerCore.Errors.{GoError, message, Result, ok, err, then_do, unchanged}

pub record AutoscaleRequest : Type 0 where
  pub uid : String
  pub name : String
  pub namespace : String
  pub parameters : Dict String
  pub current_replicas : ℤ

pub record AutoscaleResponse : Type 0 where
  pub uid : String
  pub scale : Bool
  pub replicas : ℤ

pub record AutoscaleReview : Type 0 where
  pub request : Option AutoscaleRequest
  pub response : Option AutoscaleResponse

-- http.Response: the status, and what reading the body gives.
pub record HttpResponse : Type 0 where
  pub status_code : ℤ
  pub body : Result String

-- The certificates of the client's transport: none is the default transport.
abbrev pub Transport : Type 0
Transport = Option String

pub record WebhookLibrary : Type 1 where
  pub Url : Type 0
  pub make_url : String → String → String → Url  -- the scheme, the host and the path
  pub parse_request_uri : String → Result Url
  pub show_url : Url → String
  pub append_certs_from_pem : String → Bool
  pub new_uuid : String
  pub marshal : AutoscaleReview → Result String
  pub unmarshal : String → Result AutoscaleReview
  pub post : Transport → String → String → Result HttpResponse

module _ (rt : Runtime) (lib : WebhookLibrary) where
  unfoldable pub create_url : String → String → String → String → Option ℤ → lib.Url
  create_url scheme name namespace path port =
      let host_port : ℤ = elim port [ none ↦ pos 8000 | some p ↦ p ] in
      lib.make_url scheme
        (rt.sprintf "%s.%s.svc:%d"
          (FmtArg.str name ∷ FmtArg.str namespace ∷ FmtArg.int host_port ∷ []))
        path

  pub set_ca_bundle : String → Result Transport
  set_ca_bundle ca_bundle =
      if lib.append_certs_from_pem ca_bundle
      then ok (some ca_bundle)
      else err (message "no certs were appended from caBundle")

  -- A service without a path or a namespace is given an empty path and the namespace `default`.
  unfoldable pub fill_service : ServiceReference → ServiceReference
  fill_service service = record service {
    namespace = if str_eq service.namespace "" then "default" else service.namespace;
    path = elim service.path [ none ↦ some "" | some p ↦ some p ];
  }

  -- The result, the configuration and the transport.
  abbrev pub Built : Type 0
  Built = Result lib.Url × WebhookClientConfig × Transport

  -- The address, once the transport is set.
  unfoldable pub url_of : WebhookClientConfig → String → Transport → Built
  unfolding create_url fill_service
  url_of config scheme transport = elim config.url [
    | some u ↦ (
      if str_eq u "" then err (message "URL was not provided") else lib.parse_request_uri u,
      config,
      transport,
    )
    | none ↦ elim config.service [
      | none ↦ (
        err (message "service was not provided, either URL or Service must be provided"),
        config,
        transport,
      )
      | some service ↦
          if str_eq service.name ""
          then (err (message "service name was not provided"), config, transport)
          else let filled = fill_service service in
            (
              ok (
                  create_url scheme filled.name filled.namespace
                    (elim filled.path [ none ↦ "" | some p ↦ p ]) filled.port),
              record config { service = some filled },
              transport,
            )
    ]
  ]

  unfoldable pub build_url_from_webhook_policy : WebhookClientConfig → Transport → Built
  unfolding url_of set_ca_bundle
  build_url_from_webhook_policy config transport =
      if not (is_nil config.url) && not (is_nil config.service)
      then (err (message "service and URL cannot be used simultaneously"), config, transport)
      else elim config.ca_bundle [
        | none ↦ url_of config "http" transport
        | some ca_bundle ↦ elim (set_ca_bundle ca_bundle) [
          | err e ↦ (err e, config, transport)
          | ok transport' ↦ url_of config "https" transport'
        ]
      ]

  abbrev pub request_of : {k : K8s} → GeneralPodAutoscaler k → WebhookMode → ℤ → AutoscaleReview
  request_of gpa mode current_replicas = record {
    request = some (record {
      uid = lib.new_uuid;
      name = gpa.spec.scale_target_ref.name;
      namespace = gpa.namespace;
      parameters = mode.parameters;
      current_replicas = current_replicas;
    });
    response = none;
  }

  -- The count of a response that is there.
  unfoldable pub count_of : ℤ → Option AutoscaleResponse → Result ℤ
  count_of current_replicas none = err (message "received empty reponse")
  count_of current_replicas (some r) = ok (if r.scale then r.replicas else current_replicas)

  -- From the response of the server to the count.
  unfoldable pub read_answer : lib.Url → ℤ → HttpResponse → Result ℤ
  unfolding count_of
  read_answer u current_replicas res =
      if eqb_ℤ res.status_code (pos 200)
      then (then_do res.body unchanged λ text.
          then_do (lib.unmarshal text) unchanged
            λ review. count_of current_replicas review.response)
      else err (
          message (
            rt.sprintf "bad status code %d from the server: %s"
              (FmtArg.int res.status_code ∷ FmtArg.str (lib.show_url u) ∷ [])))

  unfoldable pub ask :
      {k : K8s} → GeneralPodAutoscaler k → WebhookMode → ℤ → Transport → lib.Url → Result ℤ
  unfolding read_answer
  ask gpa mode current_replicas transport u =
      then_do (lib.marshal (request_of gpa mode current_replicas)) unchanged λ body.
        then_do (lib.post transport (lib.show_url u) body) unchanged
          λ res. read_answer u current_replicas res

  -- The count, the configuration of the scaler and the transport.
  unfoldable pub get_replicas :
      {k : K8s}
      → GeneralPodAutoscaler k
      → Option WebhookMode
      → ℤ
      → Transport
      → Option (Result ℤ × Option WebhookMode × Transport)
  unfolding build_url_from_webhook_policy ask
  get_replicas gpa none current_replicas transport =
      some (err (message "webhookPolicy parameter must not be nil"), none, transport)
  get_replicas gpa (some mode) current_replicas transport =
      mode.webhook_client_config >>= (λ config.
        let (built, config', transport') = build_url_from_webhook_policy config transport in
        some (
          then_do built unchanged (ask gpa mode current_replicas transport'),
          some (record mode { webhook_client_config = some config' }),
          transport',
        ))
