-- ===== src/ScalerCore/Webhook/Answer.antt =====
-- What the webhook answers.
use general_pod_autoscaler.Common.{
  String, Option, none, some, ◌≡◌, ◌≢◌, refl, bind_ne_none, some_ne_none, if◌then◌else◌, bind-some,
  some_inj, sym, ap, if_split, arith, subst,
}
use general_pod_autoscaler.Common.Int.{ℤ, pos, eqb_ℤ}
use general_pod_autoscaler.Common.Runtime.{Runtime}
use general_pod_autoscaler.Api.Extern.{K8s}
use general_pod_autoscaler.Api.Modes.{WebhookMode}
use general_pod_autoscaler.Api.Autoscaler.{GeneralPodAutoscaler}
use general_pod_autoscaler.ScalerCore.Errors.{ok, then_do-ok, unchanged, err_ne_ok, ok_inj}
use general_pod_autoscaler.ScalerCore.Webhook.{
  WebhookLibrary, Transport, HttpResponse, AutoscaleReview, AutoscaleResponse, count_of,
  read_answer, ask, get_replicas, request_of, build_url_from_webhook_policy,
}

module _ (rt : Runtime) (lib : WebhookLibrary) {k : K8s} (gpa : GeneralPodAutoscaler k) where
  pub get_replicas_ne_none :
      (mode : WebhookMode) (current : ℤ) (transport : Transport)
      → mode.webhook_client_config ≢ none
      → get_replicas rt lib gpa (some mode) current transport ≢ none
  unfolding get_replicas
  get_replicas_ne_none mode current transport has =
      bind_ne_none mode.webhook_client_config _ has (λ config. some_ne_none)

-- A count comes only from a response of the server: status 200, with a body that decodes to a
-- review with a response; it is the response's count if it is to scale, and else the current one.
pub record IsAnswer (lib : WebhookLibrary) (current count : ℤ) (res : HttpResponse) : Type 0 where
  pub text : String
  pub review : AutoscaleReview
  pub response : AutoscaleResponse
  pub is_ok : res.status_code ≡ pos 200
  pub has_body : res.body ≡ ok text
  pub decodes : lib.unmarshal text ≡ ok review
  pub responds : review.response ≡ some response
  pub is_count : count ≡ (if response.scale then response.replicas else current)

module _ (rt : Runtime) (lib : WebhookLibrary) (current count : ℤ) where
  count_of-response :
      (r : Option AutoscaleResponse)
      → count_of rt lib current r ≡ ok count
      → (response : AutoscaleResponse) × (r ≡ some response)
        × (count ≡ (if response.scale then response.replicas else current))
  unfolding count_of
  count_of-response none h = absurd (err_ne_ok h)
  count_of-response (some r) h = (r, refl, sym (ok_inj h))

  read_answer-IsAnswer :
      (u : lib.Url) (res : HttpResponse)
      → read_answer rt lib u current res ≡ ok count
      → IsAnswer lib current count res
  unfolding read_answer
  read_answer-IsAnswer u res =
      if_split (eqb_ℤ res.status_code (pos 200)) _ _
        (λ good h.
          let (text, has_body, rest) = then_do-ok res.body unchanged _ h in
          let (review, decodes, last) = then_do-ok (lib.unmarshal text) unchanged _ rest in
          let (response, responds, is_count) = count_of-response review.response last in
          record {
            text = text;
            review = review;
            response = response;
            is_ok = ground arith;
            has_body = has_body;
            decodes = decodes;
            responds = responds;
            is_count = is_count;
          })
        (λ bad h. absurd (err_ne_ok h))

  -- A count that the webhook's scaler returns is the answer of the server to the request for the
  -- autoscaler and its current count, encoded and posted over the transport that is returned.
  pub webhook_answered :
      {k : K8s} (gpa : GeneralPodAutoscaler k) (mode : WebhookMode) (transport : Transport)
      (mode' : Option WebhookMode) (transport' : Transport)
      → get_replicas rt lib gpa (some mode) current transport ≡ some (ok count, mode', transport')
      → (address : String) × (body : String) × (res : HttpResponse) × (lib.marshal
            (request_of rt lib gpa mode current)
          ≡ ok body)
        × (lib.post transport' address body ≡ ok res)
        × IsAnswer lib current count res
  unfolding get_replicas ask
  webhook_answered gpa mode transport mode' transport' h =
      let (config, has, rest) = bind-some mode.webhook_client_config _ h in
      let built = build_url_from_webhook_policy rt lib config transport in
      let same = some_inj rest in
      let (u, is_built, asked) = then_do-ok built.0 unchanged _ (ap (λ x. x.0) same) in
      let (body, marshalled, posted) =
        then_do-ok (lib.marshal (request_of rt lib gpa mode current)) unchanged _ asked in
      let (res, answered, read) =
        then_do-ok (lib.post built.2 (lib.show_url u) body) unchanged _ posted in
      (
        lib.show_url u,
        body,
        res,
        marshalled,
        subst (λ t. lib.post t (lib.show_url u) body ≡ ok res) (ap (λ x. x.2) same) answered,
        read_answer-IsAnswer u res read,
      )
