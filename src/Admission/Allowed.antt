-- ===== src/Admission/Allowed.antt =====
-- Which requests are admitted.
use general_pod_autoscaler.Common.{
  true, [], ◌∷◌, some, none, ◌≡◌, refl, ◌↔◌, sym, ◌>>=◌, if◌then◌else◌,
}
use mathlib.Core.Bool.{true≢false}
use general_pod_autoscaler.Api.Extern.{K8s}
use general_pod_autoscaler.Api.Autoscaler.{GeneralPodAutoscaler}
use general_pod_autoscaler.ScalerCore.Errors.{ok}
use general_pod_autoscaler.Validation.Field.{ErrorList, is_empty}
use general_pod_autoscaler.Validation.Spec.{
  validate_horizontal_pod_autoscaler, validate_horizontal_pod_autoscaler_update,
}
use general_pod_autoscaler.Admission.{
  AdmissionLibrary, AdmissionRequest, AdmissionResponse, Status, StatusDetails, operation_create,
  operation_update, refuse_if, review_update, for_gpa, respond, mutate,
}

-- The decision is that of the validation. A refusal has the code 400; the causes are empty,
-- although the code collects one for each error.
pub record IsJudged (errs : ErrorList) (r : AdmissionResponse) : Type 0 where
  pub allowed_iff : (r.allowed ≡ true) ↔ (errs ≡ [])
  pub result : Status
  pub details : StatusDetails
  pub has_result : r.result ≡ some result
  pub has_details : result.details ≡ some details
  pub no_causes : details.causes ≡ []

-- The response to the errors of a validation.
respond-IsJudged :
    {k : K8s} (lib : AdmissionLibrary k) (req : AdmissionRequest) (errs : ErrorList)
    → (r : AdmissionResponse) × (((if is_empty errs
            then some (none, [], none)
            else some (none, [], some (lib.to_aggregate errs)))
          >>= (λ v. some (respond lib req v)))
        ≡ some r)
      × IsJudged errs r
unfolding respond
respond-IsJudged lib req [] = (
  _,
  refl,
  record {
    allowed_iff = ((λ h. refl), (λ h. refl));
    result = _;
    details = _;
    has_result = refl;
    has_details = refl;
    no_causes = refl;
  },
)
respond-IsJudged lib req (e ∷ errs) = (
  _,
  refl,
  record {
    allowed_iff = ((λ h. absurd (true≢false (sym h))), (λ h. cc));
    result = _;
    details = _;
    has_result = refl;
    has_details = refl;
    no_causes = refl;
  },
)

module _ {k : K8s} (lib : AdmissionLibrary k) (req : AdmissionRequest)
    (gpa : GeneralPodAutoscaler k) (errs : ErrorList) where
  -- A request to create an autoscaler is answered when its object can be read and the validation
  -- does not panic: it is allowed exactly when the validation finds no error, and no cause
  -- is reported.
  pub create-IsJudged :
      req.kind ≡ "GeneralPodAutoscaler"
      → req.operation ≡ operation_create
      → lib.unmarshal req.object ≡ ok gpa
      → validate_horizontal_pod_autoscaler lib.validation gpa ≡ some errs
      → (r : AdmissionResponse) × (mutate lib (record { request = some req; response = none })
          ≡ some r)
        × IsJudged errs r
  unfolding mutate for_gpa review_update refuse_if respond
  create-IsJudged of_kind creates reads validated =
      rw (of_kind, reads, creates, validated, mutate, for_gpa, refuse_if)
        (respond-IsJudged lib
          (record req { kind = "GeneralPodAutoscaler"; operation = operation_create }) errs)

  -- A request to update an autoscaler is judged by the validation of the update, in the same way,
  -- when both objects can be read.
  pub update-IsJudged :
      (old_gpa : GeneralPodAutoscaler k)
      → req.kind ≡ "GeneralPodAutoscaler"
      → req.operation ≡ operation_update
      → lib.unmarshal req.object ≡ ok gpa
      → lib.unmarshal req.old_object ≡ ok old_gpa
      → validate_horizontal_pod_autoscaler_update lib.validation gpa old_gpa ≡ some errs
      → (r : AdmissionResponse) × (mutate lib (record { request = some req; response = none })
          ≡ some r)
        × IsJudged errs r
  unfolding mutate for_gpa review_update refuse_if
  update-IsJudged old_gpa of_kind updates reads reads_old validated =
      rw (of_kind, reads, updates, reads_old, validated, mutate, for_gpa, review_update, refuse_if)
        (respond-IsJudged lib
          (record req { kind = "GeneralPodAutoscaler"; operation = operation_update }) errs)
