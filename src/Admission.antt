-- ===== src/Admission.antt =====
-- The admission webhook (pkg/validator/hook.go): `forGPA`, `mutate` and `Serve`.
--
-- JSON, the deserializer, `ToAggregate` and the rendering of a field's error are other libraries.
-- `none` is the panic of a nil pointer that is dereferenced, here or in the validation.
pub mod Allowed
use text.Mathlib.Text.{◌==◌ as str_eq}
use general_pod_autoscaler.Common.{
  String, Bool, true, false, List, [], ◌∷◌, ◌++◌, Option, none, some, ◌>>=◌, if◌then◌else◌,
}
use general_pod_autoscaler.Common.Int.{ℤ, pos}
use general_pod_autoscaler.Common.Runtime.{FmtArg}
use general_pod_autoscaler.Api.Extern.{K8s}
use general_pod_autoscaler.Api.Autoscaler.{GeneralPodAutoscaler}
use general_pod_autoscaler.ScalerCore.Errors.{GoError, Result, ok, err}
use general_pod_autoscaler.Validation.Field.{ValidationLibrary, ErrorList, is_empty}
use general_pod_autoscaler.Validation.Spec.{
  validate_horizontal_pod_autoscaler, validate_horizontal_pod_autoscaler_update,
}

-- v1beta1.Create, v1beta1.Update
abbrev pub operation_create : String
operation_create = "CREATE"

abbrev pub operation_update : String
operation_update = "UPDATE"

-- The types of admission/v1beta1 and metav1.Status, with the fields that the code reads or writes.
pub record AdmissionRequest : Type 0 where
  pub uid : String
  pub group : String
  pub kind : String
  pub name : String
  pub operation : String
  pub object : String
  pub old_object : String

pub record StatusCause : Type 0 where
  pub type : String
  pub message : String
  pub field : String

pub record StatusDetails : Type 0 where
  pub name : String
  pub group : String
  pub kind : String
  pub uid : String
  pub causes : List StatusCause

pub record Status : Type 0 where
  pub code : ℤ
  pub message : String
  pub details : Option StatusDetails

pub record AdmissionResponse : Type 0 where
  pub uid : String
  pub allowed : Bool
  pub result : Option Status
  pub patch : Option String
  pub patch_type : Option String

pub record AdmissionReview : Type 0 where
  pub request : Option AdmissionRequest
  pub response : Option AdmissionResponse

-- An http.Request, with what reading its body gives, and what is written to the response.
pub record HttpRequest : Type 0 where
  pub body : Option (Result String)
  pub content_type : String
  pub path : String

pub data Reply : Type 0 where
  http_error : String → ℤ → Reply
  write : String → Reply

pub record AdmissionLibrary (k : K8s) : Type 1 where
  pub validation : ValidationLibrary k
  pub unmarshal : String → Result (GeneralPodAutoscaler k)
  pub decode : String → Result AdmissionReview
  pub marshal : AdmissionReview → Result String
  pub write : String → Option GoError
  pub to_aggregate : ErrorList → GoError
  pub show_error : GoError → String

module _ {k : K8s} (lib : AdmissionLibrary k) where
  -- The patch, the causes and the error. The causes are filled in by a deferred function, after
  -- the value that is returned was taken, which is the empty list.
  abbrev pub Reviewed : Type 0
  Reviewed = Option String × List StatusCause × Option GoError

  -- The errors of a validation are returned; without any, `f` goes on.
  pub refuse_if : Option ErrorList → Option Reviewed → Option Reviewed
  refuse_if validated rest =
      validated
      >>= (λ errs. if is_empty errs then rest else some (none, [], some (lib.to_aggregate errs)))

  pub review_update : AdmissionRequest → GeneralPodAutoscaler k → Option Reviewed
  unfolding refuse_if
  review_update req gpa =
      if str_eq req.operation operation_update
      then elim (lib.unmarshal req.old_object) [
        | err e ↦ some (none, [], some e)
        | ok old_gpa ↦
            refuse_if (validate_horizontal_pod_autoscaler_update lib.validation gpa old_gpa)
              (some (none, [], none))
      ]
      else some (none, [], none)

  pub for_gpa : AdmissionRequest → Option Reviewed
  unfolding review_update
  for_gpa req = elim (lib.unmarshal req.object) [
    | err e ↦ some (none, [], some e)
    | ok gpa ↦
        if str_eq req.operation operation_create
        then refuse_if (validate_horizontal_pod_autoscaler lib.validation gpa)
            (review_update req gpa)
        else review_update req gpa
  ]

  abbrev pub refused : Option Status → AdmissionResponse
  refused result = record {
    uid = "";
    allowed = false;
    result = result;
    patch = none;
    patch_type = none;
  }

  abbrev pub details_of : AdmissionRequest → List StatusCause → Option StatusDetails
  details_of req causes = some (record {
    name = req.name;
    group = req.group;
    kind = req.kind;
    uid = req.uid;
    causes = causes;
  })

  pub respond : AdmissionRequest → Reviewed → AdmissionResponse
  respond req (patch, causes, some e) = refused (
      some (record { code = pos 400; message = lib.show_error e; details = details_of req causes }))
  respond req (patch, causes, none) = record {
    uid = "";
    allowed = true;
    result = some (record { code = pos 0; message = ""; details = details_of req [] });
    patch = patch;
    patch_type = some "JSONPatch";
  }

  pub mutate : AdmissionReview → Option AdmissionResponse
  unfolding for_gpa respond
  mutate ar = ar.request >>= (λ req.
      if str_eq req.kind "GeneralPodAutoscaler"
      then (for_gpa req >>= (λ r. some (respond req r)))
      else some (refused none))

  -- The response with the request's identifier, if both are there.
  pub review_of : AdmissionReview → Option AdmissionResponse → AdmissionReview
  review_of ar none = record { request = none; response = none }
  review_of ar (some response) = record {
    request = none;
    response =
        some (elim ar.request [ none ↦ response | some req ↦ record response { uid = req.uid } ]);
  }

  abbrev could_not : String → GoError → String
  could_not format e = lib.validation.rt.sprintf format (FmtArg.str (lib.show_error e) ∷ [])

  -- A response that cannot be encoded is reported, and written empty.
  pub write_review : AdmissionReview → List Reply
  write_review review =
      let (text, unencoded) : String × List Reply = elim (lib.marshal review) [
        | ok resp ↦ (resp, [])
        | err e ↦ ("", http_error (could_not "could not encode response: %v" e) (pos 500) ∷ [])
      ] in
      unencoded
      ++ (Reply.write text ∷ elim (lib.write text) [
        | none ↦ []
        | some e ↦ http_error (could_not "could not write response: %v" e) (pos 500) ∷ []
      ])

  pub serve_body : HttpRequest → String → Option (List Reply)
  unfolding mutate review_of write_review
  serve_body r body = elim (lib.decode body) [
    | err e ↦ some (
        write_review (
          review_of (record { request = none; response = none })
            (some (
              refused
                (some (record { code = pos 0; message = lib.show_error e; details = none }))))))
    | ok ar ↦
        if str_eq r.path "/mutate"
        then (mutate ar >>= (λ response. some (write_review (review_of ar (some response)))))
        else some (write_review (review_of ar none))
  ]

  pub serve : HttpRequest → Option (List Reply)
  unfolding serve_body
  serve r =
      let body : String = elim r.body [ some (ok text) ↦ text | _ ↦ "" ] in
      if str_eq body ""
      then some (http_error "empty body" (pos 400) ∷ [])
      else if str_eq r.content_type "application/json"
      then serve_body r body
      else some (http_error "invalid Content-Type, expect `application/json`" (pos 415) ∷ [])
