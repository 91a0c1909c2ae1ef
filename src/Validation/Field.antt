-- ===== src/Validation/Field.antt =====
-- Field errors (k8s.io/apimachinery/pkg/util/validation/field), and what the validation takes from
-- other libraries. An error has its type, its field and its detail; the offending value, which is
-- only shown to the user, is left out.
use text.Mathlib.Text.{◌==◌ as str_eq}
use general_pod_autoscaler.Common.{
  ℕ, ◌≡◌, refl, ◌↔◌, String, Bool, true, false, List, [], ◌∷◌, ◌++◌, Option, arith,
}
use general_pod_autoscaler.Common.Int.{ℤ}
use general_pod_autoscaler.Common.Runtime.{Runtime}
use general_pod_autoscaler.Api.Autoscaler.{GeneralPodAutoscaler}
use general_pod_autoscaler.Api.Extern.{K8s}

pub data Segment : Type 0 where
  child : String → Segment
  index : ℕ → Segment

-- A path, its last segment first.
abbrev pub FieldPath : Type 0
FieldPath = List Segment

abbrev pub at : FieldPath → String → FieldPath
at path name = child name ∷ path

pub data ErrorType : Type 0 where
  invalid required forbidden not_supported : ErrorType

pub record FieldError : Type 0 where
  pub type : ErrorType
  pub field : FieldPath
  pub detail : String

abbrev pub ErrorList : Type 0
ErrorList = List FieldError

abbrev pub error : ErrorType → FieldPath → String → FieldError
error type field detail = record { type = type; field = field; detail = detail }

-- `if b { allErrs = append(allErrs, e) }`
abbrev pub error_if : Bool → FieldError → ErrorList
error_if true e = e ∷ []
error_if false e = []

-- An error of the type `invalid` for each message.
abbrev pub invalid_all : FieldPath → List String → ErrorList
invalid_all path [] = []
invalid_all path (msg ∷ rest) = error invalid path msg ∷ invalid_all path rest

pub record ValidationLibrary (k : K8s) : Type 1 where
  pub rt : Runtime
  -- path.IsValidPathSegmentName: the messages of what is wrong with a name
  pub is_valid_path_segment_name : String → List String
  -- webhook.ValidateWebhookURL and ValidateWebhookService
  pub validate_webhook_url : FieldPath → String → ErrorList
  pub validate_webhook_service : FieldPath → String → String → Option String → ℤ → ErrorList
  -- cron.Parse: the error's text, if there is one
  pub cron_parse : String → Option String
  -- validation.ValidateObjectMeta and ValidateObjectMetaUpdate, on the metadata
  pub validate_object_meta : GeneralPodAutoscaler k → ErrorList
  pub validate_object_meta_update : GeneralPodAutoscaler k → GeneralPodAutoscaler k → ErrorList
  -- validation.ValidateNonnegativeField
  pub validate_nonnegative_field : ℤ → FieldPath → ErrorList

-- `len(s) == 0`
abbrev pub is_blank : String → Bool
is_blank s = str_eq s ""

abbrev pub is_empty {ℓ} : {A : Type ℓ} → List A → Bool
is_empty [] = true
is_empty (_ ∷ _) = false

pub append-eq-nil {ℓ} : {A : Type ℓ} (xs ys : List A) → ((xs ++ ys) ≡ []) ↔ ((xs ≡ []) × (ys ≡ []))
append-eq-nil [] ys = ((λ h. (refl, h)), (λ h. h.1))
append-eq-nil (x ∷ xs) ys = ((λ h. cc), (λ h. cc h.0))

pub error_if-eq-nil : (b : Bool) (e : FieldError) → (error_if b e ≡ []) ↔ (b ≡ false)
error_if-eq-nil b e = ground arith

-- The three parts of a list that is empty.
pub append_3-eq-nil {ℓ} :
    {A : Type ℓ} (xs ys zs : List A) → xs ++ ys ++ zs ≡ [] → (xs ≡ []) × (ys ≡ []) × (zs ≡ [])
append_3-eq-nil xs ys zs h =
    let outer = (append-eq-nil (xs ++ ys) zs).0 h in
    let inner = (append-eq-nil xs ys).0 outer.0 in (inner.0, inner.1, outer.1)
