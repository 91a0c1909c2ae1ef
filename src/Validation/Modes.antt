-- ===== src/Validation/Modes.antt =====
-- The validation of the other modes (`validateWebhook`, `validateTime`, `validateEvent`). `none` is a
-- panic: `validateWebhook` reads the fields of a configuration that is nil.
pub mod Nil
use general_pod_autoscaler.Common.{
  String, Bool, true, false, not, ◌&&◌, List, [], ◌∷◌, ◌++◌, Option, none, some, if◌then◌else◌,
}
use general_pod_autoscaler.Common.Int.{ℤ, pos, eqb_ℤ}
use general_pod_autoscaler.Api.Extern.{K8s, ServiceReference, WebhookClientConfig}
use general_pod_autoscaler.Api.Modes.{TimeRange, ScaleTriggers}
use general_pod_autoscaler.Validation.Field.{
  ValidationLibrary, FieldPath, at, ErrorList, is_blank, is_empty, error, error_if, forbidden,
}

abbrev opt_error : Option String → FieldPath → ErrorList
opt_error none path = []
opt_error (some detail) path = error forbidden path detail ∷ []

abbrev port_of : Option ℤ → ℤ
port_of none = pos 0
port_of (some p) = p

module _ {k : K8s} (lib : ValidationLibrary k) where
  abbrev validate_target : Option String → Option ServiceReference → FieldPath → ErrorList
  validate_target none none path =
      error forbidden path "must specify at least one service or url" ∷ []
  validate_target (some url) service path =
      lib.validate_webhook_url (at (at path "webhook") "url") url
  validate_target none (some service) path =
      lib.validate_webhook_service (at (at path "webhook") "service") service.name service.namespace
        service.path (port_of service.port)

  pub validate_webhook : Option WebhookClientConfig → FieldPath → Option ErrorList
  validate_webhook none path = none
  validate_webhook (some wc) path = some (validate_target wc.url wc.service path)

  -- The body of the loop over the time ranges.
  pub validate_time_range : TimeRange → FieldPath → ErrorList
  validate_time_range range path =
      error_if (eqb_ℤ range.desired_replicas (pos 0))
        (error forbidden (at path "desiredReplicas") "should not 0")
      ++ (if is_blank range.schedule
          then error forbidden (at path "schedule") "should not empty" ∷ []
          else opt_error (lib.cron_parse range.schedule) (at path "schedule"))

  pub validate_time_ranges : List TimeRange → FieldPath → ErrorList
  validate_time_ranges [] path = []
  validate_time_ranges (range ∷ rest) path =
      validate_time_range range path ++ validate_time_ranges rest path

  pub validate_time : List TimeRange → FieldPath → ErrorList
  validate_time ranges path =
      error_if (is_empty ranges)
        (error forbidden (at path "timeRanges") "at least one timeRanges should set")
      ++ validate_time_ranges ranges path

pub validate_triggers : List ScaleTriggers → FieldPath → ErrorList
validate_triggers [] path = []
validate_triggers (trigger ∷ rest) path =
    error_if (is_blank trigger.type) (error forbidden (at path "type") "trigger type must set")
    ++ error_if (is_empty trigger.metadata)
        (error forbidden (at path "medadata") "trigger medadata must set")
    ++ validate_triggers rest path

pub validate_event : List ScaleTriggers → FieldPath → ErrorList
validate_event triggers path =
    error_if (is_empty triggers)
      (error forbidden (at path "triggers") "at least one trigger should set")
    ++ validate_triggers triggers path
