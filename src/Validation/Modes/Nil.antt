-- ===== src/Validation/Modes/Nil.antt =====
-- A webhook mode without a configuration.
use general_pod_autoscaler.Common.{◌≡◌, refl, none}
use general_pod_autoscaler.Api.Extern.{K8s}
use general_pod_autoscaler.Validation.Field.{ValidationLibrary, FieldPath}
use general_pod_autoscaler.Validation.Modes.{validate_webhook}

pub validate_webhook_nil :
    {k : K8s} (lib : ValidationLibrary k) (path : FieldPath) → validate_webhook lib none path ≡ none
unfolding validate_webhook
validate_webhook_nil lib path = refl
