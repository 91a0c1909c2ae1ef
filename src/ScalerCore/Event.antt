-- ===== src/ScalerCore/Event.antt =====
-- The scaler for events (pkg/scalercore/event.go), which proposes no replicas; no chain has it.
use general_pod_autoscaler.Common.{String}
use general_pod_autoscaler.Common.Int.{pos}
use general_pod_autoscaler.ScalerCore.Errors.{ok}
use general_pod_autoscaler.ScalerCore.Chain.{Scaler}

pub new_event_scaler : {A : Type 0} → String → Scaler A
new_event_scaler schedule = record {
  scaler_name = "Event";
  get_replicas = λ gpa current. ok (pos 0);
}
