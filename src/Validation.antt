-- ===== src/Validation.antt =====
-- The validation of autoscalers at admission (pkg/validation/validation.go).
pub mod Field
pub mod Behavior
pub mod Metrics
pub mod Modes
pub mod Spec
