-- ===== src/Scaler.antt =====
-- The controller of pkg/scaler/general.go.
pub mod Limits
pub mod State
pub mod Policies
pub mod Events
pub mod Recommendations
pub mod Conditions
pub mod Normalize
