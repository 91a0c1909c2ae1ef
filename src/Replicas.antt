-- ===== src/Replicas.antt =====
-- The replica calculator (pkg/scaler/replica_calculator.go, with the pod helpers of
-- pkg/scaler/utils.go and the ratios of pkg/metrics/utilization.go).
pub mod Pods
pub mod Utilization
pub mod Calculator
pub mod Queries
