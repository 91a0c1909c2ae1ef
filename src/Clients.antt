-- ===== src/Clients.antt =====
-- The clients that query metrics (pkg/metrics).
pub mod Rest
pub mod Samples
pub mod Heapster
