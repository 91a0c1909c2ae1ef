-- ===== src/ScalerCore.antt =====
-- The scalers that are not driven by metrics (pkg/scalercore), and the chain that combines them.
pub mod Errors
pub mod Cron
pub mod Chain
pub mod Webhook
pub mod Event
