-- ===== src/Platform.antt =====
-- internal/platform: what the processes build from their configurations, and the operator's endpoints.
pub mod Pool
pub mod Producer
pub mod Admin
