-- ===== src/Api.antt =====
-- The routes of api/v1 that serve clients and probes.
pub mod Chat
pub mod Health
