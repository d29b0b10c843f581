-- ===== src/Providers.antt =====
-- The upstream provider layer: providers/.
pub mod Breaker
pub mod Resilient
pub mod Registry
