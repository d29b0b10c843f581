-- ===== src/Persistence.antt =====
-- The data-access layer, persistence/repositories/.
pub mod ApiKeys
pub mod AdapterRoutes
pub mod Pricing
pub mod Tenants
