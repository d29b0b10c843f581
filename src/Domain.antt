-- ===== src/Domain.antt =====
-- The framework-free entities and value objects of domain/.
pub mod Chat
pub mod ModelIdentifier
