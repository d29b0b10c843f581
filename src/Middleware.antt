-- ===== src/Middleware.antt =====
-- The HTTP middleware, middleware/: what a request passes on its way to a route handler.
pub mod Scopes
pub mod Responses
pub mod Access
pub mod Admission
pub mod Refusals
