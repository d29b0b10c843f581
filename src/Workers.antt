-- ===== src/Workers.antt =====
-- The arq jobs, workers/. What Pydantic and `datetime` do is a parameter.
pub mod Payloads
pub mod Tasks
pub mod RoundTrip
