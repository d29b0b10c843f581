-- ===== src/Adapters.antt =====
-- The provider adapters, providers/openai_provider.py and providers/anthropic_provider.py.
pub mod Http
pub mod Lines
pub mod Sse
pub mod OpenAi
pub mod Anthropic
pub mod Refused
pub mod Payloads
pub mod Provided
