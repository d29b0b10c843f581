-- ===== src/Tests.antt =====
-- The theorems at concrete inputs, with the worlds in which their hypotheses hold.
mod Breakers
mod Providers
mod Routes
mod Buckets
mod Codec
mod Keys
mod Caches
mod Rows
mod Gateways
mod Streams
mod Jobs
mod Adapters
mod Traces
mod Admins
mod Loads
mod Queues
