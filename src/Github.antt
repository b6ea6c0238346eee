-- ===== src/Github.antt =====
-- internal/githubapp: the provider behind the dispatcher.
pub mod Config
pub mod Tokens
pub mod Client
pub mod Recovery
pub mod Broker
pub mod Baseline
pub mod Paths
pub mod RoundTrip
pub mod Prepared
pub mod Outcomes
pub mod Recovered
pub mod Fresh
