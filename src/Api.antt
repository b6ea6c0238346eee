-- ===== src/Api.antt =====
-- internal/api/server.go: the HTTP API of the control plane.
pub mod Http
pub mod Responses
pub mod Csrf
pub mod Server
pub mod Config
pub mod Accepting
pub mod Operator
pub mod Authenticated
pub mod ReadOnly
pub mod Limits
pub mod Permitted
