-- ===== src/Operations.antt =====
-- internal/operations: the catalog of allowed operations and the operation service.
pub mod Catalog
pub mod Identifiers
pub mod Environment
pub mod Exec
pub mod Evidence
pub mod Documents
pub mod Outbox
pub mod Service
