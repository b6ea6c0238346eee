-- ===== src/Storage.antt =====
-- internal/storage: the create-only store behind the `Repository` interface, the local
-- in-memory implementation, and the one over Cloud Storage.
pub mod Repository
pub mod Table
pub mod Memory
pub mod Actions
pub mod Objects
pub mod Cloud
