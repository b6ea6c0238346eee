-- ===== src/Contract.antt =====
-- internal/contract: the documents of the service, their validation, canonical JSON, digests and
-- signatures.
pub mod Patterns
pub mod Models
pub mod Json
pub mod Canonical
pub mod Crypto
pub mod Document
pub mod Request
pub mod Dispatch
pub mod DispatchResult
pub mod Receipt
pub mod Evidence
pub mod Snapshot
