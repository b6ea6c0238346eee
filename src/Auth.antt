-- ===== src/Auth.antt =====
-- internal/auth: roles, identities, and their validation.
pub mod Roles
pub mod Identity
pub mod Iap
pub mod Membership
