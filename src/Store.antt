-- ===== src/Store.antt =====
-- internal/authz/store: the tuple table and its ledger.
pub mod Tables
pub mod Keeps
pub mod Ledger
pub mod Anchor
pub mod Superadmins
pub mod Checks
pub mod DefaultGrant
