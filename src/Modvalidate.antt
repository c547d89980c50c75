-- ===== src/Modvalidate.antt =====
-- internal/modvalidate: the validation of a module's artifacts before it is installed.
pub mod Errors
pub mod Artifacts
pub mod Deps
pub mod Manifest
pub mod Migrations
pub mod Fragment
pub mod Frontend
pub mod Catalog
pub mod Sql
