-- ===== src/Fragment.antt =====
-- internal/authz/fragment: the effective model, from the base model and the modules' fragments.
pub mod Load
pub mod Merging
pub mod Effective
pub mod Inert
