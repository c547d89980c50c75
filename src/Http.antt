-- ===== src/Http.antt =====
-- internal/authz: the HTTP handlers of the authorization service behind the parsed request.
pub mod Replies
pub mod Wiring
pub mod Grants
pub mod Authorize
pub mod Handle
pub mod Permits
pub mod Resolves
pub mod Covers
pub mod BaseTypes
pub mod Superadmin
pub mod Can
pub mod BatchCan
pub mod Decided
pub mod BatchDecided
pub mod Summary
pub mod Features
pub mod Access
