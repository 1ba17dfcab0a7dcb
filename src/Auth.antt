-- ===== src/Auth.antt =====
-- internal/auth: sign-in, refresh tokens and their revocation.
pub mod Store
pub mod Tokens
pub mod Service
pub mod Requests
pub mod Revoked
pub mod LogOut
pub mod Live
pub mod Issues
pub mod Served
