-- ===== src/Tests.antt =====
-- The theorems at concrete inputs.
pub mod Auth
pub mod Authz
pub mod Content
pub mod Tenant
pub mod Outbox
pub mod Schedule
pub mod Schema
pub mod Entry
pub mod Cursor
pub mod RateLimit
