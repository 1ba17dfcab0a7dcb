-- ===== src/Tenant.antt =====
-- internal/tenant: membership roles, the tables, the repository's transactions and the service.
pub mod Roles
pub mod Tables
pub mod Db
pub mod Owners
pub mod Repository
pub mod Service
