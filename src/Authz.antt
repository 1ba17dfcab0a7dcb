-- ===== src/Authz.antt =====
-- internal/pkg/authz: the authorization decision point.
pub mod Action
pub mod AgentGate
pub mod Rbac
