-- ===== src/Outbox.antt =====
-- internal/pkg/outbox: the transactional outbox, its table and its worker.
pub mod Table
pub mod Worker
