-- ===== src/Entry.antt =====
-- internal/cms/content: entries, their publication and the scheduler that carries it out.
pub mod Store
pub mod Repository
pub mod Publish
pub mod Scheduler
