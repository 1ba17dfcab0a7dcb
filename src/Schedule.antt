-- ===== src/Schedule.antt =====
-- internal/cms/content: scheduled publication of entries.
pub mod Table
pub mod Steps
pub mod Claims
