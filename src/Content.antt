-- ===== src/Content.antt =====
-- internal/cms/content: permissions and constraints declared on the schema, and the cursor of a list.
pub mod Permission
pub mod Constraints
pub mod Cursor
pub mod Json
pub mod Field
pub mod RichText
pub mod Payload
pub mod Schema
