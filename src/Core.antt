-- ===== src/Core.antt =====
-- crates/themql-core/src/lib.rs: the canonical types, the subject grammar and pattern matching.
pub mod Subject
pub mod Pattern
pub mod Identity
pub mod Time
pub mod FieldPath
pub mod ErrorCode
pub mod Error
pub mod Context
pub mod Query
pub mod Message
mod Tests
