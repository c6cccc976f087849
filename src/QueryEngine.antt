-- ===== src/QueryEngine.antt =====
-- crates/themql-query/src/lib.rs: cache keys, the query errors and the query executor.
pub mod Key
pub mod Executor
mod Tests
