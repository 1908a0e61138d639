-- ===== src/Sqlite.antt =====
-- internal/store/sqlite: the store of tasks in a SQLite database.
pub mod Engine
pub mod Draft
pub mod Create
pub mod Read
pub mod Effect
pub mod Outcome
pub mod Laws
pub mod Boundary
pub mod Schema
pub mod Migration
pub mod Complete
pub mod Open
pub mod Opened
