-- ===== src/Domain.antt =====
-- internal/domain: identifiers, the manual input envelope, snapshots and the task records.
pub mod Id
pub mod Utf8
pub mod Input
pub mod Time
pub mod Json
pub mod Snapshot
pub mod Task
