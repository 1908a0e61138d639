-- ===== src/Control.antt =====
-- internal/control: the task service, its failures and its boundary to a store.
pub mod Failure
pub mod Store
pub mod Submit
pub mod Draft
pub mod Show
pub mod Reasons
