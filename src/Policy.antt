-- ===== src/Policy.antt =====
-- internal/policy/resolve.go: policy requests and their intersection.
pub mod Names
pub mod Glob
pub mod Paths
pub mod Request
pub mod Resolve
