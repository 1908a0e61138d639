-- ===== src/Config.antt =====
-- internal/config: the deployment configuration and the repository's own configuration.
pub mod Yaml
pub mod Checks
pub mod Load
pub mod Repository
pub mod Valid
pub mod Commands
