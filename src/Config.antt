-- ===== src/Config.antt =====
-- src/config.rs: the configuration from the environment.
pub mod Env
pub mod Load
mod Examples
