-- ===== src/Config.antt =====
-- config/: the configuration that Load reads from the environment.
pub mod Types
pub mod Env
pub mod Hosts
pub mod Load
pub mod Errors
