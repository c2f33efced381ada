-- ===== src/TestPlugin.antt =====
-- crates/test-plugin/src/main.rs: the plugin of the integration tests.
pub mod Sieve
pub mod Echo
pub mod Main
