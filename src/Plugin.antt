-- ===== src/Plugin.antt =====
-- crates/wasmi-plugin-hdk/src/plugin.rs
pub mod Stderr
pub mod Host
pub mod Join
pub mod Spawn
pub mod Call
pub mod Running
