-- ===== src/Rpc.antt =====
-- crates/wasmi-plugin-pdk/src: JSON-RPC over lines, by both sides of a plugin.
pub mod Message
pub mod Pending
pub mod Transport
pub mod Lines
pub mod Server
pub mod PluginServer
pub mod OverPipes
mod Tests
