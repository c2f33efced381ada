-- ===== src/Wasi.antt =====
-- crates/wasmi-plugin-hdk/src/wasi/wasi_ctx.rs: the WASI system calls that the host offers a guest.
-- `Context` is the state, `Caller` what a call works on, and each other child is a group of calls.
pub mod Guest
pub mod Context
pub mod Caller
pub mod Args
pub mod FdRead
pub mod FdWrite
pub mod Fd
pub mod System
pub mod Poll
pub mod Run
pub mod Imports
