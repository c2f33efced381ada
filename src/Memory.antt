-- ===== src/Memory.antt =====
-- The guest's linear memory, `wasmi::Memory`: the interface, and a memory that meets it.
mod Interface
pub mod Linear
pub mod Words
pub mod Slices
pub use Interface.{GuestMemory}
