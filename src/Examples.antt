-- ===== src/Examples.antt =====
-- Concrete PDUs, messages and buffers on which the theorems are applied.
pub mod Data
mod Frames
mod Bases
mod Messages
mod Fields
mod Windows
mod Sessions
mod Texts
mod Splits
