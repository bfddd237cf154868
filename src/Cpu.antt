-- ===== src/Cpu.antt =====
-- The CPU.
pub mod RegFile
pub mod State
pub mod Flags
pub mod Alu
pub mod Add
pub mod Sub
pub mod Arithmetic
pub mod Logic
pub mod Inc
pub mod Rotate
pub mod RotateAddr
pub mod BitOps
pub mod Load
pub mod Jump
pub mod Control
pub mod Instr
pub mod Debug
pub mod Decode
pub mod Execute
pub mod Ram
