-- ===== src/CpuA64.antt =====
-- CpuA64/opcode_tab.py: how A64 instructions are put into 32-bit words and read back.
pub mod Fields
pub mod Opcode
pub mod Table
pub mod Operands
pub mod TableLoads
pub mod Find
pub mod Separate
pub mod Unchecked
mod Examples
