-- ===== src/CpuA32.antt =====
-- CpuA32/opcode_tab.py: how A32 instructions are put into 32-bit words and read back.
pub mod Ints
pub mod Fields
pub mod Pack
pub mod Rotate
pub mod Signed
pub mod Ranges
pub mod Operands
pub mod Opcode
pub mod Table
pub mod TableLoads
pub mod Find
pub mod Assemble
mod Examples
pub mod Unchecked
