-- ===== src/Arm.antt =====
-- What the instruction tables of CpuA32/opcode_tab.py and CpuA64/opcode_tab.py have in common.
pub mod Names
pub mod Codec
pub mod Words
