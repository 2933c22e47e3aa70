-- ===== src/CodeGenA32.antt =====
-- The CodeGenA32 directory: the code generator for A32.
pub mod Regs
mod Examples
