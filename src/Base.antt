-- ===== src/Base.antt =====
-- The Base directory: the intermediate language and the passes on it.
pub mod Kinds
pub mod Opcode
pub mod Table
pub mod Loaded
pub mod Ir
pub mod Liveness
pub mod Sets
pub mod Meaning
pub mod Plain
pub mod Effects
pub mod Removal
mod Examples
mod FlowExamples
pub mod Constraints
pub mod DefUse
pub mod SplitBbl
pub mod Finite
pub mod Fixpoint
pub mod Function
pub mod Const
pub mod Lowering
mod LoweringExamples
pub mod RegAlloc
mod RegAllocExamples
