-- ===== src/Lib.antt =====
-- Cwerg is a compiler back end: programs in an intermediate language (Base) are checked, optimized
-- and lowered, and then encoded for a machine (CpuA32, CpuA64). This library models parts of its Python
-- implementation on which the others rely.
--
-- Parts and files
--   Util/parse.py: Util.Escape has `EscapedStringToBytes` (`escaped_string_to_bytes`),
--     `QuotedEscapedStringToBytes` and `BytesToEscapedString`. A text is a list of code points.
--     Util.EscapeRoundTrip and EscapeEnds hold the proofs.
--   CpuA32/opcode_tab.py: CpuA32.Ints has the bit helpers, CpuA32.Fields the operand kinds with
--     `EncodeOperand` and `DecodeOperand`, CpuA32.Opcode the class `Opcode` with the assertions of its
--     constructor, `FindOpcode`, `Assemble` and `Disassemble`. CpuA32.Table and the files below it are
--     the registrations of all instructions in the order of the source; `loaded` runs them, so that the
--     assertions made while loading are checked by computation. CpuA32.Pack, Ranges, Operands,
--     Assemble, TableLoads, Find and Unchecked hold the proofs, from single bit ranges up to whole
--     instructions.
--     Arm.Names has what both instruction tables do with names, Arm.Codec the loops over the operands of
--     an instruction and an interface for the operand kinds of a machine, Arm.Words what holds of words
--     behind that interface.
--   CpuA64/opcode_tab.py: CpuA64.Fields has the operand kinds, CpuA64.Opcode the class `Opcode`, whose
--     constructor enters an opcode into one of 256 lists for each upper byte that its words can have,
--     `FindOpcode` and `Assemble`; `Disassemble` is left out, since `Ins(opcode, operands)` raises there,
--     the class having no constructor with arguments. CpuA64.Table and the files below it are the
--     registrations. The bit helpers and the enums `BRK`, `MEM_WIDTH` and `SR_UPDATE`, which have the same text as in CpuA32/opcode_tab.py,
--     are taken from CpuA32. CpuA64.Operands, TableLoads, Find, Separate and Unchecked hold the proofs.
--   Base/opcode_tab.py: Base.Kinds has the enums and `CheckTypeConstraint`, Base.Opcode the class
--     `Opcode` with its assertions, Base.Table all opcodes and directives. Base.Loaded and
--     Base.Constraints are about the tables and the type constraints.
--   Base/ir.py, Base/liveness.py, Base/cfg.py: Base.Ir has registers, instructions and blocks,
--     Base.Liveness the removal of useless instructions and the sets of used and defined registers.
--     Base.SplitBbl the cutting of blocks at control flow. Base.Meaning says what an instruction may do,
--     with what it computes as a parameter: it reads its operands, a call also the callee's parameters
--     and `ret` the function's results where these stand in CPU registers, and it changes the machine
--     beyond registers if it is a store, a call or a transfer by its kind, whatever its attributes say.
--     The passes rely on the attributes and take no account of these CPU registers; Base.Plain has the
--     tests for instructions that need neither, and Base.Effects goes through the table for them.
--     Base.Sets, Removal and DefUse hold the proofs.
--     Base.Fixpoint has the loop `_FunLivenessFixpoint` on numbered blocks with their predecessors,
--     Base.Function `FunComputeLivenessInfo` and `FunRemoveUselessInstructions`, and what it is to run
--     a function block by block (`run_fun`); the proofs are in the files below them, the counting of
--     finite sets in Base.Finite. Base.Const has the integer constants of Base/ir.py and
--     `ConvertIntValue` of Base/reaching_defs.py; Base.Const.Ranges says which values a kind can hold.
--   Base/lowering.py: Base.Lowering has `_InsStrengthReduction`. Base.Lowering.Values says what the
--     instructions compute, modulo a power of two, with division and shifts to the right as a parameter
--     of three laws; Base.Lowering.Reduction and Soundness hold the proofs.
--   Base/reg_alloc.py, CodeGenA32/regs.py: Base.RegAlloc has `LiveRange` and `PreAllocation`, whose
--     `has_conflict` moves an index over the ranges; Base.RegAlloc.Conflicts compares its answers with
--     overlap. CodeGenA32.Regs has the masks of CPU registers and `RegPoolArm`, where the registers of
--     a class are tried in order; CodeGenA32.Regs.Search, Pairs, Pool and GiveBack hold the proofs.
--
-- Conventions
--   A failed assertion or an exception is `none`. Python's integers are Prelude.Int.ℤ with the bit
--   operations of two's complement, natural numbers where the source has no negative ones. The
--   registers of a function are told apart by name in the source, by number here; a set of registers
--   is a list of these numbers.
--
-- Bounds and fuel
--   `unescape_loop` runs for as many rounds as the text has characters, each of which it consumes at
--   most once; `encode_rotate_loop` runs for the 16 rotations of the source. `fixpoint_loop` takes
--   a block from the active ones in each round; a block becomes active again only when the
--   registers live out of it have grown, so that `rounds_for` many rounds are enough. `bit_length`
--   and `log_loop` run for as many rounds as the number says, which is below that power of two. `find_single`
--   and `find_double` run for the 16 or 32 registers of the class, `some_dont_care` for the 256
--   values of a byte. All other loops are structural.
--
-- Not modelled
--   Input, output, command lines and emission of C code; instruction selection, the ELF writer
--   and the C front end; the C++ implementation. In Base, reaching definitions, how
--   live ranges are found, the other passes of lowering.py, and the linear scan itself.
pub mod Prelude
pub mod Util
pub mod Arm
pub mod CpuA32
pub mod CpuA64
pub mod CodeGenA32
pub mod Base
