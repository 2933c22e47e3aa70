-- ===== src/CpuA64/Table/Root111Memory.antt =====
-- CpuA64/opcode_tab.py, the loads and stores under `root111`; a loop of the source is a `flat_map`.
use Prim.Native.String.{String, ◌++◌ as concat}
use cwerg.Prelude.{List, [], ◌∷◌, flat_map}
use cwerg.CpuA32.Pack.{NatPattern}
use cwerg.CpuA64.Fields.{
  OperandKind, wreg_16_20, xreg_5_9, xreg_16_20, sreg_0_4, dreg_0_4, breg_0_4, hreg_0_4, qreg_0_4,
  imm_10_21, imm_12_20, simm_12_20, shift_12_14_15_w, shift_12_14_15_x,
}
use cwerg.CpuA64.Opcode.{load, store}
use cwerg.CpuA64.Table.Rows.{Row, root111, opcode}

float_load_forms : String × OperandKind × List NatPattern → List Row
unfolding opcode
float_load_forms (ext, reg, bits) =
    opcode "fldr" (concat ext "_imm_post")
      (root111 ∷ (1, 1, 29) ∷ (3, 0, 24) ∷ (1, 0, 21) ∷ (3, 1, 10) ∷ bits)
      (reg ∷ xreg_5_9 ∷ simm_12_20 ∷ []) (load ∷ [])
    ∷ opcode "fldr" (concat ext "_imm_pre")
        (root111 ∷ (1, 1, 29) ∷ (3, 0, 24) ∷ (1, 0, 21) ∷ (3, 3, 10) ∷ bits)
        (reg ∷ xreg_5_9 ∷ simm_12_20 ∷ []) (load ∷ [])
    ∷ opcode "fldr" (concat ext "_imm") (root111 ∷ (1, 1, 29) ∷ (3, 1, 24) ∷ bits)
        (reg ∷ xreg_5_9 ∷ imm_10_21 ∷ []) []
    ∷ opcode "fldr" (concat ext "_reg_w")
        (root111 ∷ (1, 1, 29) ∷ (3, 0, 24) ∷ (1, 0, 13) ∷ (1, 1, 21) ∷ (3, 2, 10) ∷ bits)
        (reg ∷ xreg_5_9 ∷ shift_12_14_15_w ∷ wreg_16_20 ∷ []) (load ∷ [])
    ∷ opcode "fldr" (concat ext "_reg_x")
        (root111 ∷ (1, 1, 29) ∷ (3, 0, 24) ∷ (1, 1, 13) ∷ (1, 1, 21) ∷ (3, 2, 10) ∷ bits)
        (reg ∷ xreg_5_9 ∷ shift_12_14_15_x ∷ xreg_16_20 ∷ []) (load ∷ [])
    ∷ opcode "fldur" (concat ext "_imm")
        (root111 ∷ (1, 1, 29) ∷ (3, 0, 24) ∷ (1, 0, 21) ∷ (3, 0, 10) ∷ bits)
        (reg ∷ xreg_5_9 ∷ imm_12_20 ∷ []) (load ∷ [])
    ∷ []

unfoldable pub float_loads : List Row
unfolding float_load_forms flat_map
float_loads = flat_map float_load_forms (
    ("b", breg_0_4, (3, 0, 30) ∷ (3, 1, 22) ∷ [])
    ∷ ("h", hreg_0_4, (3, 1, 30) ∷ (3, 1, 22) ∷ [])
    ∷ ("s", sreg_0_4, (3, 2, 30) ∷ (3, 1, 22) ∷ [])
    ∷ ("d", dreg_0_4, (3, 3, 30) ∷ (3, 1, 22) ∷ [])
    ∷ ("q", qreg_0_4, (3, 0, 30) ∷ (3, 3, 22) ∷ [])
    ∷ [])

float_store_forms : String × OperandKind × List NatPattern → List Row
unfolding opcode
float_store_forms (ext, reg, bits) =
    opcode "fstr" (concat ext "_imm_post")
      (root111 ∷ (1, 1, 29) ∷ (3, 0, 24) ∷ (1, 0, 21) ∷ (3, 1, 10) ∷ bits)
      (xreg_5_9 ∷ simm_12_20 ∷ reg ∷ []) (store ∷ [])
    ∷ opcode "fstr" (concat ext "_imm_pre")
        (root111 ∷ (1, 1, 29) ∷ (3, 0, 24) ∷ (1, 0, 21) ∷ (3, 3, 10) ∷ bits)
        (xreg_5_9 ∷ simm_12_20 ∷ reg ∷ []) (store ∷ [])
    ∷ opcode "fstr" (concat ext "_imm") (root111 ∷ (1, 1, 29) ∷ (3, 1, 24) ∷ bits)
        (xreg_5_9 ∷ imm_10_21 ∷ reg ∷ []) (store ∷ [])
    ∷ opcode "fstr" (concat ext "_reg_w")
        (root111 ∷ (1, 1, 29) ∷ (3, 0, 24) ∷ (1, 0, 13) ∷ (1, 1, 21) ∷ (3, 2, 10) ∷ bits)
        (xreg_5_9 ∷ shift_12_14_15_w ∷ wreg_16_20 ∷ reg ∷ []) (store ∷ [])
    ∷ opcode "fstr" (concat ext "_reg_x")
        (root111 ∷ (1, 1, 29) ∷ (3, 0, 24) ∷ (1, 1, 13) ∷ (1, 1, 21) ∷ (3, 2, 10) ∷ bits)
        (xreg_5_9 ∷ shift_12_14_15_x ∷ xreg_16_20 ∷ reg ∷ []) (store ∷ [])
    ∷ opcode "fstur" (concat ext "_imm")
        ((1, 1, 29) ∷ root111 ∷ (3, 0, 24) ∷ (1, 0, 21) ∷ (3, 0, 10) ∷ bits)
        (xreg_5_9 ∷ imm_12_20 ∷ reg ∷ []) (store ∷ [])
    ∷ []

unfoldable pub float_stores : List Row
unfolding float_store_forms flat_map
float_stores = flat_map float_store_forms (
    ("b", breg_0_4, (3, 0, 30) ∷ (3, 0, 22) ∷ [])
    ∷ ("h", hreg_0_4, (3, 1, 30) ∷ (3, 0, 22) ∷ [])
    ∷ ("s", sreg_0_4, (3, 2, 30) ∷ (3, 0, 22) ∷ [])
    ∷ ("d", dreg_0_4, (3, 3, 30) ∷ (3, 0, 22) ∷ [])
    ∷ ("q", qreg_0_4, (3, 0, 30) ∷ (3, 2, 22) ∷ [])
    ∷ [])
