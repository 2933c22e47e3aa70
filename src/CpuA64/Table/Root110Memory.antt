-- ===== src/CpuA64/Table/Root110Memory.antt =====
-- CpuA64/opcode_tab.py, the loads and stores under `root110`; a loop of the source is a `flat_map`.
use Prim.Native.String.{String, ◌++◌ as concat}
use text.Mathlib.Text.{◌==◌ as str_eq}
use cwerg.Prelude.{◌||◌, List, [], ◌∷◌, ◌++◌, flat_map, if◌then◌else◌}
use cwerg.CpuA32.Pack.{NatPattern}
use cwerg.CpuA64.Fields.{
  OperandKind, wreg_0_4, wreg_16_20, xreg_0_4, xreg_5_9, xreg_16_20, imm_10_21, imm_10_21_times_2,
  imm_10_21_times_4, imm_10_21_times_8, simm_12_20, shift_12_14_15_w, shift_12_14_15_x,
}
use cwerg.CpuA64.Table.Rows.{Row, root110, opcode}

load_forms : String × OperandKind × NatPattern → List Row
unfolding opcode
load_forms (ext, scaled_offset, w_bits) =
    let dst = if str_eq ext "x" then xreg_0_4 else wreg_0_4 in
    opcode "ldr" (concat ext "_imm") (root110 ∷ w_bits ∷ (0xf, 5, 22) ∷ [])
      (dst ∷ xreg_5_9 ∷ scaled_offset ∷ []) []
    ∷ opcode "ldr" (concat ext "_imm_pre") (root110 ∷ w_bits ∷ (0x1f, 2, 21) ∷ (3, 3, 10) ∷ [])
        (dst ∷ xreg_5_9 ∷ simm_12_20 ∷ []) []
    ∷ opcode "ldr" (concat ext "_imm_post") (root110 ∷ w_bits ∷ (0x1f, 2, 21) ∷ (3, 1, 10) ∷ [])
        (dst ∷ xreg_5_9 ∷ simm_12_20 ∷ []) []
    ∷ opcode "ldur" (concat ext "_imm") (root110 ∷ w_bits ∷ (0x1f, 2, 21) ∷ (3, 0, 10) ∷ [])
        (dst ∷ xreg_5_9 ∷ simm_12_20 ∷ []) []
    ∷ opcode "ldr" (concat ext "_reg_w")
        (root110 ∷ w_bits ∷ (0x1f, 3, 21) ∷ (1, 0, 13) ∷ (3, 2, 10) ∷ [])
        (dst ∷ xreg_5_9 ∷ shift_12_14_15_w ∷ wreg_16_20 ∷ []) []
    ∷ opcode "ldr" (concat ext "_reg_x")
        (root110 ∷ w_bits ∷ (0x1f, 3, 21) ∷ (1, 1, 13) ∷ (3, 2, 10) ∷ [])
        (dst ∷ xreg_5_9 ∷ shift_12_14_15_x ∷ xreg_16_20 ∷ []) []
    ∷ []

store_forms : String × OperandKind × NatPattern → List Row
unfolding opcode
store_forms (ext, scaled_offset, w_bits) =
    let src = if str_eq ext "x" then xreg_0_4 else wreg_0_4 in
    opcode "str" (concat ext "_reg_w")
      (root110 ∷ w_bits ∷ (0x1f, 1, 21) ∷ (1, 0, 13) ∷ (3, 2, 10) ∷ [])
      (xreg_5_9 ∷ shift_12_14_15_w ∷ wreg_16_20 ∷ src ∷ []) []
    ∷ opcode "str" (concat ext "_reg_x")
        (root110 ∷ w_bits ∷ (0x1f, 1, 21) ∷ (1, 1, 13) ∷ (3, 2, 10) ∷ [])
        (xreg_5_9 ∷ shift_12_14_15_x ∷ xreg_16_20 ∷ src ∷ []) []
    ∷ opcode "str" (concat ext "_imm") (root110 ∷ w_bits ∷ (0xf, 4, 22) ∷ [])
        (xreg_5_9 ∷ scaled_offset ∷ src ∷ []) []
    ∷ opcode "str" (concat ext "_imm_pre") (root110 ∷ w_bits ∷ (0x1f, 0, 21) ∷ (3, 3, 10) ∷ [])
        (xreg_5_9 ∷ simm_12_20 ∷ src ∷ []) []
    ∷ opcode "str" (concat ext "_imm_post") (root110 ∷ w_bits ∷ (0x1f, 0, 21) ∷ (3, 1, 10) ∷ [])
        (xreg_5_9 ∷ simm_12_20 ∷ src ∷ []) []
    ∷ opcode "stur" (concat ext "_imm") (root110 ∷ w_bits ∷ (0x1f, 0, 21) ∷ (3, 0, 10) ∷ [])
        (xreg_5_9 ∷ simm_12_20 ∷ src ∷ []) []
    ∷ []

signed_load_forms : String × OperandKind × NatPattern → List Row
unfolding opcode flat_map
signed_load_forms (ext, scaled_offset, w_bits) =
    let dst = if str_eq ext "x" then xreg_0_4 else wreg_0_4 in
    (if str_eq ext "w"
      then opcode (concat "ldrs" ext) "imm" (root110 ∷ w_bits ∷ (0xf, 6, 22) ∷ [])
          (xreg_0_4 ∷ xreg_5_9 ∷ scaled_offset ∷ []) []
        ∷ opcode (concat "ldrs" ext) "imm_pre" (root110 ∷ w_bits ∷ (0x1f, 4, 21) ∷ (3, 3, 10) ∷ [])
            (xreg_0_4 ∷ xreg_5_9 ∷ simm_12_20 ∷ []) []
        ∷ opcode (concat "ldrs" ext) "imm_post" (root110 ∷ w_bits ∷ (0x1f, 4, 21) ∷ (3, 1, 10) ∷ [])
            (xreg_0_4 ∷ xreg_5_9 ∷ simm_12_20 ∷ []) []
        ∷ opcode (concat "ldurs" ext) "imm_post"
            (root110 ∷ w_bits ∷ (0x1f, 4, 21) ∷ (3, 0, 10) ∷ [])
            (xreg_0_4 ∷ xreg_5_9 ∷ simm_12_20 ∷ []) []
        ∷ opcode (concat "ldrs" ext) "reg_w"
            (root110 ∷ w_bits ∷ (0x1f, 5, 21) ∷ (1, 0, 13) ∷ (3, 2, 10) ∷ [])
            (dst ∷ xreg_5_9 ∷ shift_12_14_15_w ∷ wreg_16_20 ∷ []) []
        ∷ opcode (concat "ldrs" ext) "reg_x"
            (root110 ∷ w_bits ∷ (0x1f, 5, 21) ∷ (1, 1, 13) ∷ (3, 2, 10) ∷ [])
            (dst ∷ xreg_5_9 ∷ shift_12_14_15_x ∷ xreg_16_20 ∷ []) []
        ∷ []
      else [])
    ++ (if str_eq ext "b" || str_eq ext "h"
        then flat_map
            (λ (ext2, w2_bits, dst).
              opcode (concat "ldrs" ext) (concat ext2 "_imm")
                (root110 ∷ w_bits ∷ (7, 3, 23) ∷ w2_bits ∷ [])
                (dst ∷ xreg_5_9 ∷ imm_10_21_times_2 ∷ []) []
              ∷ opcode (concat "ldrs" ext) (concat ext2 "_imm_pre")
                  (root110 ∷ w_bits ∷ (7, 1, 23) ∷ w2_bits ∷ (1, 0, 21) ∷ (3, 3, 10) ∷ [])
                  (dst ∷ xreg_5_9 ∷ simm_12_20 ∷ []) []
              ∷ opcode (concat "ldrs" ext) (concat ext2 "_imm_post")
                  (root110 ∷ w_bits ∷ (7, 1, 23) ∷ w2_bits ∷ (1, 0, 21) ∷ (3, 1, 10) ∷ [])
                  (dst ∷ xreg_5_9 ∷ simm_12_20 ∷ []) []
              ∷ opcode (concat "ldurs" ext) (concat ext2 "_imm")
                  (root110 ∷ w_bits ∷ (7, 1, 23) ∷ w2_bits ∷ (1, 0, 21) ∷ (3, 0, 10) ∷ [])
                  (dst ∷ xreg_5_9 ∷ simm_12_20 ∷ []) []
              ∷ opcode (concat "ldrs" ext) (concat ext2 "_reg_w")
                  (root110
                    ∷ w_bits
                    ∷ (7, 1, 23)
                    ∷ w2_bits
                    ∷ (1, 1, 21)
                    ∷ (1, 0, 13)
                    ∷ (3, 2, 10)
                    ∷ [])
                  (dst ∷ xreg_5_9 ∷ shift_12_14_15_w ∷ wreg_16_20 ∷ []) []
              ∷ opcode (concat "ldrs" ext) (concat ext2 "_reg_x")
                  (root110
                    ∷ w_bits
                    ∷ (7, 1, 23)
                    ∷ w2_bits
                    ∷ (1, 1, 21)
                    ∷ (1, 1, 13)
                    ∷ (3, 2, 10)
                    ∷ [])
                  (dst ∷ xreg_5_9 ∷ shift_12_14_15_x ∷ xreg_16_20 ∷ []) []
              ∷ [])
            (("w", (1, 1, 22), wreg_0_4) ∷ ("x", (1, 0, 22), xreg_0_4) ∷ [])
        else [])

unfoldable pub transfers : List Row
unfolding load_forms store_forms signed_load_forms flat_map
transfers =
    flat_map (λ form. load_forms form ++ store_forms form ++ signed_load_forms form)
      (("x", imm_10_21_times_8, (7, 7, 29))
        ∷ ("w", imm_10_21_times_4, (7, 5, 29))
        ∷ ("h", imm_10_21_times_2, (7, 3, 29))
        ∷ ("b", imm_10_21, (7, 1, 29))
        ∷ [])
