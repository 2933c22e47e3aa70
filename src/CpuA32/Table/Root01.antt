-- ===== src/CpuA32/Table/Root01.antt =====
-- CpuA32/opcode_tab.py, the instructions under `root01` and `root10`.
use Prim.Native.String.{String, ◌++◌ as concat}
use cwerg.Prelude.{ℕ, false, List, [], ◌∷◌, ◌++◌, flat_map}
use cwerg.CpuA32.Fields.{
  OperandKind, reg_0_3, reg_8_11, reg_12_15, reg_16_19, reg_link, shift_mode_5_6_addr,
  shift_mode_rot, reglist_0_15, addr_base_with_offset, addr_multi, imm_0_11, imm_7_11, imm_10_11,
  simm_0_23,
}
use cwerg.CpuA32.Pack.{NatPattern}
use cwerg.CpuA32.Opcode.{
  div, load, store, signextend, jump, link, prefetch, multiple, bytereorder, misc, na, w1, w4,
  unchanged, init,
}
use cwerg.CpuA32.Table.Rows.{Row, root01, root10, opcode, opcode_mem}

unfoldable pub divides : List Row
unfolding opcode
divides =
    opcode "sdiv" "" (root01 ∷ (0x3f, 0x31, 20) ∷ (0xf, 0xf, 12) ∷ (0xf, 1, 4) ∷ [])
      (reg_16_19 ∷ reg_0_3 ∷ reg_8_11 ∷ []) (div ∷ [])
    ∷ opcode "udiv" "" (root01 ∷ (0x3f, 0x33, 20) ∷ (0xf, 0xf, 12) ∷ (0xf, 1, 4) ∷ [])
        (reg_16_19 ∷ reg_0_3 ∷ reg_8_11 ∷ []) (div ∷ [])
    ∷ []

-- `uxt` has (0xf, 0xf, 16) where `uxta` has the operand `reg_16_19`.
extend_forms : String × ℕ → List Row
unfolding opcode
extend_forms (ext, n) =
    let bits : List NatPattern = root01 ∷ (0x3f, 0x7, 4) ∷ (0x3, n, 20) ∷ [] in
    opcode (concat "uxt" ext) "" (bits ++ (0xf, 0xb, 22) ∷ (0xf, 0xf, 16) ∷ [])
      (reg_12_15 ∷ shift_mode_rot ∷ reg_0_3 ∷ imm_10_11 ∷ []) (signextend ∷ [])
    ∷ opcode (concat "sxt" ext) "" (bits ++ (0xf, 0xa, 22) ∷ (0xf, 0xf, 16) ∷ [])
        (reg_12_15 ∷ shift_mode_rot ∷ reg_0_3 ∷ imm_10_11 ∷ []) (signextend ∷ [])
    ∷ opcode (concat "uxta" ext) "" (bits ++ (0xf, 0xb, 22) ∷ [])
        (reg_12_15 ∷ reg_16_19 ∷ shift_mode_rot ∷ reg_0_3 ∷ imm_10_11 ∷ []) (signextend ∷ [])
    ∷ opcode (concat "sxta" ext) "" (bits ++ (0xf, 0xa, 22) ∷ [])
        (reg_12_15 ∷ reg_16_19 ∷ shift_mode_rot ∷ reg_0_3 ∷ imm_10_11 ∷ []) (signextend ∷ [])
    ∷ []

unfoldable pub extends : List Row
unfolding extend_forms opcode flat_map
extends =
    flat_map extend_forms (("b", 2) ∷ ("b16", 0) ∷ ("h", 3) ∷ [])
    ++ flat_map
        (λ (ext, n).
          opcode (concat "rev" ext) ""
            (root01 ∷ (0x3ff, 0x2bf, 16) ∷ (0xf, 0xf, 8) ∷ (0xf, n, 4) ∷ [])
            (reg_12_15 ∷ reg_0_3 ∷ []) (bytereorder ∷ [])
          ∷ [])
        (("", 3) ∷ ("16", 11) ∷ [])

-- Prefetch must precede `ldrb`, which it is similar to.
transfer_variant : String × List NatPattern × List OperandKind → List Row
unfolding opcode_mem flat_map
transfer_variant (variant, bits, addr_mode) =
    init "ldp" variant
      (bits ++ root01 ∷ (1, 1, 22) ∷ (1, 1, 20) ∷ (0xf, 0xf, 12) ∷ (0xf, 0xf, 28) ∷ []) addr_mode
      (prefetch ∷ []) false na unchanged
    ∷ flat_map
        (λ (ext, width, n).
          opcode_mem (concat "ldr" ext) variant (bits ++ root01 ∷ (1, n, 22) ∷ (1, 1, 20) ∷ [])
            (reg_12_15 ∷ addr_mode) (load ∷ []) width
          ∷ opcode_mem (concat "str" ext) variant (bits ++ root01 ∷ (1, n, 22) ∷ (1, 0, 20) ∷ [])
              (addr_mode ++ reg_12_15 ∷ []) (store ∷ []) width
          ∷ [])
        (("", w4, 0) ∷ ("b", w1, 1) ∷ [])

unfoldable pub word_transfers : List Row
unfolding transfer_variant opcode init flat_map
word_transfers =
    flat_map transfer_variant (
      (
        "reg",
        (1, 1, 25) ∷ (1, 0, 4) ∷ [],
        addr_base_with_offset ∷ reg_16_19 ∷ shift_mode_5_6_addr ∷ reg_0_3 ∷ imm_7_11 ∷ [],
      )
      ∷ ("imm", (1, 0, 25) ∷ [], addr_base_with_offset ∷ reg_16_19 ∷ imm_0_11 ∷ [])
      ∷ [])
    ++ opcode "ud2" "" (root01 ∷ (0x3ffffff, 0x3f000f0, 0) ∷ []) [] (misc ∷ []) ∷ []

unfoldable pub block_transfers_and_branches : List Row
unfolding opcode
block_transfers_and_branches =
    opcode "stm" "" (root10 ∷ (1, 0, 25) ∷ (1, 0, 20) ∷ (1, 0, 22) ∷ [])
      (addr_multi ∷ reg_16_19 ∷ reglist_0_15 ∷ []) (store ∷ multiple ∷ [])
    ∷ opcode "ldm" "" (root10 ∷ (1, 0, 25) ∷ (1, 1, 20) ∷ (1, 0, 22) ∷ [])
        (reglist_0_15 ∷ addr_multi ∷ reg_16_19 ∷ []) (load ∷ multiple ∷ [])
    ∷ opcode "b" "" (root10 ∷ (1, 1, 25) ∷ (1, 0, 24) ∷ []) (simm_0_23 ∷ []) (jump ∷ [])
    ∷ opcode "bl" "" (root10 ∷ (1, 1, 25) ∷ (1, 1, 24) ∷ []) (reg_link ∷ simm_0_23 ∷ [])
        (jump ∷ link ∷ [])
    ∷ []
