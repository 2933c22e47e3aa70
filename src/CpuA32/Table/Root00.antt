-- ===== src/CpuA32/Table/Root00.antt =====
-- CpuA32/opcode_tab.py, the instructions under `root00`; a loop of the source is a `flat_map`.
use Prim.Native.String.{String, ◌++◌ as concat}
use cwerg.Prelude.{ℕ, List, [], ◌∷◌, ◌++◌, flat_map}
use cwerg.CpuA32.Fields.{
  OperandKind, reg_0_3, reg_8_11, reg_12_15, reg_16_19, reg_pair_12_15, shift_mode_5_6,
  addr_base_only, addr_base_with_offset, imm_0_3_8_11, imm_7_11, imm_0_7_8_11, imm_0_11_16_19,
}
use cwerg.CpuA32.Pack.{NatPattern}
use cwerg.CpuA32.Opcode.{
  result_64bit, src_dst_0_1, dst_0_1, mul, mulacc, load, store, atomic, alu, alu1, jump, link,
  thumb, test, w1, w2, w4, w8, SrUpdate, unchanged, nz, ncz_psr, ncz,
}
use cwerg.CpuA32.Table.Rows.{Row, root00, opcode, opcode_sr, opcode_mem}

multiply_forms : String × SrUpdate × NatPattern → List Row
unfolding opcode_sr
multiply_forms (ext, sr, s_bit) =
    opcode_sr (concat "mul" ext) ""
      (root00 ∷ s_bit ∷ (0xf, 0x0, 21) ∷ (1, 0, 25) ∷ (0xf, 0x0, 12) ∷ (0xf, 0x9, 4) ∷ [])
      (reg_16_19 ∷ reg_0_3 ∷ reg_8_11 ∷ []) (mul ∷ []) sr
    ∷ opcode_sr (concat "mla" ext) ""
        (root00 ∷ s_bit ∷ (0xf, 0x1, 21) ∷ (1, 0, 25) ∷ (0xf, 0x9, 4) ∷ [])
        (reg_16_19 ∷ reg_0_3 ∷ reg_8_11 ∷ reg_12_15 ∷ []) (mulacc ∷ []) sr
    ∷ opcode_sr (concat "umull" ext) ""
        (root00 ∷ s_bit ∷ (0xf, 0x4, 21) ∷ (1, 0, 25) ∷ (0xf, 0x9, 4) ∷ [])
        (reg_12_15 ∷ reg_16_19 ∷ reg_0_3 ∷ reg_8_11 ∷ []) (dst_0_1 ∷ mul ∷ []) sr
    ∷ opcode_sr (concat "umlal" ext) ""
        (root00 ∷ s_bit ∷ (0xf, 0x5, 21) ∷ (1, 0, 25) ∷ (0xf, 0x9, 4) ∷ [])
        (reg_16_19 ∷ reg_12_15 ∷ reg_0_3 ∷ reg_8_11 ∷ []) (dst_0_1 ∷ mulacc ∷ []) sr
    ∷ opcode_sr (concat "smull" ext) ""
        (root00 ∷ s_bit ∷ (0xf, 0x6, 21) ∷ (1, 0, 25) ∷ (0xf, 0x9, 4) ∷ [])
        (reg_12_15 ∷ reg_16_19 ∷ reg_0_3 ∷ reg_8_11 ∷ []) (result_64bit ∷ src_dst_0_1 ∷ mul ∷ []) sr
    ∷ opcode_sr (concat "smlal" ext) ""
        (root00 ∷ s_bit ∷ (0xf, 0x7, 21) ∷ (1, 0, 25) ∷ (0xf, 0x9, 4) ∷ [])
        (reg_12_15 ∷ reg_16_19 ∷ reg_0_3 ∷ reg_8_11 ∷ []) (dst_0_1 ∷ mulacc ∷ []) sr
    ∷ []

halfword_multiplies : String × ℕ → List Row
unfolding opcode
halfword_multiplies (ext, n) =
    opcode (concat "smla" ext) "" (root00 ∷ (0x3f, 0x10, 20) ∷ (0xf, n, 4) ∷ [])
      (reg_16_19 ∷ reg_0_3 ∷ reg_8_11 ∷ reg_12_15 ∷ []) (mulacc ∷ [])
    ∷ opcode (concat "smul" ext) "" (root00 ∷ (0x3f, 0x16, 20) ∷ (0xf, 0, 12) ∷ (0xf, n, 4) ∷ [])
        (reg_16_19 ∷ reg_0_3 ∷ reg_8_11 ∷ []) (mul ∷ [])
    ∷ []

unfoldable pub multiplies : List Row
unfolding multiply_forms halfword_multiplies opcode flat_map
multiplies =
    flat_map multiply_forms (("", unchanged, (1, 0, 20)) ∷ ("s", nz, (1, 1, 20)) ∷ [])
    ++ opcode "mls" "" (root00 ∷ (0xf, 0x3, 21) ∷ (1, 0, 20) ∷ (1, 0, 25) ∷ (0xf, 0x9, 4) ∷ [])
        (reg_16_19 ∷ reg_0_3 ∷ reg_8_11 ∷ reg_12_15 ∷ []) (mulacc ∷ [])
      ∷ flat_map halfword_multiplies (("bb", 8) ∷ ("tb", 10) ∷ ("bt", 12) ∷ ("tt", 14) ∷ [])

unfoldable pub exclusives : List Row
unfolding opcode_mem
exclusives =
    opcode_mem "strex" "" (root00 ∷ (0x3f, 0x18, 20) ∷ (0xf, 0xf, 8) ∷ (0xf, 0x9, 4) ∷ [])
      (reg_12_15 ∷ reg_0_3 ∷ addr_base_only ∷ reg_16_19 ∷ []) (atomic ∷ store ∷ []) w4
    ∷ opcode_mem "ldrex" ""
        (root00 ∷ (0x3f, 0x19, 20) ∷ (0xf, 0xf, 8) ∷ (0xf, 0x9, 4) ∷ (0xf, 0xf, 0) ∷ [])
        (reg_12_15 ∷ addr_base_only ∷ reg_16_19 ∷ []) (atomic ∷ load ∷ []) w4
    ∷ []

halfword_variant : String × List NatPattern × List OperandKind → List Row
unfolding opcode_mem flat_map
halfword_variant (variant, bits, addr_mode) =
    flat_map
      (λ (ext, width, n).
        opcode_mem (concat "ldr" ext) variant
          (bits ++ root00 ∷ (1, 0, 25) ∷ (1, 1, 20) ∷ (0xf, n, 4) ∷ []) (reg_12_15 ∷ addr_mode)
          (load ∷ []) width
        ∷ [])
      (("h", w2, 0xb) ∷ ("sb", w1, 0xd) ∷ ("sh", w2, 0xf) ∷ [])
    ++ opcode_mem "strh" variant (bits ++ root00 ∷ (1, 0, 25) ∷ (1, 0, 20) ∷ (0xf, 0xb, 4) ∷ [])
        (addr_mode ++ reg_12_15 ∷ []) (store ∷ []) w2
      ∷ opcode_mem "ldrd" variant (bits ++ root00 ∷ (1, 0, 25) ∷ (1, 0, 20) ∷ (0xf, 0xd, 4) ∷ [])
          (reg_pair_12_15 ∷ addr_mode) (load ∷ []) w8
      ∷ opcode_mem "strd" variant (bits ++ root00 ∷ (1, 0, 25) ∷ (1, 0, 20) ∷ (0xf, 0xf, 4) ∷ [])
          (addr_mode ++ reg_pair_12_15 ∷ []) (store ∷ []) w8
      ∷ []

unfoldable pub halfword_transfers : List Row
unfolding halfword_variant
halfword_transfers = flat_map halfword_variant (
    ("imm", (1, 1, 22) ∷ [], addr_base_with_offset ∷ reg_16_19 ∷ imm_0_3_8_11 ∷ [])
    ∷ ("reg", (1, 0, 22) ∷ (0xf, 0, 8) ∷ [], addr_base_with_offset ∷ reg_16_19 ∷ reg_0_3 ∷ [])
    ∷ [])

-- the forms without and with the bit that updates the flags
abbrev s_forms : List (String × SrUpdate × NatPattern)
s_forms = ("", unchanged, (1, 0, 20)) ∷ ("s", ncz_psr, (1, 1, 20)) ∷ []

alu_forms : String × ℕ → List Row
unfolding opcode_sr flat_map
alu_forms (name, n) =
    flat_map
      (λ (ext, sr, s_bit).
        opcode_sr (concat name ext) "regreg"
          (root00 ∷ s_bit ∷ (0xf, n, 21) ∷ (1, 0, 25) ∷ (1, 0, 7) ∷ (1, 1, 4) ∷ [])
          (reg_12_15 ∷ reg_16_19 ∷ shift_mode_5_6 ∷ reg_0_3 ∷ reg_8_11 ∷ []) (alu ∷ []) sr
        ∷ opcode_sr (concat name ext) "regimm"
            (root00 ∷ s_bit ∷ (0xf, n, 21) ∷ (1, 0, 25) ∷ (1, 0, 4) ∷ [])
            (reg_12_15 ∷ reg_16_19 ∷ shift_mode_5_6 ∷ reg_0_3 ∷ imm_7_11 ∷ []) (alu ∷ []) sr
        ∷ opcode_sr (concat name ext) "imm" (root00 ∷ s_bit ∷ (0xf, n, 21) ∷ (1, 1, 25) ∷ [])
            (reg_12_15 ∷ reg_16_19 ∷ imm_0_7_8_11 ∷ []) (alu ∷ []) sr
        ∷ [])
      s_forms

unfoldable pub alu_opcodes : List Row
unfolding alu_forms
alu_opcodes = flat_map alu_forms (
    ("and", 0)
    ∷ ("eor", 1)
    ∷ ("sub", 2)
    ∷ ("rsb", 3)
    ∷ ("add", 4)
    ∷ ("adc", 5)
    ∷ ("sbc", 6)
    ∷ ("rsc", 7)
    ∷ ("orr", 12)
    ∷ ("bic", 14)
    ∷ [])

unfoldable pub swaps_and_branches : List Row
unfolding opcode opcode_mem flat_map
swaps_and_branches =
    flat_map
      (λ (ext, width, n).
        opcode_mem (concat "swp" ext) ""
          (root00 ∷ (0xf, n, 21) ∷ (1, 0, 25) ∷ (1, 0, 20) ∷ (0xf, 0x0, 8) ∷ (0xf, 0x9, 4) ∷ [])
          (reg_12_15 ∷ reg_0_3 ∷ addr_base_only ∷ reg_16_19 ∷ []) (atomic ∷ []) width
        ∷ [])
      (("", w4, 8) ∷ ("b", w1, 0xa) ∷ [])
    ++ opcode "bx" ""
        (root00 ∷ (0xf, 0x9, 21) ∷ (1, 0, 25) ∷ (1, 0, 20) ∷ (0xfff, 0xfff, 8) ∷ (0xf, 1, 4) ∷ [])
        (reg_0_3 ∷ []) (jump ∷ thumb ∷ [])
      ∷ opcode "blx" "reg"
          (root00 ∷ (0xf, 0x9, 21) ∷ (1, 0, 25) ∷ (1, 0, 20) ∷ (0xfff, 0xfff, 8) ∷ (0xf, 3, 4) ∷ [])
          (reg_0_3 ∷ []) (jump ∷ link ∷ thumb ∷ [])
      ∷ opcode "clz" ""
          (root00
            ∷ (0xf, 0xb, 21)
            ∷ (1, 0, 25)
            ∷ (1, 0, 20)
            ∷ (0xf, 0xf, 8)
            ∷ (0xf, 0xf, 16)
            ∷ (0xf, 1, 4)
            ∷ [])
          (reg_12_15 ∷ reg_0_3 ∷ []) (alu1 ∷ [])
      ∷ []

test_forms : String × ℕ → List Row
unfolding opcode_sr
test_forms (name, n) =
    opcode_sr name "regreg"
      (root00 ∷ (0xf, n, 21) ∷ (1, 1, 20) ∷ (0xf, 0, 12) ∷ (1, 0, 25) ∷ (1, 0, 7) ∷ (1, 1, 4) ∷ [])
      (reg_16_19 ∷ shift_mode_5_6 ∷ reg_0_3 ∷ reg_8_11 ∷ []) (test ∷ []) ncz
    ∷ opcode_sr name "regimm"
        (root00 ∷ (0xf, n, 21) ∷ (1, 1, 20) ∷ (0xf, 0, 12) ∷ (1, 0, 25) ∷ (1, 0, 4) ∷ [])
        (reg_16_19 ∷ shift_mode_5_6 ∷ reg_0_3 ∷ imm_7_11 ∷ []) (test ∷ []) ncz
    ∷ opcode_sr name "imm" (root00 ∷ (0xf, n, 21) ∷ (1, 1, 20) ∷ (0xf, 0, 12) ∷ (1, 1, 25) ∷ [])
        (reg_16_19 ∷ imm_0_7_8_11 ∷ []) (test ∷ []) ncz
    ∷ []

unfoldable pub test_opcodes : List Row
unfolding test_forms flat_map
test_opcodes = flat_map test_forms (("tst", 8) ∷ ("teq", 9) ∷ ("cmp", 10) ∷ ("cmn", 11) ∷ [])

move_forms : String × ℕ → List Row
unfolding opcode_sr flat_map
move_forms (name, n) =
    flat_map
      (λ (ext, sr, s_bit).
        let bits : List NatPattern = root00 ∷ s_bit ∷ (0xf, n, 21) ∷ (0xf, 0, 16) ∷ [] in
        opcode_sr (concat name ext) "regreg" (bits ++ (1, 0, 25) ∷ (1, 0, 7) ∷ (1, 1, 4) ∷ [])
          (reg_12_15 ∷ shift_mode_5_6 ∷ reg_0_3 ∷ reg_8_11 ∷ []) (alu1 ∷ []) sr
        ∷ opcode_sr (concat name ext) "regimm" (bits ++ (1, 0, 25) ∷ (1, 0, 4) ∷ [])
            (reg_12_15 ∷ shift_mode_5_6 ∷ reg_0_3 ∷ imm_7_11 ∷ []) (alu1 ∷ []) sr
        ∷ opcode_sr (concat name ext) "imm" (bits ++ (1, 1, 25) ∷ [])
            (reg_12_15 ∷ imm_0_7_8_11 ∷ []) (alu1 ∷ []) sr
        ∷ [])
      s_forms

unfoldable pub move_opcodes : List Row
unfolding move_forms opcode flat_map
move_opcodes =
    flat_map move_forms (("mov", 0xd) ∷ ("mvn", 0xf) ∷ [])
    ++ opcode "movw" "" (root00 ∷ (0x3f, 0x30, 20) ∷ []) (reg_12_15 ∷ imm_0_11_16_19 ∷ [])
        (alu1 ∷ [])
      ∷ opcode "movt" "" (root00 ∷ (0x3f, 0x34, 20) ∷ []) (reg_12_15 ∷ imm_0_11_16_19 ∷ [])
          (alu1 ∷ [])
      ∷ []
