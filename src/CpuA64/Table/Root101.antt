-- ===== src/CpuA64/Table/Root101.antt =====
-- CpuA64/opcode_tab.py, the instructions under `root101`; a loop of the source is a `flat_map`.
use Prim.Native.String.{◌++◌ as concat}
use cwerg.Prelude.{List, [], ◌∷◌, ◌++◌, flat_map}
use cwerg.CpuA64.Fields.{
  xreg_0_4, xreg_5_9, imm_19_23_31, imm_5_20, simm_0_25, simm_5_23, simm_5_18,
}
use cwerg.CpuA64.Opcode.{domain_param}
use cwerg.CpuA64.Table.Rows.{Row, root101, conditions, opcode}

unfoldable pub branches : List Row
unfolding opcode
branches =
    opcode "b" "" (root101 ∷ (7, 0, 29) ∷ []) (simm_0_25 ∷ []) []
    ∷ opcode "bl" "" (root101 ∷ (7, 4, 29) ∷ []) (simm_0_25 ∷ []) []
    ∷ opcode "ret" "" (root101 ∷ (7, 6, 29) ∷ (0xffff, 0x97c0, 10) ∷ (0x1f, 0, 0) ∷ [])
        (xreg_5_9 ∷ []) []
    ∷ opcode "br" "" (root101 ∷ (7, 6, 29) ∷ (0xffff, 0x87c0, 10) ∷ (0x1f, 0, 0) ∷ [])
        (xreg_5_9 ∷ []) []
    ∷ opcode "blr" "" (root101 ∷ (7, 6, 29) ∷ (0xffff, 0x8fc0, 10) ∷ (0x1f, 0, 0) ∷ [])
        (xreg_5_9 ∷ []) []
    ∷ []

unfoldable pub conditional_branches : List Row
unfolding opcode flat_map
conditional_branches =
    flat_map
      (λ (cond_val, cond_name).
        opcode (concat "b." cond_name) ""
          (root101 ∷ (7, 2, 29) ∷ (3, 0, 24) ∷ (0x1f, cond_val, 0) ∷ []) (simm_5_23 ∷ []) []
        ∷ [])
      conditions
    ++ opcode "cbnz" "64" (root101 ∷ (7, 5, 29) ∷ (3, 1, 24) ∷ []) (xreg_0_4 ∷ simm_5_23 ∷ []) []
      ∷ opcode "cbnz" "32" (root101 ∷ (7, 1, 29) ∷ (3, 1, 24) ∷ []) (xreg_0_4 ∷ simm_5_23 ∷ []) []
      ∷ opcode "cbz" "64" (root101 ∷ (7, 5, 29) ∷ (3, 0, 24) ∷ []) (xreg_0_4 ∷ simm_5_23 ∷ []) []
      ∷ opcode "cbz" "32" (root101 ∷ (7, 1, 29) ∷ (3, 0, 24) ∷ []) (xreg_0_4 ∷ simm_5_23 ∷ []) []
      ∷ opcode "tbz" "" (root101 ∷ (3, 1, 29) ∷ (3, 2, 24) ∷ [])
          (xreg_0_4 ∷ imm_19_23_31 ∷ simm_5_18 ∷ []) []
      ∷ opcode "tbnz" "" (root101 ∷ (3, 1, 29) ∷ (3, 3, 24) ∷ [])
          (xreg_0_4 ∷ imm_19_23_31 ∷ simm_5_18 ∷ []) []
      ∷ []

unfoldable pub system_calls : List Row
unfolding opcode
system_calls =
    opcode "hlt" "" (root101 ∷ (7, 6, 29) ∷ (0x1f, 2, 21) ∷ (0x1f, 0, 0) ∷ []) (imm_5_20 ∷ []) []
    ∷ opcode "brk" "" (root101 ∷ (7, 6, 29) ∷ (0x1f, 1, 21) ∷ (0x1f, 0, 0) ∷ []) (imm_5_20 ∷ []) []
    ∷ opcode "svc" "" (root101 ∷ (7, 6, 29) ∷ (0x1f, 0, 21) ∷ (0x1f, 1, 0) ∷ []) (imm_5_20 ∷ []) []
    ∷ []

unfoldable pub hints_and_barriers : List Row
unfolding opcode
hints_and_barriers =
    opcode "yield" "" (root101 ∷ (7, 6, 29) ∷ (0x3ffffff, 0x103203f, 0) ∷ []) ([]) []
    ∷ opcode "nop" "" (root101 ∷ (7, 6, 29) ∷ (0x3ffffff, 0x103201f, 0) ∷ []) ([]) []
    ∷ opcode "eret" "" (root101 ∷ (7, 6, 29) ∷ (0x3ffffff, 0x29f03e0, 0) ∷ []) ([]) []
    ∷ opcode "isb" "" (root101 ∷ (7, 6, 29) ∷ (0x3ffffff, 0x1033fdf, 0) ∷ []) ([]) []
    ∷ opcode "clrex" "" (root101 ∷ (7, 6, 29) ∷ (0x3ffffff, 0x1033f5f, 0) ∷ []) ([]) []
    ∷ opcode "dmb" "ish" (root101 ∷ (7, 6, 29) ∷ (0x3ffffff, 0x1033bbf, 0) ∷ []) ([])
        (domain_param ∷ [])
    ∷ opcode "dmb" "ishld" (root101 ∷ (7, 6, 29) ∷ (0x3ffffff, 0x10339bf, 0) ∷ []) ([])
        (domain_param ∷ [])
    ∷ opcode "dmb" "ishst" (root101 ∷ (7, 6, 29) ∷ (0x3ffffff, 0x1033abf, 0) ∷ []) ([])
        (domain_param ∷ [])
    ∷ opcode "dsb" "ish" (root101 ∷ (7, 6, 29) ∷ (0x3ffffff, 0x1033b9f, 0) ∷ []) ([])
        (domain_param ∷ [])
    ∷ opcode "dsb" "ishld" (root101 ∷ (7, 6, 29) ∷ (0x3ffffff, 0x103399f, 0) ∷ []) ([])
        (domain_param ∷ [])
    ∷ opcode "dsb" "ishst" (root101 ∷ (7, 6, 29) ∷ (0x3ffffff, 0x1033a9f, 0) ∷ []) ([])
        (domain_param ∷ [])
    ∷ []
