-- ===== src/Base/Table.antt =====
-- Base/opcode_tab.py, the opcodes and directives in the order in which the module enters them.
use cwerg.Prelude.{Option, none, some, List, [], ◌∷◌, ◌++◌}
use cwerg.Base.Kinds.{
  OpcKind, bbl_terminator, no_fall_through, call, commutative, mem_rd, mem_wr, special, reg, const,
  reg_or_const, bbl, mem, stk, func, jtb, type_list, data_kind, mem_kind, fun_kind, field, name,
  name_list, bbl_tab, bytes, Tc, any, addr_num, num, flt, int, addr, code, uint, offset,
  same_as_prev, same_size_as_prev,
}
use cwerg.Base.Opcode.{Opcode, Row, init, directive_row, register_all, base, struct, tbd}

-- arithmetic and logic
unfoldable pub alu_opcodes : List Row
unfolding init directive_row
alu_opcodes =
    init 0x10 "add" OpcKind.alu (reg ∷ reg_or_const ∷ reg_or_const ∷ [])
      (num ∷ same_as_prev ∷ same_as_prev ∷ []) base (commutative ∷ [])
    ∷ init 0x11 "sub" OpcKind.alu (reg ∷ reg_or_const ∷ reg_or_const ∷ [])
        (num ∷ same_as_prev ∷ same_as_prev ∷ []) base []
    ∷ init 0x12 "mul" OpcKind.alu (reg ∷ reg_or_const ∷ reg_or_const ∷ [])
        (num ∷ same_as_prev ∷ same_as_prev ∷ []) base (commutative ∷ [])
    ∷ init 0x13 "div" OpcKind.alu (reg ∷ reg_or_const ∷ reg_or_const ∷ [])
        (num ∷ same_as_prev ∷ same_as_prev ∷ []) base []
    ∷ init 0x14 "rem" OpcKind.alu (reg ∷ reg_or_const ∷ reg_or_const ∷ [])
        (int ∷ same_as_prev ∷ same_as_prev ∷ []) base []
    ∷ init 0x15 "min" OpcKind.alu (reg ∷ reg_or_const ∷ reg_or_const ∷ [])
        (num ∷ same_as_prev ∷ same_as_prev ∷ []) tbd (commutative ∷ [])
    ∷ init 0x16 "max" OpcKind.alu (reg ∷ reg_or_const ∷ reg_or_const ∷ [])
        (num ∷ same_as_prev ∷ same_as_prev ∷ []) tbd (commutative ∷ [])
    ∷ init 0x18 "xor" OpcKind.alu (reg ∷ reg_or_const ∷ reg_or_const ∷ [])
        (int ∷ same_as_prev ∷ same_as_prev ∷ []) base (commutative ∷ [])
    ∷ init 0x19 "and" OpcKind.alu (reg ∷ reg_or_const ∷ reg_or_const ∷ [])
        (int ∷ same_as_prev ∷ same_as_prev ∷ []) base (commutative ∷ [])
    ∷ init 0x1a "or" OpcKind.alu (reg ∷ reg_or_const ∷ reg_or_const ∷ [])
        (int ∷ same_as_prev ∷ same_as_prev ∷ []) base (commutative ∷ [])
    ∷ init 0x1b "shl" OpcKind.alu (reg ∷ reg_or_const ∷ reg_or_const ∷ [])
        (int ∷ same_as_prev ∷ same_as_prev ∷ []) base []
    ∷ init 0x1c "shr" OpcKind.alu (reg ∷ reg_or_const ∷ reg_or_const ∷ [])
        (int ∷ same_as_prev ∷ same_as_prev ∷ []) base []
    ∷ init 0x1d "rotl" OpcKind.alu (reg ∷ reg_or_const ∷ reg_or_const ∷ [])
        (int ∷ same_as_prev ∷ same_as_prev ∷ []) base []
    ∷ []

-- branches and other control flow
unfoldable pub control_opcodes : List Row
unfolding init directive_row
control_opcodes =
    init 0x20 "beq" OpcKind.cond_bra (reg_or_const ∷ reg_or_const ∷ bbl ∷ [])
      (any ∷ same_as_prev ∷ Tc.invalid ∷ []) base (commutative ∷ bbl_terminator ∷ [])
    ∷ init 0x21 "bne" OpcKind.cond_bra (reg_or_const ∷ reg_or_const ∷ bbl ∷ [])
        (any ∷ same_as_prev ∷ Tc.invalid ∷ []) base (commutative ∷ bbl_terminator ∷ [])
    ∷ init 0x22 "blt" OpcKind.cond_bra (reg_or_const ∷ reg_or_const ∷ bbl ∷ [])
        (addr_num ∷ same_as_prev ∷ Tc.invalid ∷ []) base (bbl_terminator ∷ [])
    ∷ init 0x23 "ble" OpcKind.cond_bra (reg_or_const ∷ reg_or_const ∷ bbl ∷ [])
        (addr_num ∷ same_as_prev ∷ Tc.invalid ∷ []) base (bbl_terminator ∷ [])
    ∷ init 0x28 "switch" OpcKind.switch (reg ∷ jtb ∷ []) (uint ∷ Tc.invalid ∷ []) base
        (bbl_terminator ∷ no_fall_through ∷ [])
    ∷ init 0x29 "bra" OpcKind.bra (bbl ∷ []) (Tc.invalid ∷ []) base
        (bbl_terminator ∷ no_fall_through ∷ [])
    ∷ init 0x2a "ret" OpcKind.ret [] [] base (bbl_terminator ∷ no_fall_through ∷ [])
    ∷ init 0x2b "bsr" OpcKind.bsr (func ∷ []) (Tc.invalid ∷ []) base (call ∷ [])
    ∷ init 0x2c "jsr" OpcKind.jsr (reg ∷ func ∷ []) (code ∷ Tc.invalid ∷ []) base (call ∷ [])
    ∷ init 0x2d "syscall" OpcKind.syscall (func ∷ const ∷ []) (Tc.invalid ∷ uint ∷ []) base
        (call ∷ [])
    ∷ init 0x2e "trap" OpcKind.ret [] [] base (bbl_terminator ∷ no_fall_through ∷ [])
    ∷ []

-- moves, conversions and addresses
unfoldable pub move_opcodes : List Row
unfolding init directive_row
move_opcodes =
    init 0x30 "pusharg" OpcKind.pusharg (reg_or_const ∷ []) (any ∷ []) base (special ∷ [])
    ∷ init 0x31 "poparg" OpcKind.poparg (reg ∷ []) (any ∷ []) base (special ∷ [])
    ∷ init 0x32 "conv" OpcKind.conv (reg ∷ reg_or_const ∷ []) (num ∷ num ∷ []) base []
    ∷ init 0x33 "bitcast" OpcKind.conv (reg ∷ reg_or_const ∷ []) (any ∷ same_size_as_prev ∷ []) base
        []
    ∷ init 0x34 "mov" OpcKind.mov (reg ∷ reg_or_const ∷ []) (any ∷ same_as_prev ∷ []) base []
    ∷ init 0x35 "cmpeq" OpcKind.cmp
        (reg ∷ reg_or_const ∷ reg_or_const ∷ reg_or_const ∷ reg_or_const ∷ [])
        (any ∷ same_as_prev ∷ same_as_prev ∷ same_as_prev ∷ same_as_prev ∷ []) base
        (commutative ∷ [])
    ∷ init 0x36 "cmplt" OpcKind.cmp
        (reg ∷ reg_or_const ∷ reg_or_const ∷ reg_or_const ∷ reg_or_const ∷ [])
        (addr_num ∷ same_as_prev ∷ same_as_prev ∷ same_as_prev ∷ same_as_prev ∷ []) base []
    ∷ init 0x38 "lea" OpcKind.lea (reg ∷ reg_or_const ∷ reg_or_const ∷ [])
        (addr ∷ same_as_prev ∷ offset ∷ []) base []
    ∷ init 0x39 "lea.mem" OpcKind.lea (reg ∷ mem ∷ reg_or_const ∷ [])
        (addr ∷ Tc.invalid ∷ offset ∷ []) base []
    ∷ init 0x3a "lea.stk" OpcKind.lea (reg ∷ stk ∷ reg_or_const ∷ [])
        (addr ∷ Tc.invalid ∷ offset ∷ []) base []
    ∷ init 0x3b "lea.fun" OpcKind.lea1 (reg ∷ func ∷ []) (code ∷ Tc.invalid ∷ []) base []
    ∷ []

-- loads and stores
unfoldable pub memory_opcodes : List Row
unfolding init directive_row
memory_opcodes =
    init 0x40 "ld" OpcKind.ld (reg ∷ reg_or_const ∷ reg_or_const ∷ []) (any ∷ addr ∷ offset ∷ [])
      base (mem_rd ∷ [])
    ∷ init 0x41 "ld.mem" OpcKind.ld (reg ∷ mem ∷ reg_or_const ∷ []) (any ∷ Tc.invalid ∷ offset ∷ [])
        base (mem_rd ∷ [])
    ∷ init 0x42 "ld.stk" OpcKind.ld (reg ∷ stk ∷ reg_or_const ∷ []) (any ∷ Tc.invalid ∷ offset ∷ [])
        base (mem_rd ∷ [])
    ∷ init 0x48 "st" OpcKind.st (reg ∷ reg_or_const ∷ reg_or_const ∷ []) (addr ∷ offset ∷ any ∷ [])
        base (mem_wr ∷ [])
    ∷ init 0x49 "st.mem" OpcKind.st (mem ∷ reg_or_const ∷ reg_or_const ∷ [])
        (Tc.invalid ∷ offset ∷ any ∷ []) base (mem_wr ∷ [])
    ∷ init 0x4a "st.stk" OpcKind.st (stk ∷ reg_or_const ∷ reg_or_const ∷ [])
        (Tc.invalid ∷ offset ∷ any ∷ []) base (mem_wr ∷ [])
    ∷ []

-- floating point
unfoldable pub float_opcodes : List Row
unfolding init directive_row
float_opcodes =
    init 0x60 "sqrt" OpcKind.alu1 (reg ∷ reg_or_const ∷ []) (flt ∷ same_as_prev ∷ []) tbd []
    ∷ init 0x61 "abs" OpcKind.alu1 (reg ∷ reg_or_const ∷ []) (flt ∷ same_as_prev ∷ []) tbd []
    ∷ init 0x62 "sign" OpcKind.alu1 (reg ∷ reg_or_const ∷ []) (flt ∷ same_as_prev ∷ []) tbd []
    ∷ init 0x63 "ceil" OpcKind.alu1 (reg ∷ reg_or_const ∷ []) (flt ∷ same_as_prev ∷ []) tbd []
    ∷ init 0x64 "floor" OpcKind.alu1 (reg ∷ reg_or_const ∷ []) (flt ∷ same_as_prev ∷ []) tbd []
    ∷ init 0x65 "trunc" OpcKind.alu1 (reg ∷ reg_or_const ∷ []) (flt ∷ same_as_prev ∷ []) tbd []
    ∷ init 0x66 "round" OpcKind.alu1 (reg ∷ reg_or_const ∷ []) (flt ∷ same_as_prev ∷ []) tbd []
    ∷ init 0x67 "sin" OpcKind.alu1 (reg ∷ reg_or_const ∷ []) (flt ∷ same_as_prev ∷ []) tbd []
    ∷ init 0x68 "cos" OpcKind.alu1 (reg ∷ reg_or_const ∷ []) (flt ∷ same_as_prev ∷ []) tbd []
    ∷ init 0x69 "tan" OpcKind.alu1 (reg ∷ reg_or_const ∷ []) (flt ∷ same_as_prev ∷ []) tbd []
    ∷ init 0x6a "asin" OpcKind.alu1 (reg ∷ reg_or_const ∷ []) (flt ∷ same_as_prev ∷ []) tbd []
    ∷ init 0x6b "acos" OpcKind.alu1 (reg ∷ reg_or_const ∷ []) (flt ∷ same_as_prev ∷ []) tbd []
    ∷ init 0x6c "atan" OpcKind.alu1 (reg ∷ reg_or_const ∷ []) (flt ∷ same_as_prev ∷ []) tbd []
    ∷ init 0x6d "exp" OpcKind.alu1 (reg ∷ reg_or_const ∷ []) (flt ∷ same_as_prev ∷ []) tbd []
    ∷ init 0x6e "log" OpcKind.alu1 (reg ∷ reg_or_const ∷ []) (flt ∷ same_as_prev ∷ []) tbd []
    ∷ []

-- structs, experiments and internal opcodes
unfoldable pub other_opcodes : List Row
unfolding init directive_row
other_opcodes =
    init 0xc0 "st.stks" OpcKind.st (stk ∷ field ∷ reg ∷ []) (Tc.invalid ∷ Tc.invalid ∷ any ∷ [])
      struct []
    ∷ init 0xc1 "ld.stks" OpcKind.ld (reg ∷ stk ∷ field ∷ []) (any ∷ Tc.invalid ∷ Tc.invalid ∷ [])
        struct []
    ∷ init 0xc2 "lea.stks" OpcKind.lea1 (reg ∷ field ∷ []) (addr ∷ Tc.invalid ∷ []) struct []
    ∷ init 0xc3 "lds" OpcKind.ld (reg ∷ reg ∷ field ∷ []) (any ∷ addr ∷ Tc.invalid ∷ []) struct []
    ∷ init 0xc4 "sts" OpcKind.st (reg ∷ field ∷ reg ∷ []) (addr ∷ Tc.invalid ∷ any ∷ []) struct []
    ∷ init 0xc5 "adds" OpcKind.alu (reg ∷ reg ∷ field ∷ []) (addr ∷ same_as_prev ∷ Tc.invalid ∷ [])
        struct []
    ∷ init 0xb0 "cntpop" OpcKind.alu1 (reg ∷ reg_or_const ∷ []) (int ∷ same_as_prev ∷ []) tbd []
    ∷ init 0xb1 "cntlz" OpcKind.alu1 (reg ∷ reg_or_const ∷ []) (int ∷ same_as_prev ∷ []) tbd []
    ∷ init 0xb2 "cnttz" OpcKind.alu1 (reg ∷ reg_or_const ∷ []) (int ∷ same_as_prev ∷ []) tbd []
    ∷ init 0xb8 "bcopy" OpcKind.bcopy (reg ∷ reg ∷ reg_or_const ∷ [])
        (addr ∷ same_as_prev ∷ offset ∷ []) tbd (mem_wr ∷ mem_rd ∷ [])
    ∷ init 0xba "bzero" OpcKind.bzero (reg ∷ reg_or_const ∷ []) (addr ∷ offset ∷ []) tbd
        (mem_wr ∷ [])
    ∷ init 0xf1 "nop" OpcKind.nop [] [] base []
    ∷ init 0xf2 "nop1" OpcKind.nop1 (reg ∷ []) (any ∷ []) base (special ∷ [])
    ∷ []

-- directives
unfoldable pub directives : List Row
unfolding init directive_row
directives =
    directive_row 0x1 ".mem" (name ∷ const ∷ mem_kind ∷ []) (Tc.invalid ∷ uint ∷ Tc.invalid ∷ [])
      base
    ∷ directive_row 0x2 ".data" (const ∷ bytes ∷ []) (uint ∷ Tc.invalid ∷ []) base
    ∷ directive_row 0x3 ".addr.fun" (const ∷ func ∷ []) (uint ∷ Tc.invalid ∷ []) base
    ∷ directive_row 0x4 ".addr.mem" (const ∷ mem ∷ const ∷ []) (uint ∷ Tc.invalid ∷ offset ∷ [])
        base
    ∷ directive_row 0x5 ".fun" (name ∷ fun_kind ∷ type_list ∷ type_list ∷ [])
        (Tc.invalid ∷ Tc.invalid ∷ Tc.invalid ∷ Tc.invalid ∷ []) base
    ∷ directive_row 0x6 ".bbl" (name ∷ []) (Tc.invalid ∷ []) base
    ∷ directive_row 0x7 ".reg" (data_kind ∷ name_list ∷ []) (Tc.invalid ∷ Tc.invalid ∷ []) base
    ∷ directive_row 0x8 ".stk" (name ∷ const ∷ const ∷ []) (Tc.invalid ∷ uint ∷ uint ∷ []) base
    ∷ directive_row 0x9 ".jtb" (name ∷ const ∷ bbl ∷ bbl_tab ∷ [])
        (Tc.invalid ∷ offset ∷ Tc.invalid ∷ Tc.invalid ∷ []) base
    ∷ directive_row 0xe0 ".struct" (name ∷ []) (Tc.invalid ∷ []) struct
    ∷ directive_row 0xe1 ".field" (name ∷ const ∷ const ∷ []) (Tc.invalid ∷ uint ∷ uint ∷ []) struct
    ∷ directive_row 0xe2 ".endstruct" [] [] struct
    ∷ directive_row 0xe3 ".stk.s" (name ∷ name ∷ []) (Tc.invalid ∷ Tc.invalid ∷ []) struct
    ∷ []

unfoldable pub registrations : List Row
unfolding alu_opcodes control_opcodes move_opcodes memory_opcodes float_opcodes other_opcodes
    directives
registrations =
    alu_opcodes
    ++ (control_opcodes
        ++ (move_opcodes ++ (memory_opcodes ++ (float_opcodes ++ (other_opcodes ++ (directives))))))

-- The tables when the module is loaded, the last entry first; `none` would be a failed assertion.
unfoldable pub loaded : Option (List Opcode)
unfolding register_all registrations
loaded = register_all [] registrations

unfoldable pub opcode_table : List Opcode
unfolding loaded
opcode_table = elim loaded [ none ↦ [] | some table ↦ table ]
