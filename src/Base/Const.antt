-- ===== src/Base/Const.antt =====
-- Base/ir.py, integer constants: `BitWidth`, `Const`, `ParseConst` after the text has been read,
-- `OffsetConst`; `ConvertIntValue` of Base/reaching_defs.py.
pub mod Ranges
pub mod Convert
pub mod Read
pub mod Offset
pub mod Powers
use Prim.Native.Nat.{bit_and}
use cwerg.Prelude.{
  ℕ, zero, suc, ◌+◌, ◌-◌, Bool, true, false, Option, none, some, ltb, leb, ◌==◌, ◌||◌, ◌&&◌, not,
  if◌then◌else◌, ◌>>=◌, ◌>>◌, assert,
}
use cwerg.Prelude.Int.{ℤ, pos, negsuc, ◌-ℤ◌, ltb_ℤ, eqb_ℤ, and_ℤ}
use cwerg.Prelude.Word.{shl, shr}
use cwerg.Base.Kinds.{
  Dk, s8, s16, s32, s64, u8, u16, u32, u64, flavor, bitwidth, flavor_u, flavor_f,
}

-- `Const` with an integer value
pub record Const : Type 0 where
  pub kind : Dk
  pub value : ℤ

-- `int.bit_length`, which a number below 2 ^ fuel reaches within `fuel` rounds
unfoldable pub bit_length : ℕ → ℕ → ℕ
bit_length zero n = 0
bit_length (suc fuel) n = let rest = bit_length fuel (shr n 1) in if n == 0 then 0 else suc rest

-- `BitWidth`; -(n + 1) + 1 is -n, whose `bit_length` is that of n.
unfoldable pub bit_width : ℤ → ℕ
unfolding bit_length
bit_width (pos n) = if n == 0 then 0 else bit_length n n
bit_width (negsuc n) = bit_length n n

-- the value read by `int` as a constant of the kind
unfoldable pub parse_int_const : ℤ → Dk → Option Const
unfolding flavor bitwidth
parse_int_const x kind = do
  assert (not (flavor kind == flavor_f))
  assert (
      if flavor kind == flavor_u
      then not (ltb_ℤ x (pos 0)) && ltb_ℤ x (pos (shl 1 (bitwidth kind)))
      else if ltb_ℤ x (pos 0)
      then not (ltb_ℤ (pos (shl 1 (bitwidth kind - 1))) (pos 0 -ℤ x))
      else ltb_ℤ x (pos (shl 1 (bitwidth kind - 1))))
  some (record { kind = kind; value = x })

unfoldable pub offset_const : ℤ → Option Const
unfolding bit_width
offset_const value =
    let w = 1 + bit_width value in
    let neg = ltb_ℤ value (pos 0) in
    if leb w 8
    then some (record { kind = if neg then s8 else u8; value = value })
    else if leb w 16
    then some (record { kind = if neg then s16 else u16; value = value })
    else if leb w 32
    then some (record { kind = if neg then s32 else u32; value = value })
    else if leb w 64
    then some (record { kind = if neg then s64 else u64; value = value })
    else none

unfoldable pub is_zero : Const → Bool
is_zero c = eqb_ℤ c.value (pos 0)

unfoldable pub is_one : Const → Bool
is_one c = eqb_ℤ c.value (pos 1)

-- `Const.IsIntPowerOfTwo`
unfoldable pub is_int_power_of_two : Const → Bool
is_int_power_of_two c = eqb_ℤ (and_ℤ c.value (c.value -ℤ pos 1)) (pos 0)

-- The loop of `Const.IntBinaryLog`, which adds 1 to `count` for each digit of n.
unfoldable pub log_loop : ℕ → ℕ → ℕ → ℕ
log_loop zero n count = count
log_loop (suc fuel) n count =
    let rest = log_loop fuel (shr n 1) (suc count) in if n == 0 then count else rest

-- `Const.IntBinaryLog`: the loop starts at -1, here at 0, and 1 is taken off at the end.
unfoldable pub int_binary_log : Const → Option ℕ
unfolding log_loop
int_binary_log c = do
  assert (ltb_ℤ (pos 0) c.value)
  elim c.value [ pos n ↦ some (log_loop n n 0 - 1) | negsuc n ↦ none ]

-- `ConvertIntValue`
unfoldable pub convert_int_value : Dk → Const → Const
convert_int_value kind_dst val =
    let width_dst = bitwidth kind_dst in
    let width_src = bitwidth val.kind in
    let masked = and_ℤ val.value (pos (shl 1 width_dst - 1)) in
    let sign = and_ℤ val.value (pos (shl 1 (width_dst - 1))) in
    if ltb width_src width_dst
    then (if flavor kind_dst == flavor val.kind || (flavor val.kind == flavor_u)
        then record { kind = kind_dst; value = val.value }
        else record { kind = kind_dst; value = masked })
    else if flavor kind_dst == flavor_u
    then record { kind = kind_dst; value = masked }
    else if eqb_ℤ sign (pos 0)
    then record { kind = kind_dst; value = masked }
    else record { kind = kind_dst; value = masked -ℤ pos (shl 1 width_dst) }
