-- ===== src/Prelude/Word.antt =====
-- Shifts, masks and single binary digits of natural numbers.
use Prim.Native.Nat.{bit_and, bit_xor, ℕ, zero, suc, ◌+◌, ◌*◌, ◌/◌, ◌%◌}

-- `x << k`, one place at a time
unfoldable pub shl : ℕ → ℕ → ℕ
shl x zero = x
shl x (suc k) = shl x k * 2

-- `x >> k`
unfoldable pub shr : ℕ → ℕ → ℕ
shr x zero = x
shr x (suc k) = shr (x / 2) k

-- the digit of weight 2 ^ i
unfoldable pub bit : ℕ → ℕ → ℕ
bit x zero = x % 2
bit x (suc i) = bit (x / 2) i

-- k ones
unfoldable pub ones : ℕ → ℕ
ones zero = 0
ones (suc k) = ones k * 2 + 1

-- `~m & x`: the digits of x where m has none
abbrev pub without : ℕ → ℕ → ℕ
without m x = bit_xor x (bit_and x m)
