-- ===== src/Base/Word.antt =====
-- Casts to the fixed widths, bit tests and bit updates of a byte, and sign extension.
use Prim.Native.Nat.{ℕ, ◌+◌, ◌-◌, ◌*◌, ◌%◌, ◌^◌, bit_and, bit_or}
use mathlib.Core.Bool.{Bool, true, false, not}
use tlmboy.Base.Tests.{ltb, ◌==◌, if◌then◌else◌}

abbrev pub u8 : ℕ → ℕ
u8 n = n % 256

abbrev pub u16 : ℕ → ℕ
u16 n = n % 65536

-- A `bool` that is promoted to a number.
abbrev pub of_bool : Bool → ℕ
of_bool true = 1
of_bool false = 0

-- A number that is used as a condition.
abbrev pub to_bool : ℕ → Bool
to_bool n = not (n == 0)

-- `IsBitSet(dat, bit_index)`: the parameter is a byte, hence the cast.
unfoldable pub is_bit_set : ℕ → ℕ → Bool
is_bit_set dat bit_index = to_bool (bit_and (u8 dat) (2 ^ bit_index))

-- `SetBit(dat, val, bit_index)`. On a byte, `~(1 << i)` is the mask `255 - 2 ^ i`.
unfoldable pub set_bit : ℕ → Bool → ℕ → ℕ
set_bit dat val bit_index =
    bit_or (bit_and (u8 dat) (255 - 2 ^ bit_index)) (of_bool val * 2 ^ bit_index)

-- The 32-bit pattern of the `int` that an `i8` is promoted to.
abbrev pub sign_extend : ℕ → ℕ
sign_extend imm = if ltb imm 128 then imm else imm + (2 ^ 32 - 256)
