-- ===== src/Base/Words.antt =====
-- Machine integers as bit patterns: a w-bit integer, signed or not, is the number below `2 ^ w`
-- that its bits spell. Signed comparisons shift both sides by half the range.
use Prim.Native.Nat.{ℕ, ◌+◌, ◌-◌, ◌%◌, ◌^◌}
use mathlib.Core.Bool.{Bool}
use chunkymonkey.Base.Tests.{ltb, leb, if◌then◌else◌}

-- Conversion to a w-bit integer keeps the low bits; so does every w-bit sum, product or shift.
abbrev pub u8 : ℕ → ℕ
u8 n = n % 2 ^ 8

abbrev pub u16 : ℕ → ℕ
u16 n = n % 2 ^ 16

abbrev pub u32 : ℕ → ℕ
u32 n = n % 2 ^ 32

abbrev pub u64 : ℕ → ℕ
u64 n = n % 2 ^ 64

-- The order of int8 and of int32 and int64 values.
abbrev pub lt8 : ℕ → ℕ → Bool
lt8 a b = ltb ((a + 128) % 256) ((b + 128) % 256)

abbrev pub le8 : ℕ → ℕ → Bool
le8 a b = leb ((a + 128) % 256) ((b + 128) % 256)

abbrev pub lt16 : ℕ → ℕ → Bool
lt16 a b = ltb ((a + 2 ^ 15) % 2 ^ 16) ((b + 2 ^ 15) % 2 ^ 16)

abbrev pub le16 : ℕ → ℕ → Bool
le16 a b = leb ((a + 2 ^ 15) % 2 ^ 16) ((b + 2 ^ 15) % 2 ^ 16)

abbrev pub lt32 : ℕ → ℕ → Bool
lt32 a b = ltb ((a + 2 ^ 31) % 2 ^ 32) ((b + 2 ^ 31) % 2 ^ 32)

abbrev pub le32 : ℕ → ℕ → Bool
le32 a b = leb ((a + 2 ^ 31) % 2 ^ 32) ((b + 2 ^ 31) % 2 ^ 32)

abbrev pub lt64 : ℕ → ℕ → Bool
lt64 a b = ltb ((a + 2 ^ 63) % 2 ^ 64) ((b + 2 ^ 63) % 2 ^ 64)

abbrev pub le64 : ℕ → ℕ → Bool
le64 a b = leb ((a + 2 ^ 63) % 2 ^ 64) ((b + 2 ^ 63) % 2 ^ 64)

-- Widening a signed integer repeats its sign bit.
abbrev pub sext8_16 : ℕ → ℕ
sext8_16 a = if ltb a (2 ^ 7) then a else a + (2 ^ 16 - 2 ^ 8)

abbrev pub sext16_64 : ℕ → ℕ
sext16_64 a = if ltb a (2 ^ 15) then a else a + (2 ^ 64 - 2 ^ 16)

abbrev pub sext32_64 : ℕ → ℕ
sext32_64 a = if ltb a (2 ^ 31) then a else a + (2 ^ 64 - 2 ^ 32)

abbrev pub sext8_32 : ℕ → ℕ
sext8_32 a = if ltb a (2 ^ 7) then a else a + (2 ^ 32 - 2 ^ 8)
