-- ===== src/Common/Words.antt =====
-- Machine words as native numbers: unsigned words wrap by `%`, and a signed word is kept as its
-- two's complement bit pattern, so one type serves `UInt32` and `SInt32`.
use Prim.Native.Nat.{ℕ, ◌+◌, ◌-◌, ◌/◌, ◌%◌, ◌^◌}
use mathlib.Core.Bool.{Bool}
use voodoo_ps2_focal_tech.Common.Tests.{ltb, leb, ◌==◌, if◌then◌else◌}

abbrev pub u8 : ℕ → ℕ
u8 n = n % 256

abbrev pub u32 : ℕ → ℕ
u32 n = n % 0x1_0000_0000

-- a - b on 32 bits, of a word or of a pattern.
abbrev pub sub32 : ℕ → ℕ → ℕ
sub32 a b = (a + 0x1_0000_0000 - b) % 0x1_0000_0000

abbrev pub neg32 : ℕ → ℕ
neg32 a = sub32 0 a

-- (SInt32)a < 0 and (SInt32)a < (SInt32)b.
abbrev pub is_neg32 : ℕ → Bool
is_neg32 a = leb 0x8000_0000 a

abbrev pub lt_signed32 : ℕ → ℕ → Bool
lt_signed32 a b = ltb ((a + 0x8000_0000) % 0x1_0000_0000) ((b + 0x8000_0000) % 0x1_0000_0000)

-- Division of a signed word by a small number, towards zero.
abbrev pub div_signed : ℕ → ℕ → ℕ
div_signed x d = if is_neg32 x then neg32 (neg32 x / d) else x / d

-- The pattern of static_cast<SInt8>(b) widened to 32 bits.
abbrev pub sign_extend8 : ℕ → ℕ
sign_extend8 b = if ltb b 128 then b else b + 0xffff_ff00

-- x >> k, x & (2^k - 1) and x & (1 << k) != 0, in the form that `omega` reads at a numeral k.
abbrev pub shr : ℕ → ℕ → ℕ
shr x k = x / 2 ^ k

abbrev pub low_bits : ℕ → ℕ → ℕ
low_bits x k = x % 2 ^ k

abbrev pub bit_set : ℕ → ℕ → Bool
bit_set x k = x / 2 ^ k % 2 == 1
