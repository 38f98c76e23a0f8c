-- ===== src/Frame/Bytes.antt =====
-- Little-endian words in a buffer: what is put is what is got.
use Prim.Native.Nat.{bit_or}
use retrace.Prelude.{ℕ, ◌+◌, ◌*◌, ◌%◌, ◌^◌, ◌<◌, ◌≡◌, arith}
use retrace.Prelude.Bits.{bit_or_field}

pub u16_bytes : (lo hi : ℕ) → lo < 256 → hi < 256 → bit_or lo (hi * 2 ^ 8) % 2 ^ 16 ≡ lo + hi * 256
u16_bytes lo hi p q = omega (arith, bit_or_field 8 lo hi p)

pub u32_bytes :
    (a b c d : ℕ)
    → a < 256
    → b < 256
    → c < 256
    → bit_or (bit_or (bit_or a (b * 2 ^ 8)) (c * 2 ^ 16)) (d * 2 ^ 24)
      ≡ a + b * 2 ^ 8 + c * 2 ^ 16 + d * 2 ^ 24
u32_bytes a b c d p q r =
    rw (bit_or_field 8 a b p, bit_or_field 16 (a + b * 2 ^ 8) c (omega arith))
      (bit_or_field 24 (a + b * 2 ^ 8 + c * 2 ^ 16) d (omega arith))
