-- ===== src/Iface/Pixel.antt =====
-- The channels of a repacked colour.
use cfp2dreamcast.Base.{ℕ, ◌/◌, ◌%◌, ◌^◌, ◌<◌, ◌≡◌, arith}
use cfp2dreamcast.Base.Bits.{bit_and_high, bit_and_low, bit_or_disjoint}
use cfp2dreamcast.Iface.{rgb565_to_0555}

-- The repack keeps red and blue, drops the low bit of green and leaves the top bit clear.
pub rgb565_to_0555_channels :
    (p : ℕ)
    → p < 2 ^ 16
    → (rgb565_to_0555 p / 2 ^ 15 ≡ 0)
      × (rgb565_to_0555 p / 2 ^ 10 % 2 ^ 5 ≡ p / 2 ^ 11)
      × (rgb565_to_0555 p / 2 ^ 5 % 2 ^ 5 ≡ p / 2 ^ 5 % 2 ^ 6 / 2)
      × (rgb565_to_0555 p % 2 ^ 5 ≡ p % 2 ^ 5)
unfolding rgb565_to_0555
rgb565_to_0555_channels p h = ground (
  arith,
  bit_and_high 6 p 0x3ff,
  bit_and_low 10 (p / 2 ^ 6),
  bit_and_low 5 p,
  bit_or_disjoint 5 (p / 2 ^ 6) (p % 2 ^ 5),
)
