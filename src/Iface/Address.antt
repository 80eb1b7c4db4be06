-- ===== src/Iface/Address.antt =====
-- The views of memory.
use cfp2dreamcast.Base.{ℕ, ◌≡◌, arith}
use cfp2dreamcast.Base.Bits.{bit_or_high}
use cfp2dreamcast.Iface.{p2addr, phys}

-- The P2 view of an address is the same byte of memory.
pub phys-p2addr : (a : ℕ) → phys (p2addr a) ≡ phys a
unfolding p2addr
phys-p2addr a = omega (arith, bit_or_high 29 a 5)
