-- ===== src/Jvs/Frame.antt =====
-- The checksum of a frame, and the frame of a digital read.
use cfp2dreamcast.Base.{ℕ, ◌+◌, ◌*◌, ◌^◌, ◌<◌, ◌≡◌, refl, List, length, get_or, arith}
use cfp2dreamcast.Jvs.{jvs_checksum, checksum_loop, jvs_hasdata, digital_frame}

golden : jvs_checksum jvs_hasdata ≡ 0x22
unfolding jvs_checksum
golden = refl

-- The 16-bit word at a byte of the frame, most significant byte first.
abbrev pub big_endian : List ℕ → ℕ → ℕ
big_endian f i = get_or f i 0 * 2 ^ 8 + get_or f (i + 1) 0

-- The frame of a digital read is 64 bytes, carries the first player's word and the second player's
-- at 0x20 and 0x22, most significant byte first, and its checksum byte is the checksum of the frame.
pub digital_frame-Carries :
    (j j2 : ℕ)
    → j < 2 ^ 16
    → j2 < 2 ^ 16
    → (length (digital_frame j j2) ≡ 64)
      × (big_endian (digital_frame j j2) 0x20 ≡ j)
      × (big_endian (digital_frame j j2) 0x22 ≡ j2)
      × (get_or (digital_frame j j2) 0x3a 0 ≡ jvs_checksum (digital_frame j j2))
unfolding digital_frame jvs_checksum checksum_loop
digital_frame-Carries j j2 h h2 = (refl, omega arith, omega arith, refl)
