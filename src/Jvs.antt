-- ===== src/Jvs.antt =====
-- shims/src/jvs.c: the button translation, the reset combination and the JVS frame; of main.c,
-- the frame of a digital read.
pub mod Buttons
pub mod Frame
use cfp2dreamcast.Base.{ℕ, zero, suc, ◌+◌, ◌-◌, ◌*◌, ◌/◌, ◌%◌, ◌^◌, bit_and, bit_or}
use cfp2dreamcast.Base.{
  Bool, List, [], ◌∷◌, if◌then◌else◌, ◌==◌, has_bit, u8, u16, u32, get_or, set,
}

-- `(unsigned short)~dc`
abbrev pub pressed : ℕ → ℕ
pressed dc = u16 (2 ^ 32 - 1 - dc)

-- `if (b & (1u << k)) j |= v;`
pub latch : ℕ → ℕ → ℕ → ℕ → ℕ
latch b k v j = if has_bit b k then bit_or j v else j

pub dc_to_jvs : ℕ → ℕ
dc_to_jvs dc =
    let b = pressed dc in
    let start = latch b 3 0x8000 0 in
    let up = latch b 4 0x2000 start in
    let down = latch b 5 0x1000 up in
    let left = latch b 6 0x0800 down in
    let right = latch b 7 0x0400 left in let a = latch b 2 0x0200 right in latch b 1 0x0100 a

unfoldable pub dc_reset_combo : ℕ → Bool
dc_reset_combo dc =
    let m : ℕ = 2 ^ 2 + 2 ^ 1 + 2 ^ 10 + 2 ^ 9 + 2 ^ 3 in bit_and (pressed dc) m == m

-- The loop of the checksum at index `i`, with `left` rounds to go.
unfoldable pub checksum_loop : ℕ → ℕ → List ℕ → ℕ → ℕ
checksum_loop zero i f s = s
checksum_loop (suc left) i f s = checksum_loop left (i + 1) f (u32 (s + get_or f i 0))

unfoldable pub jvs_checksum : List ℕ → ℕ
unfolding checksum_loop
jvs_checksum f = u8 (checksum_loop (0x39 + 1 - 0x1b) 0x1b f 0)

abbrev pub jvs_hasdata : List ℕ
jvs_hasdata =
    0x87 ∷ 0x00 ∷ 0x20 ∷ 0x0f ∷ 0x16 ∷ 0xff ∷ 0xff ∷ 0xff ∷ 0x00 ∷ 0xff ∷ 0xff ∷ 0xff ∷ 0x00 ∷ 0x00
    ∷ 0x00 ∷ 0x00 ∷ 0x00 ∷ 0x00 ∷ 0x00 ∷ 0x00 ∷ 0x00 ∷ 0x00 ∷ 0x8e ∷ 0x01 ∷ 0x00 ∷ 0x21 ∷ 0xe0
    ∷ 0x00 ∷ 0x1e ∷ 0x01 ∷ 0x01 ∷ 0x00 ∷ 0x00 ∷ 0x00 ∷ 0x00 ∷ 0x00 ∷ 0x01 ∷ 0x00 ∷ 0x00 ∷ 0x00
    ∷ 0x00 ∷ 0x01 ∷ 0x80 ∷ 0x00 ∷ 0x80 ∷ 0x00 ∷ 0x80 ∷ 0x00 ∷ 0x80 ∷ 0x00 ∷ 0x80 ∷ 0x00 ∷ 0x80
    ∷ 0x00 ∷ 0x80 ∷ 0x00 ∷ 0x80 ∷ 0x00 ∷ 0x22 ∷ 0x00 ∷ 0x00 ∷ 0x00 ∷ 0x00 ∷ 0x00 ∷ []

-- The live reply frame for the two players' words: the captured one with their bytes and a new
-- checksum.
unfoldable pub digital_frame : ℕ → ℕ → List ℕ
digital_frame j j2 =
    let one = set (set jvs_hasdata 0x20 (u8 (j / 2 ^ 8))) 0x21 (u8 j) in
    let two = set (set one 0x22 (u8 (j2 / 2 ^ 8))) 0x23 (u8 j2) in set two 0x3a (jvs_checksum two)
