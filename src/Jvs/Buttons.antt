-- ===== src/Jvs/Buttons.antt =====
-- What the two readers of the Dreamcast button word find in it.
use cfp2dreamcast.Base.{ℕ, ◌+◌, ◌-◌, ◌*◌, ◌/◌, ◌%◌, ◌^◌, ◌<◌, ◌≡◌, ◌↔◌, true, arith}
use cfp2dreamcast.Base.Bits.{bit_and_digit, bit_and-zero, bit_or_disjoint}
use cfp2dreamcast.Jvs.{dc_to_jvs, dc_reset_combo, pressed, latch}

-- 1 if the active-low button `k` is held, else 0.
abbrev pub held : ℕ → ℕ → ℕ
held dc k = 1 - dc / 2 ^ k % 2

bit_of : ℕ → ℕ → ℕ
bit_of b k = b / 2 ^ k % 2

-- Or-ing in a value below all the bits that are set adds it.
latch_adds :
    (b k n q v j : ℕ) → j ≡ q * 2 ^ n → v < 2 ^ n → latch b k v j ≡ q * 2 ^ n + bit_of b k * v
unfolding latch bit_of
latch_adds b k n q v j e small = ground (arith, bit_or_disjoint n q v)

latches : ℕ → ℕ
latches b = latch b 1 0x0100 (
    latch b 2 0x0200 (
      latch b 7 0x0400
        (latch b 6 0x0800 (latch b 5 0x1000 (latch b 4 0x2000 (latch b 3 0x8000 0))))))

latches-eq :
    (b : ℕ)
    → latches b
      ≡ bit_of b 3 * 0x8000
        + bit_of b 4 * 0x2000
        + bit_of b 5 * 0x1000
        + bit_of b 6 * 0x0800
        + bit_of b 7 * 0x0400
        + bit_of b 2 * 0x0200
        + bit_of b 1 * 0x0100
unfolding latches
latches-eq b =
    let s = bit_of b 3 in
    let u = bit_of b 4 in
    let d = bit_of b 5 in
    let l = bit_of b 6 in
    let r = bit_of b 7 in
    let x = bit_of b 2 in
    let j1 = latch b 3 0x8000 0 in
    let e1 = latch_adds b 3 16 0 0x8000 0 (omega arith) (omega arith) in
    let j2 = latch b 4 0x2000 j1 in
    let e2 = latch_adds b 4 14 (s * 2) 0x2000 j1 (omega arith) (omega arith) in
    let j3 = latch b 5 0x1000 j2 in
    let e3 = latch_adds b 5 13 (s * 4 + u) 0x1000 j2 (omega arith) (omega arith) in
    let j4 = latch b 6 0x0800 j3 in
    let e4 = latch_adds b 6 12 (s * 8 + u * 2 + d) 0x0800 j3 (omega arith) (omega arith) in
    let j5 = latch b 7 0x0400 j4 in
    let e5 = latch_adds b 7 11 (s * 16 + u * 4 + d * 2 + l) 0x0400 j4 (omega arith) (omega arith) in
    let j6 = latch b 2 0x0200 j5 in
    let e6 =
      latch_adds b 2 10 (s * 32 + u * 8 + d * 4 + l * 2 + r) 0x0200 j5 (omega arith)
        (omega arith) in
    let e7 =
      latch_adds b 1 9 (s * 64 + u * 16 + d * 8 + l * 4 + r * 2 + x) 0x0100 j6 (omega arith)
        (omega arith) in
    omega arith

held_bits :
    (dc : ℕ)
    → dc < 2 ^ 16
    → (bit_of (pressed dc) 3 ≡ held dc 3)
      × (bit_of (pressed dc) 4 ≡ held dc 4)
      × (bit_of (pressed dc) 5 ≡ held dc 5)
      × (bit_of (pressed dc) 6 ≡ held dc 6)
      × (bit_of (pressed dc) 7 ≡ held dc 7)
      × (bit_of (pressed dc) 2 ≡ held dc 2)
      × (bit_of (pressed dc) 1 ≡ held dc 1)
unfolding bit_of
held_bits dc h = omega arith

-- The JVS word has one bit for each of the seven buttons of the map, set when that button of the
-- active-low word is held, and no other bit.
pub dc_to_jvs-eq :
    (dc : ℕ)
    → dc < 2 ^ 16
    → dc_to_jvs dc
      ≡ held dc 3 * 0x8000
        + held dc 4 * 0x2000
        + held dc 5 * 0x1000
        + held dc 6 * 0x0800
        + held dc 7 * 0x0400
        + held dc 2 * 0x0200
        + held dc 1 * 0x0100
unfolding dc_to_jvs latches
dc_to_jvs-eq dc h =
    let (s, u, d, l, r, a, c) = held_bits dc h in
    rw (← s, ← u, ← d, ← l, ← r, ← a, ← c) (latches-eq (pressed dc))

-- The reset combination is seen exactly when A, B, X, Y and Start are held together.
pub dc_reset_combo_iff :
    (dc : ℕ)
    → dc < 2 ^ 16
    → (dc_reset_combo dc ≡ true)
      ↔ ((held dc 2 ≡ 1) × (held dc 1 ≡ 1) × (held dc 10 ≡ 1) × (held dc 9 ≡ 1) × (held dc 3 ≡ 1))
unfolding dc_reset_combo
dc_reset_combo_iff dc h =
    let b = pressed dc in
    ground (
      arith,
      bit_and_digit b 0x60e,
      bit_and_digit (b / 2) 0x307,
      bit_and_digit (b / 2 / 2) 0x183,
      bit_and_digit (b / 2 / 2 / 2) 0xc1,
      bit_and_digit (b / 2 / 2 / 2 / 2) 0x60,
      bit_and_digit (b / 2 / 2 / 2 / 2 / 2) 0x30,
      bit_and_digit (b / 2 / 2 / 2 / 2 / 2 / 2) 0x18,
      bit_and_digit (b / 2 / 2 / 2 / 2 / 2 / 2 / 2) 0xc,
      bit_and_digit (b / 2 / 2 / 2 / 2 / 2 / 2 / 2 / 2) 6,
      bit_and_digit (b / 2 / 2 / 2 / 2 / 2 / 2 / 2 / 2 / 2) 3,
      bit_and_digit (b / 2 / 2 / 2 / 2 / 2 / 2 / 2 / 2 / 2 / 2) 1,
      bit_and-zero (b / 2 / 2 / 2 / 2 / 2 / 2 / 2 / 2 / 2 / 2 / 2),
    )
