-- ===== src/Util/Hud/Marks.antt =====
-- Each of the 32 marks has its own pixels.
use cfp2dreamcast.Base.{
  ℕ, ◌+◌, ◌*◌, ◌/◌, ◌^◌, ◌<◌, ◌≤◌, ◌≡◌, ◌≢◌, ◌∙◌, refl, ap, arith, true, false, ◌==◌, if◌then◌else◌,
  u8, u32,
}
use cfp2dreamcast.Iface.{phys}
use cfp2dreamcast.Machine.{Platform, Machine}
use cfp2dreamcast.Machine.Memory.{Ram}
use cfp2dreamcast.Machine.Store.{for_loop-inside, for_loop-outside}
use cfp2dreamcast.Util.{framebuffer, unblank, pixel}
use cfp2dreamcast.Util.Hud.{slot_pixel, mark_pixels, shim_mark}

-- Byte `b` of a colour.
abbrev pub colour_byte : ℕ → ℕ → ℕ
colour_byte b v = if b == 0 then u8 v else u8 (v / 2 ^ 8)

-- `q` is byte `b` of pixel `x` in line `y` of the mark at `slot`, for the framebuffer at `fb`.
abbrev pub MarkByte : ℕ → ℕ → ℕ → ℕ → ℕ → ℕ → Type 0
MarkByte fb slot y x b q =
    (y < 8) × (x < 16) × (b < 2) × (q ≡ phys (fb + 2 * (slot_pixel slot + (y * 640 + x)) + b))

-- No pixel is in two marks.
marks_apart :
    (slot other y x j i : ℕ)
    → slot < 32
    → other < 32
    → y < 8
    → x < 16
    → j < 8
    → i < 16
    → other ≢ slot
    → slot_pixel slot + (j * 640 + i) ≢ slot_pixel other + (y * 640 + x)
marks_apart slot other y x j i hs ho hy hx hj hi ne e = ground arith

slot_pixel-small : (slot : ℕ) → slot < 32 → slot_pixel slot < 0x10000
slot_pixel-small slot h = ground arith

module _ (fb : ℕ) (lo : 0xa5000000 ≤ fb) (hi : fb < 0xa6000000) where
  pixel-inside :
      (o i b q v : ℕ) (m : Ram)
      → o < 0x10000
      → i < 0x10000
      → b < 2
      → q ≡ phys (fb + 2 * (o + i) + b)
      → pixel (fb + 2 * o) i v m q ≡ colour_byte b v
  pixel-inside o i b q v m ho small hb at = ground arith

  pixel-outside :
      (o i j b q v : ℕ) (m : Ram)
      → o < 0x10000
      → i < 0x10000
      → j < 0x20000
      → b < 2
      → q ≡ phys (fb + 2 * j + b)
      → o + i ≢ j
      → pixel (fb + 2 * o) i v m q ≡ m q
  pixel-outside o i j b q v m ho small hj hb at other = ground arith

  mark_pixels-inside :
      (slot y x b q v : ℕ) (m : Ram)
      → slot < 32
      → MarkByte fb slot y x b q
      → mark_pixels (fb + 2 * slot_pixel slot) v m q ≡ colour_byte b v
  unfolding mark_pixels
  mark_pixels-inside slot y x b q v m hs (hy, hx, hb, at) =
      let o = slot_pixel slot in
      let small = slot_pixel-small slot hs in
      let off = λ (j i : ℕ) (k : Ram) (hj : j < 8) (hi : i < 16) (ne : j * 640 + i ≢ y * 640 + x).
        pixel-outside o (j * 640 + i) (o + (y * 640 + x)) b q v k small (omega arith) (omega arith)
          hb at (λ e. ne (omega arith)) in
      for_loop-inside q 8 0 y (colour_byte b v) _ m (omega arith) hy
        (λ k.
          for_loop-inside q 16 0 x (colour_byte b v) _ k (omega arith) hx
            (λ l. pixel-inside o (y * 640 + x) b q v l small (omega arith) hb at)
            (λ i l above below. off y i l hy below (λ e. omega arith)))
        (λ j k above below.
          for_loop-outside q 16 0 _ k (λ i l _ h. off j i l below h (λ e. omega arith)))

  mark_pixels-outside :
      (slot j b q v : ℕ) (m : Ram)
      → slot < 32
      → j < 0x20000
      → b < 2
      → q ≡ phys (fb + 2 * j + b)
      → ((y x : ℕ) → y < 8 → x < 16 → slot_pixel slot + (y * 640 + x) ≢ j)
      → mark_pixels (fb + 2 * slot_pixel slot) v m q ≡ m q
  unfolding mark_pixels
  mark_pixels-outside slot j b q v m hs hj hb at out = for_loop-outside q 8 0 _ m λ y k _ hy.
      for_loop-outside q 16 0 _ k λ x l _ hx.
        pixel-outside (slot_pixel slot) (y * 640 + x) j b q v l (slot_pixel-small slot hs)
          (omega arith) hj hb at (out y x hy hx)

-- `k` is `m` with the mark at `slot` in the colour, and the other marks as they were.
abbrev pub Marked : ℕ → ℕ → ℕ → Ram → Ram → Type 0
Marked fb slot colour m k =
    ((y x b q : ℕ) → MarkByte fb slot y x b q → k q ≡ colour_byte b colour)
    × ((other y x b q : ℕ) → other < 32 → other ≢ slot → MarkByte fb other y x b q → k q ≡ m q)

module _ (p : Platform) where
  open p use {Dev}

  -- With the display compiled in, a mark shows its colour in every pixel of its slot, one of 32, and
  -- leaves the pixels of the other slots as they were; without it nothing changes.
  pub shim_mark-Marked :
      (slot colour : ℕ) (s : Machine Dev)
      → slot < 32
      → Marked
          (framebuffer p (unblank p s.dev))
          slot
          colour
          s.ram
          (shim_mark p true slot colour s).ram
        × (shim_mark p false slot colour s ≡ s)
  unfolding shim_mark
  shim_mark-Marked slot colour s hs =
      let fb = framebuffer p (unblank p s.dev) in
      let small = slot_pixel-small slot hs in
      let at : fb + 2 * u32 (slot_pixel slot) ≡ fb + 2 * slot_pixel slot = omega arith in
      (
        (
          (λ y x b q h.
              ap (λ a. mark_pixels a colour s.ram q) at
              ∙ mark_pixels-inside fb (omega arith) (omega arith) slot y x b q colour s.ram hs h),
          (λ other y x b q ho ne h.
              (let (hy, hx, hb, here) = h in
                ap (λ a. mark_pixels a colour s.ram q) at
                ∙ mark_pixels-outside fb (omega arith) (omega arith) slot
                    (slot_pixel other + (y * 640 + x)) b q colour s.ram hs
                    (omega (arith, slot_pixel-small other ho)) hb here
                    (λ j i hj hi. marks_apart slot other y x j i hs ho hy hx hj hi ne))),
        ),
        refl,
      )
