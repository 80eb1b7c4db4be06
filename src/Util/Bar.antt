-- ===== src/Util/Bar.antt =====
-- The load bar against its picture: what each pixel of the screen shows.
use cfp2dreamcast.Base.{
  ℕ, ◌+◌, ◌-◌, ◌*◌, ◌<◌, ◌≤◌, ◌≡◌, ◌≢◌, ◌∙◌, arith, ◌⊎◌, inl, inr, Bool, ◌&&◌, ◌||◌, Bool-cases,
  ltb, leb, ◌==◌, if◌then◌else◌,
}
use cfp2dreamcast.Iface.{phys}
use cfp2dreamcast.Machine.{Platform, Machine}
use cfp2dreamcast.Machine.Memory.{Ram, for_loop}
use cfp2dreamcast.Machine.Store.{for_loop-inside, for_loop-outside}
use cfp2dreamcast.Util.{pixel, bar_pixels, framebuffer, loadbar_paint}
use cfp2dreamcast.Util.Paint.{InMain, loadbar_paint-main}
use cfp2dreamcast.Util.Hud.Marks.{colour_byte}

-- The inside of the bar, its left and right edges, and its top and bottom edges.
abbrev pub in_track : ℕ → ℕ → Bool
in_track x y = leb 160 x && ltb x 480 && leb 420 y && ltb y 426

abbrev pub on_side : ℕ → ℕ → Bool
on_side x y = (x == 158 || x == 482) && leb 418 y && ltb y 428

abbrev pub on_end : ℕ → ℕ → Bool
on_end x y = leb 158 x && ltb x 483 && (y == 417 || y == 428)

-- A byte of the pixel at `x` and `y` behind the bar with `fill` pixels lit, from what it was.
abbrev pub picture : ℕ → ℕ → ℕ → ℕ → ℕ → ℕ
picture fill x y b old =
    if in_track x y
    then colour_byte b (if ltb (x - 160) fill then 0x7984 else 0)
    else if on_side x y || on_end x y
    then 0
    else old

module _ (fb x y b q : ℕ) (lo : 0xa5000000 ≤ fb) (hi : fb < 0xa6000000) (wide : x < 640)
    (high : y < 480) (byte : b < 2) (at : q ≡ phys (fb + 2 * (y * 640 + x) + b)) where
  pixel-here : (i v : ℕ) (m : Ram) → i ≡ y * 640 + x → pixel fb i v m q ≡ colour_byte b v
  pixel-here i v m here = ground arith

  pixel-there : (i v : ℕ) (m : Ram) → i < 0x100000 → i ≢ y * 640 + x → pixel fb i v m q ≡ m q
  pixel-there i v m small there = ground arith

  track-at :
      (fill : ℕ) (m : Ram)
      → for_loop 6 420
          (λ y. for_loop 320 0 λ x. pixel fb (y * 640 + 160 + x) (if ltb x fill then 0x7984 else 0))
          m
          q
        ≡ (if in_track x y then colour_byte b (if ltb (x - 160) fill then 0x7984 else 0) else m q)
  track-at fill m = elim (Bool-cases (in_track x y)) [
    | inl inside ↦ rw inside (
        for_loop-inside q 6 420 y (colour_byte b (if ltb (x - 160) fill then 0x7984 else 0)) _ m
          (ground arith) (ground arith)
          (λ k.
            for_loop-inside q 320 0 (x - 160)
              (colour_byte b (if ltb (x - 160) fill then 0x7984 else 0)) _ k (omega arith)
              (ground arith) (λ l. pixel-here (y * 640 + 160 + (x - 160)) _ l (ground arith))
              (λ i l above below. pixel-there (y * 640 + 160 + i) _ l (omega arith) (ground arith)))
          (λ j k above below.
            for_loop-outside q 320 0 _ k
              (λ i l _ h. pixel-there (j * 640 + 160 + i) _ l (omega arith) (λ e. omega arith))))
    | inr outside ↦ rw outside (
        for_loop-outside q 6 420 _ m (λ j k above below.
          for_loop-outside q 320 0 _ k
            (λ i l _ h. pixel-there (j * 640 + 160 + i) _ l (omega arith) (ground arith))))
  ]

  -- Two black pixels.
  pair : ℕ → ℕ → Ram → Ram
  pair i j k = pixel fb i 0 (pixel fb j 0 k)

  pair-here :
      (i j : ℕ) (k : Ram) → (i ≡ y * 640 + x) ⊎ (j ≡ y * 640 + x) → i < 0x100000 → pair i j k q ≡ 0
  unfolding pair
  pair-here i j k here small = elim (Bool-cases (i == y * 640 + x)) [
    | inl first ↦ pixel-here i 0 (pixel fb j 0 k) (ground arith) ∙ ground arith
    | inr second ↦
        pixel-there i 0 (pixel fb j 0 k) small (ground arith)
        ∙ pixel-here j 0 k (ground arith)
        ∙ ground arith
  ]

  pair-there :
      (i j : ℕ) (k : Ram)
      → i < 0x100000
      → j < 0x100000
      → i ≢ y * 640 + x
      → j ≢ y * 640 + x
      → pair i j k q ≡ k q
  unfolding pair
  pair-there i j k hi hj ei ej = pixel-there i 0 (pixel fb j 0 k) hi ei ∙ pixel-there j 0 k hj ej

  sides-at :
      (m : Ram)
      → for_loop 10 418 (λ y. pair (y * 640 + 158) (y * 640 + 482)) m q
        ≡ (if on_side x y then 0 else m q)
  sides-at m = elim (Bool-cases (on_side x y)) [
    | inl on ↦ rw on (
        for_loop-inside q 10 418 y 0 _ m (ground arith) (ground arith)
          (λ k. pair-here (y * 640 + 158) (y * 640 + 482) k (ground arith) (omega arith))
          (λ j k above below.
            pair-there (j * 640 + 158) (j * 640 + 482) k (omega arith) (omega arith)
              (λ e. omega arith) (λ e. omega arith)))
    | inr off ↦ rw off (
        for_loop-outside q 10 418 _ m (λ j k above below.
          pair-there (j * 640 + 158) (j * 640 + 482) k (omega arith) (omega arith) (ground arith)
            (ground arith)))
  ]

  ends-at :
      (m : Ram)
      → for_loop 325 158 (λ x. pair (417 * 640 + x) ((417 + 11) * 640 + x)) m q
        ≡ (if on_end x y then 0 else m q)
  ends-at m = elim (Bool-cases (on_end x y)) [
    | inl on ↦ rw on (
        for_loop-inside q 325 158 x 0 _ m (ground arith) (ground arith)
          (λ k. pair-here (417 * 640 + x) ((417 + 11) * 640 + x) k (ground arith) (omega arith))
          (λ j k above below.
            pair-there (417 * 640 + j) ((417 + 11) * 640 + j) k (omega arith) (omega arith)
              (λ e. omega arith) (λ e. omega arith)))
    | inr off ↦ rw off (
        for_loop-outside q 325 158 _ m (λ j k above below.
          pair-there (417 * 640 + j) ((417 + 11) * 640 + j) k (omega arith) (omega arith)
            (ground arith) (ground arith)))
  ]

  bar_pixels-at : (fill : ℕ) (m : Ram) → bar_pixels fb fill m q ≡ picture fill x y b (m q)
  unfolding bar_pixels pair
  bar_pixels-at fill m =
      let ends = for_loop 325 158 (λ x. pair (417 * 640 + x) ((417 + 11) * 640 + x)) m in
      let sides = for_loop 10 418 (λ y. pair (y * 640 + 158) (y * 640 + 482)) ends in
      track-at fill sides ∙ ground (arith, sides-at ends, ends-at m)

module _ (p : Platform) where
  open p use {Dev}

  -- The load bar is its picture: in the framebuffer that is on the screen, each of the 640 by 480
  -- pixels shows what the picture of a bar with `fill` lit pixels, 320 at most, has there, and what
  -- it showed before where the picture has nothing. No byte of main memory changes.
  pub loadbar_paint-eq-picture :
      (fill : ℕ) (s : Machine Dev)
      → ((x y b q : ℕ)
          → x < 640
          → y < 480
          → b < 2
          → q ≡ phys (framebuffer p s.dev + 2 * (y * 640 + x) + b)
          → (loadbar_paint p fill s).ram q ≡ picture fill x y b (s.ram q))
        × ((q : ℕ) → InMain q → (loadbar_paint p fill s).ram q ≡ s.ram q)
  unfolding loadbar_paint
  loadbar_paint-eq-picture fill s = (
    (λ x y b q wide high byte at.
        bar_pixels-at (framebuffer p s.dev) x y b q (omega arith) (omega arith) wide high byte at
          (if ltb 320 fill then 320 else fill) s.ram
        ∙ ground arith),
    (λ q main. loadbar_paint-main p fill q s main),
  )
