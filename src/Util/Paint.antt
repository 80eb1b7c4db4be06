-- ===== src/Util/Paint.antt =====
-- Painting touches video memory only.
use cfp2dreamcast.Base.{ℕ, ◌+◌, ◌*◌, ◌<◌, ◌≤◌, ◌≡◌, ◌∙◌, refl, arith, ltb, if◌then◌else◌}
use cfp2dreamcast.Machine.{Platform, Machine}
use cfp2dreamcast.Machine.Memory.{Ram}
use cfp2dreamcast.Machine.Store.{for_loop-outside}
use cfp2dreamcast.Util.{
  pixel, hex_cell, hex_pixels, bar_pixels, framebuffer, loadbar_paint, hex_paint, unblank,
}

-- Main memory, as the Dreamcast maps it.
abbrev pub InMain : ℕ → Type 0
InMain q = (0x0c000000 ≤ q) × (q < 0x10000000)

module _ (fb q : ℕ) (lo : 0xa5000000 ≤ fb) (hi : fb < 0xa6000000) (main : InMain q) where
  pixel-main : (i v : ℕ) (m : Ram) → i < 0x1000000 → pixel fb i v m q ≡ m q
  pixel-main i v m small = ground arith

  hex_cell-main : (x y px : ℕ) (m : Ram) → x < 640 → y < 480 → hex_cell fb x y px m q ≡ m q
  unfolding hex_cell
  hex_cell-main x y px m hx hy =
      pixel-main ((y + 1) * 640 + x + 1) px
        (pixel fb ((y + 1) * 640 + x) px
          (pixel fb (y * 640 + x + 1) px (pixel fb (y * 640 + x) px m)))
        (omega arith)
      ∙ pixel-main ((y + 1) * 640 + x) px
          (pixel fb (y * 640 + x + 1) px (pixel fb (y * 640 + x) px m)) (omega arith)
      ∙ pixel-main (y * 640 + x + 1) px (pixel fb (y * 640 + x) px m) (omega arith)
      ∙ pixel-main (y * 640 + x) px m (omega arith)

  hex_pixels-main :
      (x y val fg bg : ℕ) (m : Ram) → x < 500 → y < 400 → hex_pixels fb x y val fg bg m q ≡ m q
  unfolding hex_pixels
  hex_pixels-main x y val fg bg m hx hy = for_loop-outside q 8 0 _ m λ d k _ hd.
      for_loop-outside q 5 0 _ k λ r k' _ hr.
        for_loop-outside q 3 0 _ k'
          λ c k'' _ hc. hex_cell-main _ _ _ k'' (omega arith) (omega arith)

  bar_pixels-main : (fill : ℕ) (m : Ram) → bar_pixels fb fill m q ≡ m q
  unfolding bar_pixels
  bar_pixels-main fill m =
      for_loop-outside q 6 420 _ _ (λ y k _ hy. for_loop-outside q 320 0 _ k (λ x k' _ hx.
        pixel-main (y * 640 + 160 + x) (if ltb x fill then 0x7984 else 0) k' (omega arith)))
      ∙ for_loop-outside q 10 418 _ _ (λ y k _ hy.
        pixel-main (y * 640 + 158) 0 (pixel fb (y * 640 + 482) 0 k) (omega arith)
        ∙ pixel-main (y * 640 + 482) 0 k (omega arith))
      ∙ for_loop-outside q 325 158 _ m (λ x k _ hx.
        pixel-main (417 * 640 + x) 0 (pixel fb ((417 + 11) * 640 + x) 0 k) (omega arith)
        ∙ pixel-main ((417 + 11) * 640 + x) 0 k (omega arith))

module _ (p : Platform) where
  open p use {Dev}

  -- The load bar, painted to any width, leaves main memory as it was.
  pub loadbar_paint-main :
      (fill q : ℕ) (s : Machine Dev) → InMain q → (loadbar_paint p fill s).ram q ≡ s.ram q
  unfolding loadbar_paint
  loadbar_paint-main fill q s main =
      bar_pixels-main (framebuffer p s.dev) q (omega arith) (omega arith) main _ s.ram

  pub loadbar_paint-dev :
      (fill : ℕ) (s : Machine Dev) → (loadbar_paint p fill s).dev ≡ unblank p s.dev
  unfolding loadbar_paint
  loadbar_paint-dev fill s = refl

  pub loadbar_paint-statics :
      (fill : ℕ) (s : Machine Dev) → (loadbar_paint p fill s).statics ≡ s.statics
  unfolding loadbar_paint
  loadbar_paint-statics fill s = refl

  pub hex_paint-main :
      (x y val q : ℕ) (s : Machine Dev)
      → x < 500
      → y < 400
      → InMain q
      → (hex_paint p x y val s).ram q ≡ s.ram q
  unfolding hex_paint
  hex_paint-main x y val q s hx hy main =
      hex_pixels-main (framebuffer p _) q (omega arith) (omega arith) main x y val 0x07ff 0 s.ram hx
        hy
