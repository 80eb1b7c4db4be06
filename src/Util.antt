-- ===== src/Util.antt =====
-- shims/src/util.c: the painters of the live framebuffer, the fatal stop and the video cable.
-- `shim_mark` and `shim_hex`, which the default build compiles to nothing, are in Hud.
pub mod Paint
pub mod Cable
pub mod Die
pub mod Hud
pub mod Bar
use cfp2dreamcast.Base.{
  ℕ, ◌+◌, ◌-◌, ◌*◌, ◌/◌, ◌%◌, ◌^◌, Bool, true, false, List, [], ◌∷◌, ltb, ◌==◌, if◌then◌else◌,
  get_or, has_bit, field, clear_bit, u32,
}
use cfp2dreamcast.Iface.{p2addr, shim_err}
use cfp2dreamcast.Machine.{Platform, Machine, M, ℤ, returns, died, ◌>>=◌}
use cfp2dreamcast.Machine.Memory.{Ram, store16, store32, for_loop}

abbrev pub vo_control : ℕ
vo_control = 0xa05f80e8

abbrev pub fb_r_sof1 : ℕ
fb_r_sof1 = 0xa05f8050

abbrev hexfont : List (List ℕ)
hexfont =
    (7 ∷ 5 ∷ 5 ∷ 5 ∷ 7 ∷ [])
    ∷ (2 ∷ 6 ∷ 2 ∷ 2 ∷ 7 ∷ [])
    ∷ (7 ∷ 1 ∷ 7 ∷ 4 ∷ 7 ∷ [])
    ∷ (7 ∷ 1 ∷ 7 ∷ 1 ∷ 7 ∷ [])
    ∷ (5 ∷ 5 ∷ 7 ∷ 1 ∷ 1 ∷ [])
    ∷ (7 ∷ 4 ∷ 7 ∷ 1 ∷ 7 ∷ [])
    ∷ (7 ∷ 4 ∷ 7 ∷ 5 ∷ 7 ∷ [])
    ∷ (7 ∷ 1 ∷ 2 ∷ 2 ∷ 2 ∷ [])
    ∷ (7 ∷ 5 ∷ 7 ∷ 5 ∷ 7 ∷ [])
    ∷ (7 ∷ 5 ∷ 7 ∷ 1 ∷ 7 ∷ [])
    ∷ (2 ∷ 5 ∷ 7 ∷ 5 ∷ 5 ∷ [])
    ∷ (6 ∷ 5 ∷ 6 ∷ 5 ∷ 6 ∷ [])
    ∷ (7 ∷ 4 ∷ 4 ∷ 4 ∷ 7 ∷ [])
    ∷ (6 ∷ 5 ∷ 5 ∷ 5 ∷ 6 ∷ [])
    ∷ (7 ∷ 4 ∷ 7 ∷ 4 ∷ 7 ∷ [])
    ∷ (7 ∷ 4 ∷ 7 ∷ 4 ∷ 4 ∷ [])
    ∷ []

-- `fb[i] = v;`
abbrev pub pixel : ℕ → ℕ → ℕ → Ram → Ram
pixel fb i v = store16 (fb + 2 * u32 i) v

-- One cell of a glyph, a 2 by 2 block.
hex_cell : ℕ → ℕ → ℕ → ℕ → Ram → Ram
hex_cell fb x y px m =
    pixel fb ((y + 1) * 640 + x + 1) px (
      pixel fb ((y + 1) * 640 + x) px (pixel fb (y * 640 + x + 1) px (pixel fb (y * 640 + x) px m)))

hex_pixels : ℕ → ℕ → ℕ → ℕ → ℕ → ℕ → Ram → Ram
unfolding hex_cell
hex_pixels fb x y val fg bg = for_loop 8 0 λ d.
    let nib = val / 2 ^ ((7 - d) * 4) % 2 ^ 4 in
    for_loop 5 0 λ r. for_loop 3 0 λ c.
      let px = if has_bit (get_or (get_or hexfont nib []) r 0) (2 - c) then fg else bg in
      hex_cell fb (x + d * 10 + c * 2) (y + r * 2) px

bar_pixels : ℕ → ℕ → Ram → Ram
bar_pixels fb fill m =
    let yb : ℕ = 417 in
    let ends =
      for_loop (483 - 158) 158
        (λ x k. pixel fb (yb * 640 + x) 0 (pixel fb ((yb + 11) * 640 + x) 0 k)) m in
    let sides =
      for_loop 10 (yb + 1) (λ y k. pixel fb (y * 640 + 158) 0 (pixel fb (y * 640 + 482) 0 k))
        ends in
    for_loop 6 (yb + 3)
      (λ y. for_loop 320 0 λ x. pixel fb (y * 640 + 160 + x) (if ltb x fill then 0x7984 else 0))
      sides

pub death_colour : ℕ → ℕ
death_colour code =
    if code == 2
    then 0xffe0ffe0
    else if code == 3
    then 0xf81ff81f
    else if code == 4
    then 0xf800f800
    else if code == 5
    then 0x001f001f
    else 0x07ff07ff

pub error_block : ℕ → ℕ → ℕ → Ram → Ram
unfolding p2addr
error_block code a b m =
    let e = p2addr shim_err in
    store32 e code (store32 (e + 12) 0xdeadcafe (store32 (e + 8) b (store32 (e + 4) a m)))

pub fill_screen : ℕ → Ram → Ram
fill_screen px = for_loop (0x100000 / 4) 0 λ i. store32 (0xa5000000 + 4 * i) px

module _ (p : Platform) where
  open p use {Dev, load_reg, store_reg}

  -- `VO_CONTROL &= ~8u`
  abbrev pub unblank : Dev → Dev
  unblank d = store_reg vo_control (clear_bit (load_reg vo_control d) 3) d

  -- The scanout base of the framebuffer, seen uncached.
  abbrev pub framebuffer : Dev → ℕ
  framebuffer d = 0xa5000000 + field (load_reg fb_r_sof1 d) 2 22

  pub hex_paint_c : ℕ → ℕ → ℕ → ℕ → ℕ → Machine Dev → Machine Dev
  unfolding hex_pixels
  hex_paint_c x y val fg bg s =
      let d = unblank s.dev in
      record s { dev = d; ram = hex_pixels (framebuffer d) x y val fg bg s.ram }

  pub hex_paint : ℕ → ℕ → ℕ → Machine Dev → Machine Dev
  unfolding hex_paint_c
  hex_paint x y val = hex_paint_c x y val 0x07ff 0x0000

  pub loadbar_paint : ℕ → Machine Dev → Machine Dev
  unfolding bar_pixels
  loadbar_paint fill s =
      let lit = if ltb 320 fill then 320 else fill in
      record s { ram = bar_pixels (framebuffer s.dev) lit s.ram; dev = unblank s.dev }

  -- The error block, then the screen.
  pub death_screen : ℕ → ℕ → ℕ → Machine Dev → Machine Dev
  unfolding hex_paint
  death_screen code a b s =
      let reported = error_block code a b s.ram in
      let filled = record s { ram = fill_screen (death_colour code) reported } in
      hex_paint 20 128 b (hex_paint 20 114 a (hex_paint 20 100 code filled))

  -- `shim_die` does not return.
  unfoldable pub shim_die : {A : Type 0} → ℕ → ℕ → ℕ → M Dev A
  shim_die code a b s = died code a b (death_screen code a b s)

  unfoldable pub shim_cable_is_vga : M Dev Bool
  shim_cable_is_vga s =
      if ltb 3 s.cable_latch
      then (let w = load_reg 0xff80002c s.dev in
          let d = store_reg 0xff80002c (w - field w 16 4 + 0x000a0000) s.dev in
          let latch = load_reg 0xff800030 d / 2 ^ 8 % 2 ^ 2 in
          returns (latch == 0)
            (record s { dev = d; statics = record s.statics { cable_latch = latch } }))
      else returns (s.cable_latch == 0) s

  -- The game's display initialisation at 0x8c034020 is an argument.
  unfoldable pub shim_vid_init : (ℕ → ℕ → ℕ → ℕ → M Dev ℤ) → ℕ → ℕ → ℕ → ℕ → M Dev ℤ
  unfolding shim_cable_is_vga loadbar_paint
  shim_vid_init display mode b c d = do
    vga ← shim_cable_is_vga
    r ← display (if vga then mode else mode - mode % 2 ^ 2) b c d
    λ s. returns r (loadbar_paint 0 s)
